-- ===== src/Prelude/Query.antt =====
-- A query that filters, orders and limits the rows of a table.
use Prim.Native.Nat.{ℕ, zero, suc, min, ◌≤◌}
use mathlib.Core.Logic.{◌⊎◌, inl, inr}
use mathlib.Core.Option.{some}
use leetcode_platform.Prelude.Tests.{◌==◌, Bool-cases}
use leetcode_platform.Prelude.Keyed.{find}
use leetcode_platform.Prelude.Nulls.{take-full}
use mathlib.Core.Path.{◌≡◌}
use mathlib.Core.Bool.{Bool, true, false}
use mathlib.Core.List.{List, [], ◌∷◌, map}
use native.Mathlib.Omega.{arith}
use leetcode_platform.Prelude.Lists.{length, take, keep, count_of, All}
use leetcode_platform.Prelude.Sorted.{
  insert_by, sort_by, is_sorted, sort_by-sorted, count_of-sort_by, take-sorted, All-take,
  All-sort_by, All-keep,
}

pub length-keep : {A : Type 0} (p : A → Bool) (xs : List A) → length (keep p xs) ≡ count_of p xs
length-keep p [] = omega arith
length-keep p (x ∷ xs) = ground (arith, length-keep p xs)

pub length-map : {A B : Type 0} (f : A → B) (xs : List A) → length (map f xs) ≡ length xs
length-map f [] = omega arith
length-map f (x ∷ xs) = omega (arith, length-map f xs)

pub All-map :
    {A B : Type 0} (f : A → B) (P : A → Type 0) (Q : B → Type 0)
    → ((x : A) → P x → Q (f x))
    → (xs : List A) → All P xs
    → All Q (map f xs)
All-map f P Q means [] h = tt
All-map f P Q means (x ∷ xs) h = (means x h.0, All-map f P Q means xs h.1)

length-insert_by :
    {A : Type 0} (before : A → A → Bool) (x : A) (ys : List A)
    → length (insert_by before x ys) ≡ suc (length ys)
length-insert_by before x [] = omega arith
length-insert_by before x (y ∷ ys) = ground (arith, length-insert_by before x ys)

pub length-sort_by :
    {A : Type 0} (before : A → A → Bool) (xs : List A) → length (sort_by before xs) ≡ length xs
length-sort_by before [] = omega arith
length-sort_by before (x ∷ xs) =
    omega (arith, length-insert_by before x (sort_by before xs), length-sort_by before xs)

length-take : {A : Type 0} (n : ℕ) (xs : List A) → length (take n xs) ≡ min n (length xs)
length-take zero xs = omega arith
length-take (suc n) [] = omega arith
length-take (suc n) (x ∷ xs) = omega (arith, length-take n xs)

module _ {A : Type 0} (before : A → A → Bool) (p : A → Bool) (limit : ℕ) where
  -- `SELECT … WHERE p ORDER BY … LIMIT :limit`
  abbrev pub select_rows : List A → List A
  select_rows rows = take limit (sort_by before (keep p rows))

  pub select_rows-sorted :
      (total : (x y : A) → before x y ≡ false → before y x ≡ true) (rows : List A)
      → is_sorted before (select_rows rows) ≡ true
  select_rows-sorted total rows =
      take-sorted before limit (sort_by before (keep p rows))
        (sort_by-sorted before total (keep p rows))

  pub select_rows-All :
      (P : A → Type 0) (means : (x : A) → p x ≡ true → P x) (rows : List A)
      → All P (select_rows rows)
  select_rows-All P means rows =
      All-take P limit (sort_by before (keep p rows))
        (All-sort_by P before (keep p rows) (All-keep P p rows means))

  pub select_rows-length : (rows : List A) → length (select_rows rows) ≡ min limit (count_of p rows)
  select_rows-length rows = omega (
    arith,
    length-take limit (sort_by before (keep p rows)),
    length-sort_by before (keep p rows),
    length-keep p rows,
  )

module _ {A : Type 0} where
  kept_found :
      (key : A → ℕ) (p : A → Bool) (k : ℕ) (xs : List A) (x : A)
      → find key k xs ≡ some x
      → p x ≡ true
      → 1 ≤ count_of (λ y. key y == k) (keep p xs)
  kept_found key p k [] x h hp = cc
  kept_found key p k (y ∷ ys) x h hp = elim (Bool-cases (key y == k)) [
    | inl hit ↦
        let same : y ≡ x = cc (rw hit at h) in
        let good : p y ≡ true = rw same hp in rw (good, hit) (omega arith)
    | inr miss ↦
        let later = kept_found key p k ys x (rw miss at h) hp in
        elim (Bool-cases (p y)) [ inl good ↦ rw (good, miss) later | inr bad ↦ rw bad later ]
  ]

  -- A row that the WHERE clause admits is selected, or as many rows are as the limit allows.
  pub select_rows_complete :
      (before : A → A → Bool) (p : A → Bool) (limit : ℕ) (key : A → ℕ) (k : ℕ) (rows : List A)
      (x : A)
      → find key k rows ≡ some x
      → p x ≡ true
      → (length (select_rows before p limit rows) ≡ limit)
        ⊎ (1 ≤ count_of (λ y. key y == k) (select_rows before p limit rows))
  select_rows_complete before p limit key k rows x found hp =
      elim (take-full limit (sort_by before (keep p rows))) [
        | inl full ↦ inl full
        | inr whole ↦ inr (
            rw whole (
              omega (
                arith,
                kept_found key p k rows x found hp,
                count_of-sort_by before (λ y. key y == k) (keep p rows),
              )))
      ]
