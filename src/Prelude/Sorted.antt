-- ===== src/Prelude/Sorted.antt =====
-- `ORDER BY`: the insertion sort of a list, for the rows that a query orders.
use Prim.Native.Nat.{ℕ, zero, suc}
use mathlib.Core.Path.{◌≡◌}
use mathlib.Core.Bool.{Bool, true, false, ◌&&◌}
use mathlib.Core.List.{List, [], ◌∷◌}
use mathlib.Core.Logic.{inl, inr}
use native.Mathlib.Omega.{arith}
use leetcode_platform.Prelude.Tests.{if◌then◌else◌, Bool-cases}
use leetcode_platform.Prelude.Lists.{take, keep, count_of, All}

module _ {ℓ} {A : Type ℓ} where
  -- `before x y`: x does not come after y.
  module _ (before : A → A → Bool) where
    abbrev pub insert_by : A → List A → List A
    insert_by x [] = x ∷ []
    insert_by x (y ∷ ys) = if before x y then x ∷ y ∷ ys else y ∷ insert_by x ys

    abbrev pub sort_by : List A → List A
    sort_by [] = []
    sort_by (x ∷ xs) = insert_by x (sort_by xs)

    abbrev pub is_sorted : List A → Bool
    is_sorted [] = true
    is_sorted (x ∷ []) = true
    is_sorted (x ∷ y ∷ ys) = before x y && is_sorted (y ∷ ys)

    count_of-insert_by :
        (p : A → Bool) (x : A) (ys : List A) → count_of p (insert_by x ys) ≡ count_of p (x ∷ ys)
    count_of-insert_by p x [] = ground arith
    count_of-insert_by p x (y ∷ ys) = ground (arith, count_of-insert_by p x ys)

    -- Nothing is lost or made up.
    pub count_of-sort_by : (p : A → Bool) (xs : List A) → count_of p (sort_by xs) ≡ count_of p xs
    count_of-sort_by p [] = ground arith
    count_of-sort_by p (x ∷ xs) =
        ground (arith, count_of-sort_by p xs, count_of-insert_by p x (sort_by xs))

    module _ (total : (x y : A) → before x y ≡ false → before y x ≡ true) where
      insert_by-sorted :
          (x : A) (ys : List A) → is_sorted ys ≡ true → is_sorted (insert_by x ys) ≡ true
      insert_by-sorted x [] h = ground arith
      insert_by-sorted x (y ∷ []) h = ground (arith, total x y)
      insert_by-sorted x (y ∷ z ∷ zs) h = ground (arith, total x y, insert_by-sorted x (z ∷ zs))

      pub sort_by-sorted : (xs : List A) → is_sorted (sort_by xs) ≡ true
      sort_by-sorted [] = ground arith
      sort_by-sorted (x ∷ xs) = insert_by-sorted x (sort_by xs) (sort_by-sorted xs)

    pub take-sorted : (n : ℕ) (xs : List A) → is_sorted xs ≡ true → is_sorted (take n xs) ≡ true
    take-sorted zero xs h = ground arith
    take-sorted (suc n) [] h = ground arith
    take-sorted (suc zero) (x ∷ []) h = ground arith
    take-sorted (suc zero) (x ∷ y ∷ ys) h = ground arith
    take-sorted (suc (suc n)) (x ∷ []) h = ground arith
    take-sorted (suc (suc n)) (x ∷ y ∷ ys) h = ground (arith, take-sorted (suc n) (y ∷ ys))

module _ {ℓ κ} {A : Type ℓ} (P : A → Type κ) where
  All-insert_by :
      (before : A → A → Bool) (x : A) (ys : List A) → P x → All P ys → All P (insert_by before x ys)
  All-insert_by before x [] p h = (p, tt)
  All-insert_by before x (y ∷ ys) p h = elim (Bool-cases (before x y)) [
    | inl first ↦ rw first (p, h)
    | inr other ↦ rw other (h.0, All-insert_by before x ys p h.1)
  ]

  pub All-sort_by : (before : A → A → Bool) (xs : List A) → All P xs → All P (sort_by before xs)
  All-sort_by before [] h = tt
  All-sort_by before (x ∷ xs) h =
      All-insert_by before x (sort_by before xs) h.0 (All-sort_by before xs h.1)

  pub All-take : (n : ℕ) (xs : List A) → All P xs → All P (take n xs)
  All-take zero xs h = tt
  All-take (suc n) [] h = tt
  All-take (suc n) (x ∷ xs) h = (h.0, All-take n xs h.1)

  pub All-keep : (p : A → Bool) (xs : List A) → ((x : A) → p x ≡ true → P x) → All P (keep p xs)
  All-keep p [] h = tt
  All-keep p (x ∷ xs) h = elim (Bool-cases (p x)) [
    | inl first ↦ rw first (h x first, All-keep p xs h)
    | inr other ↦ rw other (All-keep p xs h)
  ]
