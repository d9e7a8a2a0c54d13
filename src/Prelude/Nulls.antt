-- ===== src/Prelude/Nulls.antt =====
-- What a comparison with a column that may be NULL says of the column, and the order of sorted rows.
use Prim.Native.Nat.{ℕ, zero, suc, ◌<◌}
use Prim.Native.String.{String}
use mathlib.Core.Path.{◌≡◌, refl, ap}
use mathlib.Core.Bool.{Bool, true}
use mathlib.Core.Logic.{◌⊎◌, inl, inr}
use mathlib.Core.Option.{Option, none, some}
use mathlib.Core.List.{List, [], ◌∷◌}
use native.Mathlib.Omega.{arith}
use text.Mathlib.TextEquality.{eq_iff}
use leetcode_platform.Prelude.Tests.{null_eq, null_lt, null_gt, is_none}
use leetcode_platform.Prelude.Lists.{length, take}
use leetcode_platform.Prelude.Sorted.{is_sorted}

pub null_eq-some : (o : Option String) (w : String) → null_eq o w ≡ true → o ≡ some w
null_eq-some none w h = cc
null_eq-some (some v) w h = ap some ((eq_iff v w).0 h)

pub null_lt-some : (o : Option ℕ) (n : ℕ) → null_lt o n ≡ true → (t : ℕ) × (o ≡ some t) × (t < n)
null_lt-some none n h = cc
null_lt-some (some t) n h = (t, refl, ground arith)

pub null_gt-some : (o : Option ℕ) (n : ℕ) → null_gt o n ≡ true → (t : ℕ) × (o ≡ some t) × (n < t)
null_gt-some none n h = cc
null_gt-some (some t) n h = (t, refl, ground arith)

pub is_none-eq : {A : Type 0} (o : Option A) → is_none o ≡ true → o ≡ none
is_none-eq none h = refl
is_none-eq (some a) h = cc

module _ {A : Type 0} where
  -- Each element stands in the relation to the next one.
  abbrev pub Ordered : (A → A → Type 0) → List A → Type 0
  Ordered R [] = Unit
  Ordered R (x ∷ []) = Unit
  Ordered R (x ∷ y ∷ ys) = R x y × Ordered R (y ∷ ys)

  pub is_sorted-Ordered :
      (before : A → A → Bool) (R : A → A → Type 0)
      → ((x y : A) → before x y ≡ true → R x y)
      → (xs : List A) → is_sorted before xs ≡ true
      → Ordered R xs
  is_sorted-Ordered before R means [] h = tt
  is_sorted-Ordered before R means (x ∷ []) h = tt
  is_sorted-Ordered before R means (x ∷ y ∷ ys) h =
      (means x y (ground arith), is_sorted-Ordered before R means (y ∷ ys) (ground arith))

  pub take-full : (n : ℕ) (xs : List A) → (length (take n xs) ≡ n) ⊎ (take n xs ≡ xs)
  take-full zero xs = inl refl
  take-full (suc n) [] = inr refl
  take-full (suc n) (x ∷ xs) = elim (take-full n xs) [
    | inl full ↦ inl (ap suc full)
    | inr whole ↦ inr (ap (λ ys. x ∷ ys) whole)
  ]
