-- ===== src/Prelude/Keyed.antt =====
-- A table as the list of its rows in insertion order, with a numeric primary key.
use Prim.Native.Nat.{ℕ}
use mathlib.Core.Path.{◌≡◌, refl}
use mathlib.Core.Logic.{◌≢◌}
use mathlib.Core.Option.{Option, none, some}
use mathlib.Core.List.{List, [], ◌∷◌, ◌++◌}
use native.Mathlib.Omega.{arith}
use leetcode_platform.Prelude.Tests.{◌==◌, if◌then◌else◌}

module _ {ℓ} {A : Type ℓ} (key : A → ℕ) where
  -- `SELECT … WHERE id = :k`
  abbrev pub find : ℕ → List A → Option A
  find k [] = none
  find k (r ∷ rows) = if key r == k then some r else find k rows

  -- `UPDATE … SET f WHERE id = :k`; the key is the primary key, so one row at most is meant.
  abbrev pub modify : ℕ → (A → A) → List A → List A
  modify k f [] = []
  modify k f (r ∷ rows) = if key r == k then f r ∷ rows else r ∷ modify k f rows

  pub find-modify_self :
      (k : ℕ) (f : A → A) (rows : List A) {r : A}
      → find k rows ≡ some r
      → key (f r) ≡ k
      → find k (modify k f rows) ≡ some (f r)
  find-modify_self k f [] e h = cc
  find-modify_self k f (x ∷ rows) {r} e h = ground (arith, find-modify_self k f rows {r = r})

  pub find-modify_ne :
      (k j : ℕ) (f : A → A) (rows : List A)
      → ((r : A) → key (f r) ≡ key r)
      → j ≢ k
      → find j (modify k f rows) ≡ find j rows
  find-modify_ne k j f [] h ne = refl
  find-modify_ne k j f (x ∷ rows) h ne = ground (arith, h x, find-modify_ne k j f rows h ne)

  pub find_key : (k : ℕ) (rows : List A) {r : A} → find k rows ≡ some r → key r ≡ k
  find_key k [] e = cc
  find_key k (x ∷ rows) {r} e = ground (arith, find_key k rows {r = r})

  pub find-append_some :
      (k : ℕ) (rows more : List A) {r : A} → find k rows ≡ some r → find k (rows ++ more) ≡ some r
  find-append_some k [] more e = cc
  find-append_some k (x ∷ rows) more {r} e = ground (arith, find-append_some k rows more {r = r})

  pub find-append_none :
      (k : ℕ) (rows more : List A) → find k rows ≡ none → find k (rows ++ more) ≡ find k more
  find-append_none k [] more e = refl
  find-append_none k (x ∷ rows) more e = ground (arith, find-append_none k rows more)

  pub find-append_ne :
      (k : ℕ) (rows : List A) (x : A) → key x ≢ k → find k (rows ++ x ∷ []) ≡ find k rows
  find-append_ne k [] x ne = ground arith
  find-append_ne k (y ∷ rows) x ne = ground (arith, find-append_ne k rows x ne)
