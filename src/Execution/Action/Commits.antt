-- ===== src/Execution/Action/Commits.antt =====
-- What a transaction leaves if it commits. A block that raises is rolled back, so it is enough that
-- each statement keeps a property where it returns.
use leetcode_platform.Prelude.{Bool, true, false, ◌≡◌, refl}
use leetcode_platform.Execution.Store.{Db}
use leetcode_platform.Execution.Action.{
  Action, Result, ok, err, settle, continue, pure, raise, lift, ◌>>=◌, transaction,
}
use leetcode_platform.Execution.Action.Keeps.{Keeps, Keeps-pure, Keeps-raise}

abbrev pub is_ok : {A : Type 0} → Result A → Bool
is_ok (ok a) = true
is_ok (err e) = false

-- `m` keeps `P` where it returns.
pub record Commits {A : Type 0} (P : Db → Type 0) (m : Action A) : Type 0 where
  pub at : (db : Db) → P db → is_ok (m db).0 ≡ true → P (m db).1

settle-ok : {A : Type 0} (db : Db) (r : Result A × Db) → is_ok r.0 ≡ true → (settle db r).1 ≡ r.1
settle-ok db (ok a, db') h = refl
settle-ok db (err e, db') h = cc

settle-keeps :
    {A : Type 0} (P : Db → Type 0) (db : Db) (r : Result A × Db)
    → P db
    → (is_ok r.0 ≡ true → P r.1)
    → P (settle db r).1
settle-keeps P db (ok a, db') h h' = h' refl
settle-keeps P db (err e, db') h h' = h

module _ {A : Type 0} {P : Db → Type 0} where
  pub Commits-keeps : (m : Action A) → Keeps P m → Commits P m
  Commits-keeps m km = record { at = λ db h _. km.at db h }

  -- A statement that keeps `P` as a transaction of its own.
  pub Commits-alone : (m : Action A) → ((db : Db) → P db → P (transaction m db).1) → Commits P m
  unfolding transaction
  Commits-alone m h = record { at = λ db p good. rw (← settle-ok db (m db) good) (h db p) }

  pub Commits-transaction : (m : Action A) → Commits P m → (db : Db) → P db → P (transaction m db).1
  unfolding transaction
  Commits-transaction m km db h = settle-keeps P db (m db) h (km.at db h)

  pub Commits-pure : (a : A) → Commits P (pure a)
  Commits-pure a = Commits-keeps (pure a) (Keeps-pure a)

  pub Commits-lift : (r : Result A) → Commits P (lift r)
  Commits-lift (ok a) = Commits-pure a
  Commits-lift (err e) = Commits-keeps (raise e) (Keeps-raise e)

module _ {A B : Type 0} {P : Db → Type 0} where
  Commits-continue :
      (r : Result A) (f : A → Action B) (db : Db)
      → ((a : A) → Commits P (f a))
      → (is_ok r ≡ true → P db)
      → is_ok (continue r f db).0 ≡ true
      → P (continue r f db).1
  Commits-continue (ok a) f db kf h good = (kf a).at db (h refl) good
  Commits-continue (err e) f db kf h good = cc

  pub Commits-bind :
      (m : Action A) (f : A → Action B)
      → Commits P m
      → ((a : A) → Commits P (f a))
      → Commits P (m >>= f)
  unfolding ◌>>=◌
  Commits-bind m f km kf = record {
    at = λ db h good. Commits-continue (m db).0 f (m db).1 kf (km.at db h) good;
  }

  -- With what the result says of its value.
  pub Commits-lift_then :
      (r : Result A) (f : A → Action B)
      → ((a : A) → r ≡ ok a → Commits P (f a))
      → Commits P (lift r >>= f)
  unfolding ◌>>=◌
  Commits-lift_then (ok a) f kf = record { at = λ db h good. (kf a refl).at db h good }
  Commits-lift_then (err e) f kf = record { at = λ db h good. cc }
