-- ===== src/Execution/Action/Returns.antt =====
-- What an action that returned says of its parts.
use leetcode_platform.Prelude.{Bool, true, false, ◌≡◌, refl}
use leetcode_platform.Execution.Status.{Error}
use leetcode_platform.Execution.Store.{Db}
use leetcode_platform.Execution.Action.{
  Action, Result, ok, err, continue, raise_if, gets, ◌>>=◌, transaction,
}

module _ {A B : Type 0} where
  continue-ok :
      (r : Result A) (f : A → Action B) (db : Db) (b : B)
      → (continue r f db).0 ≡ ok b
      → (a : A) × (r ≡ ok a) × ((f a db).0 ≡ ok b)
  continue-ok (ok a) f db b h = (a, refl, h)
  continue-ok (err e) f db b h = cc

  -- If a sequence returned, so did its parts.
  pub bind-ok :
      (m : Action A) (f : A → Action B) (db : Db) (b : B)
      → ((m >>= f) db).0 ≡ ok b
      → (a : A) × ((m db).0 ≡ ok a) × ((f a (m db).1).0 ≡ ok b)
  unfolding ◌>>=◌
  bind-ok m f db b h = continue-ok (m db).0 f (m db).1 b h

  pub bind-returned :
      (m : Action A) (f : A → Action B) (db : Db) (a : A)
      → (m db).0 ≡ ok a
      → (m >>= f) db ≡ f a (m db).1
  unfolding ◌>>=◌
  bind-returned m f db a h = rw h refl

  -- A part that raised ends the sequence.
  pub bind-err :
      (m : Action A) (f : A → Action B) (db : Db) (e : Error)
      → (m db).0 ≡ err e
      → ((m >>= f) db).0 ≡ err e
  unfolding ◌>>=◌
  bind-err m f db e h = rw h refl

pub gets-ok : {A : Type 0} (f : Db → A) (db : Db) (a : A) → (gets f db).0 ≡ ok a → f db ≡ a
unfolding gets
gets-ok f db a h = cc

pub raise_if-ok :
    (c : Bool) (e : Error) (db : Db) (u : Unit {0}) → (raise_if c e db).0 ≡ ok u → c ≡ false
unfolding raise_if
raise_if-ok true e db u h = cc
raise_if-ok false e db u h = refl

pub transaction-err :
    {A : Type 0} (m : Action A) (db : Db) (e : Error)
    → (m db).0 ≡ err e
    → transaction m db ≡ (err e, db)
unfolding transaction
transaction-err m db e h = rw h refl
