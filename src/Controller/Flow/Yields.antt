-- ===== src/Controller/Flow/Yields.antt =====
-- apps/api/src/rigor_api/execution_controller.py: what a flow that returned says of its value and
-- the tables.
use leetcode_platform.Prelude.{◌≡◌, refl, Option, none, some, ap}
use leetcode_platform.Execution.Status.{Error}
use leetcode_platform.Execution.Store.{Db, Clock}
use leetcode_platform.Execution.Action.{Action, Result, ok, err, settle, transaction}
use leetcode_platform.Controller.Flow.{
  Outside, World, Ended, returns, raises, hangs, Flow, committed, continue, ◌>>=◌, begun, transact,
}

pub record Yields {A : Type 0} (Q : A → Db → Type 0) (m : Flow A) : Type 0 where
  pub at : (w : World) (a : A) → (m w).0 ≡ returns a → Q a (m w).1.db

pub Yields-any : {A : Type 0} (m : Flow A) → Yields (λ _ _. Unit {0}) m
Yields-any m = record { at = λ w a h. tt }

module _ {A B : Type 0} (R : A → Db → Type 0) (Q : B → Db → Type 0) where
  continue-Yields :
      (r : Ended A × World) (f : A → Flow B) (b : B)
      → ((a : A) → r.0 ≡ returns a → R a r.1.db)
      → ((a : A) (w : World) → R a w.db → (f a w).0 ≡ returns b → Q b (f a w).1.db)
      → (continue r f).0 ≡ returns b
      → Q b (continue r f).1.db
  continue-Yields (returns a, w) f b kr kf h = kf a w (kr a refl) h
  continue-Yields (raises e, w) f b kr kf h = cc
  continue-Yields (hangs, w) f b kr kf h = cc

  pub Yields-bind :
      (m : Flow A) (f : A → Flow B)
      → Yields R m
      → ((a : A) (w : World) (b : B) → R a w.db → (f a w).0 ≡ returns b → Q b (f a w).1.db)
      → Yields Q (m >>= f)
  unfolding ◌>>=◌
  Yields-bind m f km kf = record {
    at = λ w b h. continue-Yields (m w) f b (λ a. km.at w a) (λ a w'. kf a w' b) h;
  }

module _ {A : Type 0} (Q : A → Db → Type 0) where
  committed-Yields :
      (w : World) (db : Db) (r : Result A × Db) (a : A)
      → ((b : A) → r.0 ≡ ok b → Q b r.1)
      → (committed w (settle db r)).0 ≡ returns a
      → Q a (committed w (settle db r)).1.db
  committed-Yields w db (ok b, db') a k h = let same : b ≡ a = cc in k a (ap ok same)
  committed-Yields w db (err e, db') a k h = cc

  begun-Yields :
      (out : Outside) (e : Option Error) (body : Clock → Action A) (w : World) (a : A)
      → ((clock : Clock) (db : Db) (b : A) → (body clock db).0 ≡ ok b → Q b (body clock db).1)
      → (begun out e body w).0 ≡ returns a
      → Q a (begun out e body w).1.db
  unfolding transaction
  begun-Yields out (some e) body w a k h = cc
  begun-Yields out none body w a k h =
      committed-Yields w (out.others w.tick w.db) (body (out.clock w.tick) (out.others w.tick w.db))
        a (k (out.clock w.tick) (out.others w.tick w.db)) h

  pub Yields-transact :
      (out : Outside) (body : Clock → Action A)
      → ((clock : Clock) (db : Db) (b : A) → (body clock db).0 ≡ ok b → Q b (body clock db).1)
      → Yields Q (transact out body)
  unfolding transact
  Yields-transact out body k = record {
    at = λ w a h. begun-Yields out (out.database_error w.tick) body w a k h;
  }
