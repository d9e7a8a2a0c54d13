-- ===== src/Execution/Action/Keeps.antt =====
-- Invariants of actions: one rule for each way to build an action.
use leetcode_platform.Prelude.{ℕ, Bool, true, false, Option, none, some, if◌then◌else◌}
use leetcode_platform.Execution.Status.{Error, ExecutionState}
use leetcode_platform.Execution.Store.{
  Db, ExecutionRow, update_request, append_event, insert_outbox, OutboxRow, Details,
}
use leetcode_platform.Execution.Action.{
  Action, attempt, Result, ok, err, settle, continue, pure, raise, gets, or_raise, raise_if,
  raise_some, write, update, record_event, enqueue, ◌>>=◌, transaction,
}

-- `m` keeps `P`, whether it returns or raises.
pub record Keeps {A : Type 0} (P : Db → Type 0) (m : Action A) : Type 0 where
  pub at : (db : Db) → P db → P (m db).1

module _ {A : Type 0} {P : Db → Type 0} where
  pub Keeps-pure : (a : A) → Keeps P (pure a)
  unfolding pure
  Keeps-pure a = record { at = λ db h. h }

  pub Keeps-raise : (e : Error) → Keeps P (raise {A = A} e)
  unfolding raise
  Keeps-raise e = record { at = λ db h. h }

  pub Keeps-gets : (f : Db → A) → Keeps P (gets f)
  unfolding gets
  Keeps-gets f = record { at = λ db h. h }

  pub Keeps-or_raise : (o : Option A) (e : Error) → Keeps P (or_raise o e)
  Keeps-or_raise none e = Keeps-raise e
  Keeps-or_raise (some a) e = Keeps-pure a

  pub Keeps-if : (b : Bool) (m n : Action A) → Keeps P m → Keeps P n → Keeps P (if b then m else n)
  Keeps-if true m n km kn = km
  Keeps-if false m n km kn = kn

  pub Keeps-attempt : (m : Action A) → Keeps P m → Keeps P (attempt m)
  unfolding attempt
  Keeps-attempt m km = record { at = km.at }

  -- A block that raises is rolled back, so it keeps what it keeps where it returns.
  pub Keeps-transaction : (m : Action A) → Keeps P m → Keeps P (transaction m)
  unfolding transaction
  Keeps-transaction m km = record { at = λ db h. go db h (m db) (km.at db h) }
    where
      go : (db : Db) → P db → (r : Result A × Db) → P r.1 → P (settle db r).1
      go db h (ok a, db') h' = h'
      go db h (err e, db') h' = h

module _ {P : Db → Type 0} where
  pub Keeps-raise_if : (c : Bool) (e : Error) → Keeps P (raise_if c e)
  unfolding raise_if
  Keeps-raise_if c e = record { at = λ db h. h }

  pub Keeps-raise_some : (o : Option Error) → Keeps P (raise_some o)
  Keeps-raise_some none = Keeps-pure tt
  Keeps-raise_some (some e) = Keeps-raise e

  pub Keeps-write : (f : Db → Db) → ((db : Db) → P db → P (f db)) → Keeps P (write f)
  unfolding write
  Keeps-write f h = record { at = h }

  pub Keeps-update :
      (k : ℕ) (guard : ExecutionRow → Bool) (f : ExecutionRow → ExecutionRow)
      → ((db : Db) → P db → P (update_request k guard f db).1)
      → Keeps P (update k guard f)
  unfolding update
  Keeps-update k guard f h = record { at = h }

  pub Keeps-record_event :
      (k : ℕ) (s : ExecutionState) (d : Details)
      → ((db : Db) → P db → P (append_event k s d db))
      → Keeps P (record_event k s d)
  unfolding record_event
  Keeps-record_event k s d h = record { at = h }

  pub Keeps-enqueue :
      (o : OutboxRow) → ((db : Db) → P db → P (insert_outbox o db)) → Keeps P (enqueue o)
  unfolding enqueue
  Keeps-enqueue o h = record { at = h }

module _ {A B : Type 0} {P : Db → Type 0} where
  Keeps-continue :
      (r : Result A) (f : A → Action B) (db : Db)
      → ((a : A) → Keeps P (f a))
      → P db
      → P (continue r f db).1
  Keeps-continue (ok a) f db kf h = (kf a).at db h
  Keeps-continue (err e) f db kf h = h

  pub Keeps-bind :
      (m : Action A) (f : A → Action B) → Keeps P m → ((a : A) → Keeps P (f a)) → Keeps P (m >>= f)
  unfolding ◌>>=◌
  Keeps-bind m f km kf = record {
    at = λ db h. let (r, db') = m db in Keeps-continue r f db' kf (km.at db h);
  }

  -- From the state that `m` leaves, whatever it began with.
  pub Keeps-then :
      (m : Action A) (f : A → Action B) (db : Db)
      → ((a : A) → Keeps P (f a))
      → P (m db).1
      → P ((m >>= f) db).1
  unfolding ◌>>=◌
  Keeps-then m f db kf h = let (r, db') = m db in Keeps-continue r f db' kf h

pub ruleset keeps_rules = (
  Keeps-pure, Keeps-raise, Keeps-gets, Keeps-or_raise, Keeps-if, Keeps-raise_if, Keeps-raise_some,
  Keeps-bind, Keeps-attempt, Keeps-transaction,
)
