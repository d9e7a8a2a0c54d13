-- ===== src/Execution/Action.antt =====
-- A repository method: it works on the tables of the caller's transaction, and returns a value or
-- raises. What it wrote before it raised stays in the transaction; `transaction` is the
-- `with engine.begin()` round it, which rolls back.
pub mod Keeps
pub mod Commits
pub mod Returns
use leetcode_platform.Prelude.{ℕ, Bool, Option, none, some, if◌then◌else◌}
use leetcode_platform.Execution.Status.{Error, ExecutionState}
use leetcode_platform.Execution.Store.{
  Db, ExecutionRow, update_request, append_event, insert_outbox, OutboxRow, Details,
}

pub data Result {ℓ} (A : Type ℓ) : Type ℓ where
  ok : A → Result A
  err : Error → Result A

abbrev pub Action : Type 0 → Type 0
Action A = Db → Result A × Db

module _ {A : Type 0} where
  unfoldable pub pure : A → Action A
  pure a db = (ok a, db)

  unfoldable pub raise : Error → Action A
  raise e db = (err e, db)

  unfoldable pub gets : (Db → A) → Action A
  gets f db = (ok (f db), db)

  -- Where there is no row, raise.
  abbrev pub or_raise : Option A → Error → Action A
  or_raise none e = raise e
  or_raise (some a) _ = pure a

  abbrev pub lift : Result A → Action A
  lift (ok a) = pure a
  lift (err e) = raise e

  -- The body of a `try`: what it wrote before it raised stays.
  unfoldable pub attempt : Action A → Action (Result A)
  attempt m db = let (r, db') = m db in (ok r, db')

  abbrev pub settle : Db → Result A × Db → Result A × Db
  settle db (ok a, db') = (ok a, db')
  settle db (err e, _) = (err e, db)

  -- `with engine.begin() as connection`: an exception undoes what the block wrote.
  unfoldable pub transaction : Action A → Action A
  transaction m db = settle db (m db)

unfoldable pub raise_if : Bool → Error → Action (Unit {0})
raise_if c e db = (if c then err e else ok tt, db)

abbrev pub raise_some : Option Error → Action (Unit {0})
raise_some none = pure tt
raise_some (some e) = raise e

unfoldable pub write : (Db → Db) → Action (Unit {0})
write f db = (ok tt, f db)

unfoldable pub update :
    ℕ → (ExecutionRow → Bool) → (ExecutionRow → ExecutionRow) → Action (Option ExecutionRow)
update k guard f db = let (r, db') = update_request k guard f db in (ok r, db')

unfoldable pub record_event : ℕ → ExecutionState → Details → Action (Unit {0})
record_event k s d db = (ok tt, append_event k s d db)

unfoldable pub enqueue : OutboxRow → Action (Unit {0})
enqueue o db = (ok tt, insert_outbox o db)

module _ {A B : Type 0} where
  abbrev pub continue : Result A → (A → Action B) → Action B
  continue (ok a) f db = f a db
  continue (err e) f db = (err e, db)

  infixl 5 ◌>>=◌ ◌>>◌
  -- Opening this opens the other ways to build an action too.
  unfoldable pub ◌>>=◌ : Action A → (A → Action B) → Action B
  unfolding pure raise gets attempt raise_if write update record_event enqueue
  ◌>>=◌ m f db = let (r, db') = m db in continue r f db'

  abbrev pub ◌>>◌ : Action A → Action B → Action B
  m >> k = m >>= λ _. k
