-- ===== src/Execution/Since.antt =====
-- A rule for each statement of the repositories: the requests that an operation found are there
-- after it, further on in their lives.
pub mod Claims
pub mod Create
pub mod Repository
pub mod Persist
use leetcode_platform.Prelude.{ℕ, ◌≡◌, true, Bool, arith}
use leetcode_platform.Execution.Status.{ExecutionState}
use leetcode_platform.Execution.Store.{
  Db, ExecutionRow, update_request, append_event, insert_outbox, OutboxRow, Details,
}
use leetcode_platform.Execution.Action.{update, write, record_event, enqueue}
use leetcode_platform.Execution.Action.Keeps.{
  Keeps, keeps_rules, Keeps-update, Keeps-record_event, Keeps-enqueue, Keeps-write,
}
use leetcode_platform.Execution.Evolution.{
  Progress, Evolves, Evolves-refl, Evolves-trans, update_request-Evolves,
}

pub insert_outbox-requests : (o : OutboxRow) (db : Db) → (insert_outbox o db).requests ≡ db.requests
unfolding insert_outbox
insert_outbox-requests o db = ground arith

-- What an operation that began at `origin` may have done to the requests.
pub record Since (origin db : Db) : Type 0 where
  pub rows : Evolves origin.requests db.requests

pub Since-refl : (db : Db) → Since db db
Since-refl db = record { rows = Evolves-refl db.requests }

module _ {origin : Db} where
  -- An UPDATE of one row, and an event, inside such an operation.
  pub Since-update :
      (k : ℕ) (guard : ExecutionRow → Bool) (f : ExecutionRow → ExecutionRow)
      → ((x : ExecutionRow) → guard x ≡ true → Progress x (f x))
      → Keeps (Since origin) (update k guard f)
  Since-update k guard f advances = Keeps-update k guard f (λ db h. record {
    rows =
        Evolves-trans origin.requests db.requests (update_request k guard f db).1.requests h.rows
          (update_request-Evolves k guard f advances db);
  })

  pub Since-record_event :
      (k : ℕ) (s : ExecutionState) (d : Details) → Keeps (Since origin) (record_event k s d)
  unfolding append_event
  Since-record_event k s d = Keeps-record_event k s d (λ db h. record { rows = h.rows })

  pub Since-enqueue : (o : OutboxRow) → Keeps (Since origin) (enqueue o)
  Since-enqueue o =
      Keeps-enqueue o (λ db h. record { rows = rw (insert_outbox-requests o db) h.rows })

pub ruleset since_rules = (keeps_rules, Since-record_event, Since-enqueue)
