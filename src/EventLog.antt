-- ===== src/EventLog.antt =====
-- The table `execution_events` (execution_domain.py, execution_claims.py): what the log of one
-- execution must look like, and how one appended event changes it.
pub mod Append
pub mod Claims
pub mod Create
pub mod Controller
pub mod Repository
pub mod Tables
use leetcode_platform.Prelude.{
  ℕ, suc, ◌≡◌, Bool, true, false, Option, none, some, List, [], ◌∷◌, ◌+◌, ◌==◌, ◌&&◌, if◌then◌else◌,
}
use leetcode_platform.Execution.Status.{ExecutionState, is_legal, status_of}
use leetcode_platform.Execution.Store.{EventRow, Db, ExecutionRow, find_request}
use leetcode_platform.Execution.Claims.{is_queued, is_in_flight, is_dispatching}

-- The moves that the pipeline makes: the legal transitions, and a new attempt of an execution in
-- flight.
unfoldable pub may_follow : ExecutionState → ExecutionState → Bool
may_follow s t =
    if is_in_flight s && is_dispatching t then true else is_legal (status_of s) (status_of t)

-- The first event is of the queued state, and each later one may follow the one before it.
unfoldable pub may_come : Option ExecutionState → ExecutionState → Bool
unfolding may_follow
may_come none t = is_queued t
may_come (some s) t = may_follow s t

-- The events of `k`, read in the order of their insertion: numbered on from `n`,
abbrev pub is_numbered : ℕ → ℕ → List EventRow → Bool
is_numbered k n [] = true
is_numbered k n (e ∷ events) =
    if e.execution_request_id == k
    then e.sequence_number == n && is_numbered k (n + 1) events
    else is_numbered k n events

-- each a move from the one before,
abbrev pub is_path : ℕ → Option ExecutionState → List EventRow → Bool
is_path k last [] = true
is_path k last (e ∷ events) =
    if e.execution_request_id == k
    then may_come last e.state && is_path k (some e.state) events
    else is_path k last events

-- and the state of the last.
abbrev pub last_state : ℕ → Option ExecutionState → List EventRow → Option ExecutionState
last_state k last [] = last
last_state k last (e ∷ events) =
    last_state k (if e.execution_request_id == k then some e.state else last) events

abbrev pub events_of : ℕ → List EventRow → ℕ
events_of k [] = 0
events_of k (e ∷ events) =
    let rest = events_of k events in if e.execution_request_id == k then suc rest else rest

abbrev pub row_state : Option ExecutionRow → Option ExecutionState
row_state none = none
row_state (some r) = some r.state

-- The log of the execution `k` agrees with its row.
pub record LogOf (k : ℕ) (db : Db) : Type 0 where
  pub numbered : is_numbered k 0 db.events ≡ true
  pub path : is_path k none db.events ≡ true
  pub current : last_state k none db.events ≡ row_state (find_request k db)

pub record IsLogged (db : Db) : Type 0 where
  pub log : (k : ℕ) → LogOf k db
