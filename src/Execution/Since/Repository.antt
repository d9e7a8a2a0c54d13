-- ===== src/Execution/Since/Repository.antt =====
-- apps/api/src/rigor_api/execution_domain.py: `create_queued`, `transition` and `cancel` keep every
-- request that is there, and never take a row back in its life.
use leetcode_platform.Prelude.{
  ℕ, String, ◌≡◌, true, Option, some, arith, inl, inr, Bool-cases, Option-cases, modify,
}
use leetcode_platform.Execution.Status.{ExecutionStatus, is_legal, status_of}
use leetcode_platform.Execution.Store.{
  Db, Clock, Details, ExecutionRow, row_id, find_request, append_event,
}
use leetcode_platform.Execution.Repository.{
  get_execution, moved_row, transition, enqueue_cancel, cancel_active, cancel,
}
use leetcode_platform.Execution.Repository.Transition.{
  moved_db, transition-missing, transition-illegal, transition-legal,
}
use leetcode_platform.Execution.Action.Keeps.{Keeps}
use leetcode_platform.Execution.Evolution.{Progress, Evolves-trans, Evolves-modify}
use leetcode_platform.Execution.Since.{Since, since_rules}

moved_row-Progress :
    (clock : Clock) (target : ExecutionStatus) (w : Option String) (t : Option ℕ) (r : ExecutionRow)
    → is_legal (status_of r.state) target ≡ true
    → Progress r (moved_row clock target w t r)
unfolding moved_row
moved_row-Progress clock target w t r h = ground arith

module _ {origin : Db} where
  pub get_execution-Since : (k : ℕ) → Keeps (Since origin) (get_execution k)
  unfolding get_execution
  get_execution-Since k = search since_rules

  moved_db-Since :
      (clock : Clock) (k : ℕ) (target : ExecutionStatus) (d : Details) (w : Option String)
      (t : Option ℕ) (db : Db) (r : ExecutionRow)
      → find_request k db ≡ some r
      → is_legal (status_of r.state) target ≡ true
      → Since origin db
      → Since origin (moved_db clock k target d w t r db)
  unfolding append_event moved_row
  moved_db-Since clock k target d w t db r found legal h = record {
    rows =
        Evolves-trans origin.requests db.requests
          (modify row_id k (moved_row clock target w t) db.requests) h.rows
          (Evolves-modify k (moved_row clock target w t) db.requests found
            (moved_row-Progress clock target w t r legal));
  }

  -- The SELECT … FOR UPDATE at the head of `transition` is what makes its UPDATE legal.
  pub transition-Since :
      (clock : Clock) (k : ℕ) (target : ExecutionStatus) (d : Details) (w : Option String)
      (t : Option ℕ)
      → Keeps (Since origin) (transition clock k target d w t)
  transition-Since clock k target d w t = record {
    at = λ db h. elim (Option-cases (find_request k db)) [
      | inl missing ↦ rw (transition-missing clock k target d w t db missing) h
      | inr (r, found) ↦ elim (Bool-cases (is_legal (status_of r.state) target)) [
        | inl legal ↦
            rw (transition-legal clock k target d w t db r found legal)
              (moved_db-Since clock k target d w t db r found legal h)
        | inr illegal ↦ rw (transition-illegal clock k target d w t db r found illegal) h
      ]
    ];
  }

  enqueue_cancel-Since :
      (clock : Clock) (k : ℕ) (trace : String) (o : ℕ)
      → Keeps (Since origin) (enqueue_cancel clock k trace o)
  unfolding enqueue_cancel
  enqueue_cancel-Since clock k trace o = search since_rules

  cancel_active-Since :
      (clock : Clock) (k : ℕ) (trace : String) (o : ℕ)
      → Keeps (Since origin) (cancel_active clock k trace o)
  unfolding cancel_active
  cancel_active-Since clock k trace o = search (since_rules, transition-Since, enqueue_cancel-Since)

  pub cancel-Since :
      (clock : Clock) (k : ℕ) (trace : String) (o : ℕ)
      → Keeps (Since origin) (cancel clock k trace o)
  unfolding cancel
  cancel-Since clock k trace o = search (since_rules, get_execution-Since, cancel_active-Since)
