-- ===== src/Execution/Since/Claims.antt =====
-- apps/api/src/rigor_api/execution_claims.py: no statement of the claim repository takes a row
-- back in its life.
use leetcode_platform.Prelude.{ℕ, String, ◌≡◌, true, Option, none, some, arith}
use leetcode_platform.Execution.Store.{Db, Clock, ExecutionRow}
use leetcode_platform.Execution.Claims.{
  Deadline, naive, aware, instant_of, is_queued, is_in_flight, is_dispatching, claimed_row,
  report_claim, validate_lease_deadline, claim_for_dispatch, retry_guard, retried_row, report_retry,
  start_retry, retry_missing_sandbox, owns_lease, running_row, report_running, mark_running,
  renew_lease, lock_owned_attempt,
}
use leetcode_platform.Prelude.{◌&&◌}
use leetcode_platform.Execution.Action.{update}
use leetcode_platform.Execution.Action.Keeps.{Keeps}
use leetcode_platform.Execution.Evolution.{Progress}
use leetcode_platform.Execution.Since.{Since, Since-update, since_rules}

claimed_row-Progress :
    (clock : Clock) (w : String) (t : ℕ) (r : ExecutionRow)
    → is_queued r.state ≡ true
    → Progress r (claimed_row clock w t r)
unfolding claimed_row
claimed_row-Progress clock w t r h = ground arith

retried_row-Progress :
    (clock : Clock) (n m : ℕ) (w : String) (t : ℕ) (r : ExecutionRow)
    → retry_guard clock n m r ≡ true
    → Progress r (retried_row w t r)
unfolding retried_row retry_guard
retried_row-Progress clock n m w t r h = ground arith

running_row-Progress :
    (clock : Clock) (w ns job : String) (r : ExecutionRow)
    → (is_dispatching r.state && owns_lease clock w r) ≡ true
    → Progress r (running_row clock ns job r)
unfolding running_row
running_row-Progress clock w ns job r h = ground arith

renewed_row-Progress :
    (t : Option ℕ) (r : ExecutionRow) → Progress r (record r { lease_expires_at = t })
renewed_row-Progress t r = ground arith

module _ {origin : Db} where
  validate_lease_deadline-Since :
      (clock : Clock) (d : Deadline) → Keeps (Since origin) (validate_lease_deadline clock d)
  unfolding validate_lease_deadline
  validate_lease_deadline-Since clock (naive t) = search since_rules
  validate_lease_deadline-Since clock (aware t) = search since_rules

  report_claim-Since :
      (k : ℕ) (w : String) (t : ℕ) (row : Option ExecutionRow)
      → Keeps (Since origin) (report_claim k w t row)
  unfolding report_claim
  report_claim-Since k w t none = search since_rules
  report_claim-Since k w t (some r) = search since_rules

  update_claim-Since :
      (clock : Clock) (k : ℕ) (w : String) (t : ℕ)
      → Keeps (Since origin) (update k (λ r. is_queued r.state) (claimed_row clock w t))
  unfolding claimed_row
  update_claim-Since clock k w t = Since-update k _ _ (λ x h. claimed_row-Progress clock w t x h)

  pub claim_for_dispatch-Since :
      (clock : Clock) (k : ℕ) (w : String) (d : Deadline)
      → Keeps (Since origin) (claim_for_dispatch clock k w d)
  unfolding claim_for_dispatch
  claim_for_dispatch-Since clock k w d =
      search (since_rules, validate_lease_deadline-Since, report_claim-Since, update_claim-Since)

  report_retry-Since :
      (k : ℕ) (w : String) (t : ℕ) (row : Option ExecutionRow)
      → Keeps (Since origin) (report_retry k w t row)
  unfolding report_retry
  report_retry-Since k w t none = search since_rules
  report_retry-Since k w t (some r) = search since_rules

  update_retry-Since :
      (clock : Clock) (k n m : ℕ) (w : String) (t : ℕ)
      → Keeps (Since origin) (update k (retry_guard clock n m) (retried_row w t))
  unfolding retried_row
  update_retry-Since clock k n m w t =
      Since-update k _ _ (λ x h. retried_row-Progress clock n m w t x h)

  start_retry-Since :
      (clock : Clock) (k n : ℕ) (w : String) (t m : ℕ)
      → Keeps (Since origin) (start_retry clock k n w t m)
  unfolding start_retry
  start_retry-Since clock k n w t m =
      search (since_rules, update_retry-Since clock k n m w t, report_retry-Since)

  pub retry_missing_sandbox-Since :
      (clock : Clock) (k n : ℕ) (w : String) (d : Deadline) (m : ℕ)
      → Keeps (Since origin) (retry_missing_sandbox clock k n w d m)
  unfolding retry_missing_sandbox
  retry_missing_sandbox-Since clock k n w d m =
      search (since_rules, validate_lease_deadline-Since, start_retry-Since)

  report_running-Since :
      (k : ℕ) (ns job : String) (row : Option ExecutionRow)
      → Keeps (Since origin) (report_running k ns job row)
  unfolding report_running
  report_running-Since k ns job none = search since_rules
  report_running-Since k ns job (some r) = search since_rules

  update_running-Since :
      (clock : Clock) (k : ℕ) (w ns job : String)
      → Keeps (Since origin) (
          update k (λ r. is_dispatching r.state && owns_lease clock w r) (running_row clock ns job))
  unfolding running_row
  update_running-Since clock k w ns job =
      Since-update k _ _ (λ x h. running_row-Progress clock w ns job x h)

  pub mark_running-Since :
      (clock : Clock) (k : ℕ) (w ns job : String)
      → Keeps (Since origin) (mark_running clock k w ns job)
  unfolding mark_running
  mark_running-Since clock k w ns job =
      search (since_rules, update_running-Since clock k w ns job, report_running-Since)

  pub renew_lease-Since :
      (clock : Clock) (k : ℕ) (w : String) (d : Deadline)
      → Keeps (Since origin) (renew_lease clock k w d)
  unfolding renew_lease
  renew_lease-Since clock k w d = search (
    since_rules,
    validate_lease_deadline-Since,
    Since-update k (λ r. owns_lease clock w r && is_in_flight r.state)
        (λ r. record r { lease_expires_at = some (instant_of d) })
        (λ x h. renewed_row-Progress (some (instant_of d)) x),
  )

  pub lock_owned_attempt-Since :
      (clock : Clock) (k : ℕ) (w : String) (n : ℕ)
      → Keeps (Since origin) (lock_owned_attempt clock k w n)
  unfolding lock_owned_attempt
  lock_owned_attempt-Since clock k w n = search since_rules
