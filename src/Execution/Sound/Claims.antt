-- ===== src/Execution/Sound/Claims.antt =====
-- The row invariant under the claim repository (execution_claims.py).
use leetcode_platform.Prelude.{ℕ, String, ◌≡◌, ◌≤◌, true, Option, none, some, arith, ◌&&◌}
use leetcode_platform.Execution.Store.{Clock, ExecutionRow}
use leetcode_platform.Execution.Claims.{
  Deadline, naive, aware, is_queued, is_dispatching, claimed_row, report_claim,
  validate_lease_deadline, claim_for_dispatch, retry_guard, retried_row, report_retry, start_retry,
  retry_missing_sandbox, owns_lease, running_row, report_running, mark_running, renew_lease,
}
use leetcode_platform.Execution.Action.Keeps.{Keeps, Keeps-bind, Keeps-pure}
use leetcode_platform.Execution.Sound.{IsSound, SoundDb, Sound-update, sound_rules}

module _ (limit : ℕ) where
  claimed_row-IsSound :
      (clock : Clock) (w : String) (t : ℕ) (r : ExecutionRow)
      → is_queued r.state ≡ true
      → IsSound limit r
      → IsSound limit (claimed_row clock w t r)
  unfolding claimed_row
  claimed_row-IsSound clock w t r h s = ground arith

  retried_row-IsSound :
      (clock : Clock) (n m : ℕ) (w : String) (t : ℕ) (r : ExecutionRow)
      → m ≤ limit
      → retry_guard clock n m r ≡ true
      → IsSound limit r
      → IsSound limit (retried_row w t r)
  unfolding retried_row retry_guard
  retried_row-IsSound clock n m w t r below h s = ground arith

  running_row-IsSound :
      (clock : Clock) (w ns job : String) (r : ExecutionRow)
      → (is_dispatching r.state && owns_lease clock w r) ≡ true
      → IsSound limit r
      → IsSound limit (running_row clock ns job r)
  unfolding running_row
  running_row-IsSound clock w ns job r h s = ground arith

  renewed_row-IsSound :
      (t : Option ℕ) (r : ExecutionRow)
      → IsSound limit r
      → IsSound limit (record r { lease_expires_at = t })
  renewed_row-IsSound t r s = ground arith

  validate_lease_deadline-Sound :
      (clock : Clock) (d : Deadline) → Keeps (SoundDb limit) (validate_lease_deadline clock d)
  unfolding validate_lease_deadline
  validate_lease_deadline-Sound clock (naive t) = search sound_rules
  validate_lease_deadline-Sound clock (aware t) = search sound_rules

  report_claim-Sound :
      (k : ℕ) (w : String) (t : ℕ) (row : Option ExecutionRow)
      → Keeps (SoundDb limit) (report_claim k w t row)
  unfolding report_claim
  report_claim-Sound k w t none = search sound_rules
  report_claim-Sound k w t (some r) = search sound_rules

  pub claim_for_dispatch-Sound :
      (clock : Clock) (k : ℕ) (w : String) (d : Deadline)
      → Keeps (SoundDb limit) (claim_for_dispatch clock k w d)
  unfolding claim_for_dispatch
  claim_for_dispatch-Sound clock k w d = Keeps-bind _ _ (validate_lease_deadline-Sound clock d) λ _.
      Keeps-bind _ _ (Sound-update limit k _ _ (λ x h s. claimed_row-IsSound clock w _ x h s))
        λ row. report_claim-Sound k w _ row

  report_retry-Sound :
      (k : ℕ) (w : String) (t : ℕ) (row : Option ExecutionRow)
      → Keeps (SoundDb limit) (report_retry k w t row)
  unfolding report_retry
  report_retry-Sound k w t none = search sound_rules
  report_retry-Sound k w t (some r) = search sound_rules

  start_retry-Sound :
      (clock : Clock) (k n : ℕ) (w : String) (t m : ℕ)
      → m ≤ limit
      → Keeps (SoundDb limit) (start_retry clock k n w t m)
  unfolding start_retry
  start_retry-Sound clock k n w t m below =
      Keeps-bind _ _
        (Sound-update limit k _ _ (λ x h s. retried_row-IsSound clock n m w t x below h s))
        λ row. report_retry-Sound k w t row

  pub retry_missing_sandbox-Sound :
      (clock : Clock) (k n : ℕ) (w : String) (d : Deadline) (m : ℕ)
      → m ≤ limit
      → Keeps (SoundDb limit) (retry_missing_sandbox clock k n w d m)
  unfolding retry_missing_sandbox
  retry_missing_sandbox-Sound clock k n w d m below =
      search (sound_rules, validate_lease_deadline-Sound, start_retry-Sound)

  report_running-Sound :
      (k : ℕ) (ns job : String) (row : Option ExecutionRow)
      → Keeps (SoundDb limit) (report_running k ns job row)
  unfolding report_running
  report_running-Sound k ns job none = search sound_rules
  report_running-Sound k ns job (some r) = search sound_rules

  pub mark_running-Sound :
      (clock : Clock) (k : ℕ) (w ns job : String)
      → Keeps (SoundDb limit) (mark_running clock k w ns job)
  unfolding mark_running
  mark_running-Sound clock k w ns job =
      Keeps-bind _ _ (Sound-update limit k _ _ (λ x h s. running_row-IsSound clock w ns job x h s))
        λ row. report_running-Sound k ns job row

  pub renew_lease-Sound :
      (clock : Clock) (k : ℕ) (w : String) (d : Deadline)
      → Keeps (SoundDb limit) (renew_lease clock k w d)
  unfolding renew_lease
  renew_lease-Sound clock k w d = Keeps-bind _ _ (validate_lease_deadline-Sound clock d) λ _.
      Keeps-bind _ _ (Sound-update limit k _ _ (λ x h s. renewed_row-IsSound _ x s))
        λ _. Keeps-pure _
