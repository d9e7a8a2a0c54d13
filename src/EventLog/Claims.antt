-- ===== src/EventLog/Claims.antt =====
-- The log under the claim repository (execution_claims.py).
use leetcode_platform.Prelude.{ℕ, String, ◌≡◌, refl, true, arith, ◌&&◌}
use leetcode_platform.Execution.Status.{ExecutionState}
use leetcode_platform.Execution.Store.{Clock, ExecutionRow}
use leetcode_platform.Execution.Claims.{
  Deadline, naive, aware, instant_of, is_queued, is_dispatching, claimed_row, report_claim,
  validate_lease_deadline, claim_for_dispatch, retry_guard, retried_row, report_retry, start_retry,
  retry_missing_sandbox, owns_lease, running_row, report_running, mark_running, renew_lease,
}
use leetcode_platform.Execution.Action.{◌>>=◌}
use leetcode_platform.Execution.Action.Keeps.{Keeps, keeps_rules, Keeps-bind, Keeps-pure}
use leetcode_platform.EventLog.{IsLogged, may_follow}
use leetcode_platform.EventLog.Tables.{IsLogged-advanced, IsLogged-update, IsLogged-update_report}

validate_lease_deadline-IsLogged :
    (clock : Clock) (d : Deadline) → Keeps IsLogged (validate_lease_deadline clock d)
unfolding validate_lease_deadline
validate_lease_deadline-IsLogged clock (naive t) = search keeps_rules
validate_lease_deadline-IsLogged clock (aware t) = search keeps_rules

claim_move :
    (r : ExecutionRow)
    → is_queued r.state ≡ true
    → may_follow r.state ExecutionState.dispatching ≡ true
unfolding may_follow
claim_move r h = ground arith

pub claim_for_dispatch-IsLogged :
    (clock : Clock) (k : ℕ) (w : String) (d : Deadline)
    → Keeps IsLogged (claim_for_dispatch clock k w d)
unfolding claim_for_dispatch report_claim claimed_row ◌>>=◌
claim_for_dispatch-IsLogged clock k w d =
    Keeps-bind _ _ (validate_lease_deadline-IsLogged clock d) λ _.
      IsLogged-update_report k _ _ (report_claim k w (instant_of d)) (λ db. refl)
        (λ db r h found hit.
          IsLogged-advanced k _ ExecutionState.dispatching _ (λ x. refl) db r h found
            (claim_move r hit) refl)

retry_move :
    (clock : Clock) (n m : ℕ) (r : ExecutionRow)
    → retry_guard clock n m r ≡ true
    → may_follow r.state ExecutionState.dispatching ≡ true
unfolding may_follow retry_guard
retry_move clock n m r h = ground arith

start_retry-IsLogged :
    (clock : Clock) (k n : ℕ) (w : String) (t m : ℕ) → Keeps IsLogged (start_retry clock k n w t m)
unfolding start_retry report_retry retried_row ◌>>=◌
start_retry-IsLogged clock k n w t m =
    IsLogged-update_report k _ _ (report_retry k w t) (λ db. refl)
      (λ db r h found hit.
        IsLogged-advanced k _ ExecutionState.dispatching _ (λ x. refl) db r h found
          (retry_move clock n m r hit) refl)

pub retry_missing_sandbox-IsLogged :
    (clock : Clock) (k n : ℕ) (w : String) (d : Deadline) (m : ℕ)
    → Keeps IsLogged (retry_missing_sandbox clock k n w d m)
unfolding retry_missing_sandbox
retry_missing_sandbox-IsLogged clock k n w d m =
    search (keeps_rules, validate_lease_deadline-IsLogged, start_retry-IsLogged)

running_move :
    (clock : Clock) (w : String) (r : ExecutionRow)
    → (is_dispatching r.state && owns_lease clock w r) ≡ true
    → may_follow r.state ExecutionState.running ≡ true
unfolding may_follow
running_move clock w r h = ground arith

pub mark_running-IsLogged :
    (clock : Clock) (k : ℕ) (w ns job : String) → Keeps IsLogged (mark_running clock k w ns job)
unfolding mark_running report_running running_row ◌>>=◌
mark_running-IsLogged clock k w ns job =
    IsLogged-update_report k _ _ (report_running k ns job) (λ db. refl)
      (λ db r h found hit.
        IsLogged-advanced k _ ExecutionState.running _ (λ x. refl) db r h found
          (running_move clock w r hit) refl)

pub renew_lease-IsLogged :
    (clock : Clock) (k : ℕ) (w : String) (d : Deadline) → Keeps IsLogged (renew_lease clock k w d)
unfolding renew_lease
renew_lease-IsLogged clock k w d =
    Keeps-bind _ _ (validate_lease_deadline-IsLogged clock d)
      λ _. Keeps-bind _ _ (IsLogged-update k _ _ (λ x. refl) (λ x. refl)) λ _. Keeps-pure _
