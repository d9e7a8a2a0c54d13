-- ===== src/Controller/Transactions.antt =====
-- apps/api/src/rigor_api/execution_controller.py: the transactions of the controller that send more
-- than one statement, each the body of a `with self.engine.begin()`.
use leetcode_platform.Prelude.{
  ℕ, String, Bool, true, false, Option, none, some, List, ◌==◌, ◌&&◌, ◌||◌, not, is_some, leb, ltb,
  select_rows, str_eq, if◌then◌else◌,
}
use leetcode_platform.Execution.Status.{ExecutionStatus, is_terminal, value, runtime_error}
use leetcode_platform.Execution.Store.{Clock, ExecutionRow}
use leetcode_platform.Execution.Repository.{get_execution, ExecutionSnapshot, is_dispatching}
use leetcode_platform.Execution.Action.{
  Action, Result, ok, err, pure, raise_if, lift, gets, ◌>>=◌, ◌>>◌, attempt,
}
use leetcode_platform.Execution.Claims.{
  ExecutionClaim, ExpiredExecutionLease, aware, claim_for_dispatch, retry_missing_sandbox,
  mark_running, lock_owned_attempt,
}
use leetcode_platform.Execution.Persist.{TrustedExecutionProjection, persist_terminal_result}
use leetcode_platform.Execution.Compare.{SandboxExecutionResult, trusted_compare}
use leetcode_platform.Execution.Expected.{load_expected_tests}
use leetcode_platform.Execution.Package.{DispatchPackage, load_dispatch_package}
use leetcode_platform.Practice.Finalize.{finalize_submission}
use leetcode_platform.Controller.Statements.{reacquire, is_state_terminal}
use leetcode_platform.Controller.Flow.{Outside}

abbrev pub status_read : Result ExecutionSnapshot → Option ExecutionStatus
status_read (ok s) = some s.status
status_read (err e) = none

-- `_execution_status`
unfoldable pub execution_status : ℕ → Action (Option ExecutionStatus)
execution_status k = do s ← attempt (get_execution k); pure (status_read s)

abbrev pub is_terminal_read : Option ExecutionStatus → Bool
is_terminal_read none = false
is_terminal_read (some s) = is_terminal s

-- `_terminal_or_lost`
unfoldable pub terminal_or_lost : ℕ → Action Bool
terminal_or_lost k = do s ← execution_status k; pure (is_terminal_read s)

-- What the first transaction of `_process_requested` finds.
pub data Requested : Type 0 where
  not_claimed : Bool → Requested
  claimed : DispatchPackage → Requested

unfoldable pub requested_package : ℕ → Option ExecutionClaim → Action Requested
requested_package k none = do s ← execution_status k; pure (not_claimed (is_some s))
requested_package k (some c) = do pkg ← lift (← gets (load_dispatch_package k)); pure (claimed pkg)

unfoldable pub claim_package : Clock → ℕ → String → ℕ → Action Requested
claim_package clock k worker_id until = do
  claim ← claim_for_dispatch clock k worker_id (aware until)
  requested_package k claim

-- `terminal == projection.execution_status`
abbrev pub same_status : ExecutionStatus → ExecutionStatus → Bool
same_status s t = str_eq (value s) (value t)

-- What the transaction of `_retry_expired_missing_sandbox` does with the answer to the retry.
unfoldable pub retried_package : ℕ → Option ℕ → Action (Option DispatchPackage)
retried_package k none = pure none
retried_package k (some n) = do
  pkg ← lift (← gets (load_dispatch_package k))
  raise_if (not (pkg.attempt_count == n)) runtime_error
  pure (some pkg)

unfoldable pub retry_package :
    Clock → ExpiredExecutionLease → String → ℕ → ℕ → Action (Option DispatchPackage)
retry_package clock lease worker_id until max_attempts = do
  n ←
      retry_missing_sandbox clock lease.execution_id lease.attempt_count worker_id (aware until)
        max_attempts
  retried_package lease.execution_id n

-- The transaction of `_reacquire_expired_execution`.
unfoldable pub start_reacquired :
    Clock → ℕ → String → String → String → Bool → DispatchPackage → Action (Option DispatchPackage)
start_reacquired clock k worker_id namespace job_name false pkg = pure (some pkg)
start_reacquired clock k worker_id namespace job_name true pkg = do
  marked_running ← mark_running clock k worker_id namespace job_name
  pure (if marked_running then some pkg else none)

unfoldable pub reacquired_package :
    Clock → ℕ → String → String → String → Bool → Bool → Action (Option DispatchPackage)
reacquired_package clock k worker_id namespace job_name starts false = pure none
reacquired_package clock k worker_id namespace job_name starts true = do
  pkg ← lift (← gets (load_dispatch_package k))
  start_reacquired clock k worker_id namespace job_name starts pkg

unfoldable pub reacquire_package :
    Clock
    → ExpiredExecutionLease
    → Bool
    → String
    → ℕ
    → String
    → String
    → Action (Option DispatchPackage)
reacquire_package clock lease missing worker_id until namespace job_name = do
  got ← reacquire clock lease.execution_id lease.status lease.attempt_count worker_id until
  reacquired_package clock lease.execution_id worker_id namespace job_name
      (is_dispatching lease.status && not missing) got

-- The rows of `_cleanup_terminal_orphans`, `ORDER BY completed_at NULLS LAST, id`.
abbrev pub is_orphan : ExecutionRow → Bool
is_orphan r = is_state_terminal r.state && is_some r.kubernetes_job_name

abbrev pub nulls_last : Option ℕ → Option ℕ → Bool → Bool
nulls_last none none tie = tie
nulls_last none (some t) tie = false
nulls_last (some s) none tie = true
nulls_last (some s) (some t) tie = ltb s t || (s == t && tie)

abbrev pub first_completed : ExecutionRow → ExecutionRow → Bool
first_completed r s = nulls_last r.completed_at s.completed_at (leb r.id s.id)

unfoldable pub terminal_orphans : ℕ → Action (List ExecutionRow)
terminal_orphans limit = gets (λ db. select_rows first_completed is_orphan limit db.requests)

module _ (out : Outside) (worker_id : String) (clock : Clock) (pkg : DispatchPackage) where
  abbrev pub finalize_if : Bool → TrustedExecutionProjection → Action (Unit {0})
  finalize_if b p = if b then finalize_submission out.evaluator clock pkg p else pure tt

  -- The part of the transactions of `_persist_projection` and `_persist_observation` that they share.
  unfoldable pub store_outcome : TrustedExecutionProjection → Action Bool
  store_outcome p = do
    terminal ← persist_terminal_result clock pkg.execution_id p
    finalize_if (same_status terminal p.execution_status) p
    pure true

  unfoldable pub store_owned : Bool → TrustedExecutionProjection → Action Bool
  store_owned false p = terminal_or_lost pkg.execution_id
  store_owned true p = store_outcome p

  -- `_persist_projection`
  unfoldable pub persist_owned : TrustedExecutionProjection → Action Bool
  persist_owned p = do
    owns ← lock_owned_attempt clock pkg.execution_id worker_id pkg.attempt_count
    store_owned owns p

  unfoldable pub judge_owned : Bool → SandboxExecutionResult → Action Bool
  judge_owned false s = terminal_or_lost pkg.execution_id
  judge_owned true s = do
    expected ← lift (load_expected_tests out.py (out.content pkg.question_version_id))
    p ← lift (trusted_compare out.py s expected)
    store_outcome p

  -- The transaction of `_persist_observation`.
  unfoldable pub persist_judged : SandboxExecutionResult → Action Bool
  persist_judged s = do
    owns ← lock_owned_attempt clock pkg.execution_id worker_id pkg.attempt_count
    judge_owned owns s
