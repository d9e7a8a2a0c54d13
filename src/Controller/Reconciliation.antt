-- ===== src/Controller/Reconciliation.antt =====
-- apps/api/src/rigor_api/execution_controller.py: `reconcile_once`, which repairs what crashed
-- workers and lost sandboxes left.
use leetcode_platform.Prelude.{
  ℕ, Bool, true, false, Option, none, some, List, [], ◌∷◌, ◌+◌, leb, str_eq, coalesce,
  if◌then◌else◌,
}
use leetcode_platform.Execution.Store.{ExecutionRow}
use leetcode_platform.Execution.Claims.{ExpiredExecutionLease}
use leetcode_platform.Execution.Claims.Expired.{expired_leases}
use leetcode_platform.Execution.Package.{DispatchPackage}
use leetcode_platform.DeadLetters.{one_if}
use leetcode_platform.Controller.Statements.{requeue_stale_queued, forget_job}
use leetcode_platform.Controller.Transactions.{retry_package, reacquire_package, terminal_orphans}
use leetcode_platform.Controller.Flow.{
  Outside, SandboxHandle, SandboxObservation, cleanup, Flow, return, catch_any, ◌>>=◌, ◌>>◌,
  transact, call, observe_sandbox, utc_now,
}
use leetcode_platform.Controller.Attempts.{
  ExecutionControllerSettings, start_sandbox, persist_observation, persist_infrastructure_failure,
}
use leetcode_platform.Controller.Monitor.{is_over}
use leetcode_platform.Controller.Messages.{handle_named, handle_of, cleanup_if}

abbrev pub is_missing : SandboxObservation → Bool
is_missing seen = str_eq seen.state "MISSING"

abbrev pub no_package : Flow (Option DispatchPackage)
no_package = return none

abbrev pub is_handle : Option SandboxHandle → Bool
is_handle none = false
is_handle (some h) = true

module _ (out : Outside) (settings : ExecutionControllerSettings) where
  -- `_retry_expired_missing_sandbox`
  unfoldable pub renew_and_retry : ExpiredExecutionLease → Flow (Option DispatchPackage)
  renew_and_retry lease = do
    now ← utc_now out
    transact out (λ clock.
        retry_package clock lease settings.worker_id (now + settings.lease_seconds)
          settings.max_attempts)

  unfoldable pub retry_expired : ExpiredExecutionLease → Flow (Option DispatchPackage)
  retry_expired lease =
      if leb settings.max_attempts lease.attempt_count then no_package else renew_and_retry lease

  -- `_reacquire_expired_execution`
  unfoldable pub reacquire_expired :
      ExpiredExecutionLease → SandboxObservation → SandboxHandle → Flow (Option DispatchPackage)
  reacquire_expired lease seen handle = do
    now ← utc_now out
    transact out (λ clock.
        reacquire_package clock lease (is_missing seen) settings.worker_id
          (now + settings.lease_seconds) handle.namespace handle.job_name)

  unfoldable pub fail_reacquired : SandboxHandle → Option DispatchPackage → Flow Bool
  fail_reacquired handle none = return false
  fail_reacquired handle (some pkg) = do
    terminal ←
        persist_infrastructure_failure out settings pkg "execution_attempt_limit"
          "Execution failed after repeated infrastructure errors."
    cleanup_if out settings terminal handle

  -- Where the sandbox is missing: the retry, or else the failure.
  unfoldable pub replace_sandbox :
      ExpiredExecutionLease
      → SandboxObservation
      → SandboxHandle
      → Option DispatchPackage
      → Flow Bool
  replace_sandbox lease seen handle none = do
    pkg ← reacquire_expired lease seen handle
    fail_reacquired handle pkg
  replace_sandbox lease seen handle (some pkg) = do
    started ← start_sandbox out settings pkg
    return (is_handle started)

  unfoldable pub repair_missing :
      ExpiredExecutionLease → SandboxObservation → SandboxHandle → Flow Bool
  repair_missing lease seen handle = do
    retried ← retry_expired lease
    replace_sandbox lease seen handle retried

  unfoldable pub judge_reacquired : SandboxObservation → SandboxHandle → DispatchPackage → Flow Bool
  judge_reacquired seen handle pkg = do
    terminal ← persist_observation out settings pkg seen handle
    cleanup_if out settings terminal handle

  unfoldable pub adopt : SandboxObservation → SandboxHandle → Option DispatchPackage → Flow Bool
  adopt seen handle none = return false
  adopt seen handle (some pkg) =
      if is_over seen.state then judge_reacquired seen handle pkg else return true

  unfoldable pub repair_present :
      ExpiredExecutionLease → SandboxObservation → SandboxHandle → Flow Bool
  repair_present lease seen handle = do
    pkg ← reacquire_expired lease seen handle
    adopt seen handle pkg

  unfoldable pub repair_seen :
      ExpiredExecutionLease → SandboxHandle → SandboxObservation → Flow Bool
  repair_seen lease handle seen =
      if is_missing seen then repair_missing lease seen handle else repair_present lease seen handle

  -- `_reconcile_lease`
  unfoldable pub reconcile_lease : ExpiredExecutionLease → Flow Bool
  reconcile_lease lease = do
    let handle =
        handle_of out lease.execution_id lease.kubernetes_namespace lease.kubernetes_job_name
    seen ← observe_sandbox out handle
    repair_seen lease handle seen

  -- The loop, where an exception ends the repair of one lease alone.
  unfoldable pub reconcile_each : List ExpiredExecutionLease → Flow ℕ
  reconcile_each [] = return 0
  reconcile_each (lease ∷ leases) = do
    repaired ← catch_any (reconcile_lease lease) (return false)
    rest ← reconcile_each leases
    return (one_if repaired + rest)

  unfoldable pub cleanup_each : List ExecutionRow → Flow ℕ
  cleanup_each [] = return 0
  cleanup_each (r ∷ rows) = do
    call out
        (cleanup (handle_named out r.id r.kubernetes_namespace (coalesce r.kubernetes_job_name "")))
    updated ← transact out (λ clock. forget_job r.id)
    rest ← cleanup_each rows
    return (one_if updated + rest)

  -- `_cleanup_terminal_orphans`
  unfoldable pub cleanup_terminal_orphans : Flow ℕ
  cleanup_terminal_orphans = do
    rows ← transact out (λ clock. terminal_orphans settings.reconciliation_limit)
    cleanup_each rows

  unfoldable pub reconcile_once : Flow ℕ
  reconcile_once = do
    requeued ← transact out (λ clock. requeue_stale_queued clock settings.stale_queued_seconds)
    leases ← transact out (λ clock.
        expired_leases clock (out.locked clock.current_timestamp) settings.reconciliation_limit)
    repaired ← reconcile_each leases
    cleaned ← cleanup_terminal_orphans
    return (requeued + (repaired + cleaned))
