-- ===== src/Controller/Finished/Flows.antt =====
-- apps/api/src/rigor_api/execution_controller.py: no message and no reconciliation keeps the
-- controller for ever.
use leetcode_platform.Prelude.{ℕ, ◌≤◌, Bool, true, false, Option, none, some, List, [], ◌∷◌}
use leetcode_platform.Execution.Store.{ExecutionRow}
use leetcode_platform.Execution.Claims.{ExpiredExecutionLease}
use leetcode_platform.Execution.Package.{DispatchPackage}
use leetcode_platform.DeadLetters.{
  Message, ExecutionQueueEvent, ExecutionRequestedEvent, ExecutionCancelRequestedEvent, requested,
  cancel_requested,
}
use leetcode_platform.Controller.Transactions.{Requested, not_claimed, claimed}
use leetcode_platform.Controller.Flow.{Outside, SandboxHandle, SandboxObservation}
use leetcode_platform.Controller.Flow.Ends.{
  Ends, Ends-bind, Ends-return, Ends-call, Ends-transact, Ends-catch, ends_rules,
}
use leetcode_platform.Controller.Finished.{
  failure-Ends, observation-Ends, start_sandbox-Ends, monitor-Ends,
}
use leetcode_platform.Controller.Attempts.{ExecutionControllerSettings}
use leetcode_platform.Controller.Messages.{
  release_found, process_cancel, cleanup_if, monitor_started, run_package, dispatch,
  process_requested, acknowledge, process_event, process_message,
}
use leetcode_platform.Controller.Reconciliation.{
  renew_and_retry, retry_expired, reacquire_expired, fail_reacquired, replace_sandbox,
  repair_missing, judge_reacquired, adopt, repair_present, repair_seen, reconcile_lease,
  reconcile_each, cleanup_each, cleanup_terminal_orphans, reconcile_once,
}

module _ (out : Outside) (settings : ExecutionControllerSettings) where
  cleanup_if-Ends : (b : Bool) (handle : SandboxHandle) → Ends (cleanup_if out settings b handle)
  cleanup_if-Ends true handle = search ends_rules
  cleanup_if-Ends false handle = Ends-return false

  acknowledge-Ends : (message : Message) (b : Bool) → Ends (acknowledge out settings message b)
  unfolding acknowledge
  acknowledge-Ends message true = search ends_rules
  acknowledge-Ends message false = Ends-return false

  release_found-Ends : (k : ℕ) (o : Option ExecutionRow) → Ends (release_found out k o)
  unfolding release_found
  release_found-Ends k none = Ends-return tt
  release_found-Ends k (some r) = search ends_rules

  process_cancel-Ends : (event : ExecutionCancelRequestedEvent) → Ends (process_cancel out event)
  unfolding process_cancel
  process_cancel-Ends event = search (ends_rules, release_found-Ends)

  module _ (poll : 1 ≤ settings.sandbox_poll_ms) where
    monitor_started-Ends :
        (pkg : DispatchPackage) (message : Message) (o : Option SandboxHandle)
        → Ends (monitor_started out settings pkg message o)
    unfolding monitor_started
    monitor_started-Ends pkg message none = Ends-return true
    monitor_started-Ends pkg message (some handle) =
        Ends-bind _ _ (monitor-Ends out settings pkg handle message poll)
          (λ terminal. cleanup_if-Ends terminal handle)

    run_package-Ends :
        (pkg : DispatchPackage) (message : Message) → Ends (run_package out settings pkg message)
    unfolding run_package
    run_package-Ends pkg message =
        Ends-bind _ _ (start_sandbox-Ends out settings pkg)
          (λ handle. monitor_started-Ends pkg message handle)

    dispatch-Ends :
        (message : Message) (found : Requested) → Ends (dispatch out settings message found)
    unfolding dispatch
    dispatch-Ends message (not_claimed known) = Ends-return known
    dispatch-Ends message (claimed pkg) =
        search (ends_rules, failure-Ends out settings, run_package-Ends)

    process_requested-Ends :
        (event : ExecutionRequestedEvent) (message : Message)
        → Ends (process_requested out settings event message)
    unfolding process_requested
    process_requested-Ends event message = search (ends_rules, dispatch-Ends)

    process_event-Ends :
        (message : Message) (o : Option ExecutionQueueEvent)
        → Ends (process_event out settings message o)
    process_event-Ends message none = Ends-return false
    process_event-Ends message (some (cancel_requested event)) =
        search (ends_rules, process_cancel-Ends, acknowledge-Ends)
    process_event-Ends message (some (requested event)) =
        search (ends_rules, process_requested-Ends, acknowledge-Ends)

    pub process_message-Ends : (message : Message) → Ends (process_message out settings message)
    unfolding process_message
    process_message-Ends message = process_event-Ends message (out.decode message.body)

  renew_and_retry-Ends : (lease : ExpiredExecutionLease) → Ends (renew_and_retry out settings lease)
  unfolding renew_and_retry
  renew_and_retry-Ends lease = search ends_rules

  retry_expired-Ends : (lease : ExpiredExecutionLease) → Ends (retry_expired out settings lease)
  unfolding retry_expired
  retry_expired-Ends lease = search (ends_rules, renew_and_retry-Ends)

  reacquire_expired-Ends :
      (lease : ExpiredExecutionLease) (seen : SandboxObservation) (handle : SandboxHandle)
      → Ends (reacquire_expired out settings lease seen handle)
  unfolding reacquire_expired
  reacquire_expired-Ends lease seen handle = search ends_rules

  fail_reacquired-Ends :
      (handle : SandboxHandle) (o : Option DispatchPackage)
      → Ends (fail_reacquired out settings handle o)
  unfolding fail_reacquired
  fail_reacquired-Ends handle none = Ends-return false
  fail_reacquired-Ends handle (some pkg) =
      search (ends_rules, failure-Ends out settings, cleanup_if-Ends)

  replace_sandbox-Ends :
      (lease : ExpiredExecutionLease) (seen : SandboxObservation) (handle : SandboxHandle)
      (o : Option DispatchPackage)
      → Ends (replace_sandbox out settings lease seen handle o)
  unfolding replace_sandbox
  replace_sandbox-Ends lease seen handle none =
      search (ends_rules, reacquire_expired-Ends, fail_reacquired-Ends)
  replace_sandbox-Ends lease seen handle (some pkg) =
      search (ends_rules, start_sandbox-Ends out settings)

  judge_reacquired-Ends :
      (seen : SandboxObservation) (handle : SandboxHandle) (pkg : DispatchPackage)
      → Ends (judge_reacquired out settings seen handle pkg)
  unfolding judge_reacquired
  judge_reacquired-Ends seen handle pkg =
      search (ends_rules, observation-Ends out settings, cleanup_if-Ends)

  adopt-Ends :
      (seen : SandboxObservation) (handle : SandboxHandle) (o : Option DispatchPackage)
      → Ends (adopt out settings seen handle o)
  unfolding adopt
  adopt-Ends seen handle none = Ends-return false
  adopt-Ends seen handle (some pkg) = search (ends_rules, judge_reacquired-Ends)

  repair_seen-Ends :
      (lease : ExpiredExecutionLease) (handle : SandboxHandle) (seen : SandboxObservation)
      → Ends (repair_seen out settings lease handle seen)
  unfolding repair_seen repair_missing repair_present
  repair_seen-Ends lease handle seen =
      search
        (ends_rules, retry_expired-Ends, replace_sandbox-Ends, reacquire_expired-Ends, adopt-Ends)

  reconcile_lease-Ends : (lease : ExpiredExecutionLease) → Ends (reconcile_lease out settings lease)
  unfolding reconcile_lease
  reconcile_lease-Ends lease = search (ends_rules, repair_seen-Ends)

  reconcile_each-Ends :
      (leases : List ExpiredExecutionLease) → Ends (reconcile_each out settings leases)
  unfolding reconcile_each
  reconcile_each-Ends [] = Ends-return 0
  reconcile_each-Ends (lease ∷ leases) =
      Ends-bind _ _ (Ends-catch _ _ _ (reconcile_lease-Ends lease) (Ends-return false))
        (λ _. Ends-bind _ _ (reconcile_each-Ends leases) (λ _. Ends-return _))

  cleanup_each-Ends : (rows : List ExecutionRow) → Ends (cleanup_each out settings rows)
  unfolding cleanup_each
  cleanup_each-Ends [] = Ends-return 0
  cleanup_each-Ends (r ∷ rows) = Ends-bind _ _ (Ends-call out _) (λ _.
      Ends-bind _ _ (Ends-transact out _)
        (λ _. Ends-bind _ _ (cleanup_each-Ends rows) (λ _. Ends-return _)))

  cleaned-Ends : Ends (cleanup_terminal_orphans out settings)
  unfolding cleanup_terminal_orphans
  cleaned-Ends = Ends-bind _ _ (Ends-transact out _) (λ rows. cleanup_each-Ends rows)

  pub reconcile_once-Ends : Ends (reconcile_once out settings)
  unfolding reconcile_once
  reconcile_once-Ends = Ends-bind _ _ (Ends-transact out _) (λ _.
      Ends-bind _ _ (Ends-transact out _) (λ leases.
        Ends-bind _ _ (reconcile_each-Ends leases)
          (λ _. Ends-bind _ _ cleaned-Ends (λ _. Ends-return _))))
