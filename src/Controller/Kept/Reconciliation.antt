-- ===== src/Controller/Kept/Reconciliation.antt =====
-- apps/api/src/rigor_api/execution_controller.py: what the statements keep, `reconcile_once` keeps.
use leetcode_platform.Prelude.{ℕ, String, Bool, false, Option, none, some, List, [], ◌∷◌}
use leetcode_platform.Execution.Store.{Db, Clock, ExecutionRow}
use leetcode_platform.Execution.Action.Keeps.{keeps_rules}
use leetcode_platform.Execution.Action.Commits.{Commits, Commits-keeps}
use leetcode_platform.Execution.Claims.{ExpiredExecutionLease}
use leetcode_platform.Execution.Claims.Expired.{expired_leases}
use leetcode_platform.Execution.Package.{DispatchPackage}
use leetcode_platform.Controller.Statements.{requeue_stale_queued, forget_job}
use leetcode_platform.Controller.Transactions.{retry_package, reacquire_package, terminal_orphans}
use leetcode_platform.Controller.Flow.{Outside, SandboxHandle, SandboxObservation, transact}
use leetcode_platform.Controller.Flow.Keeps.{
  FlowKeeps, FlowKeeps-bind, FlowKeeps-return, FlowKeeps-catch, FlowKeeps-call, flow_rules,
}
use leetcode_platform.Controller.Kept.{Kept, retry_package-Commits, reacquire_package-Commits}
use leetcode_platform.Controller.Kept.Attempts.{
  transact-FlowKeeps, persist_infrastructure_failure-FlowKeeps, persist_observation-FlowKeeps,
  start_sandbox-FlowKeeps,
}
use leetcode_platform.Controller.Kept.Messages.{cleanup_if-FlowKeeps}
use leetcode_platform.Controller.Attempts.{ExecutionControllerSettings}
use leetcode_platform.Controller.Reconciliation.{
  renew_and_retry, retry_expired, reacquire_expired, fail_reacquired, replace_sandbox,
  repair_missing, judge_reacquired, adopt, repair_present, repair_seen, reconcile_lease,
  reconcile_each, cleanup_each, cleanup_terminal_orphans, reconcile_once,
}

module _ {out : Outside} {P : Db → Type 0} (settings : ExecutionControllerSettings)
    (kept : Kept out settings.max_attempts P) where
  retried-FlowKeeps :
      (lease : ExpiredExecutionLease) (until : ℕ)
      → FlowKeeps P (
          transact out
            (λ clock. retry_package clock lease settings.worker_id until settings.max_attempts))
  retried-FlowKeeps lease until =
      transact-FlowKeeps kept settings _
        (λ clock. retry_package-Commits kept clock lease settings.worker_id until)

  renew_and_retry-FlowKeeps :
      (lease : ExpiredExecutionLease) → FlowKeeps P (renew_and_retry out settings lease)
  unfolding renew_and_retry
  renew_and_retry-FlowKeeps lease = search (flow_rules, retried-FlowKeeps)

  retry_expired-FlowKeeps :
      (lease : ExpiredExecutionLease) → FlowKeeps P (retry_expired out settings lease)
  unfolding retry_expired
  retry_expired-FlowKeeps lease = search (flow_rules, renew_and_retry-FlowKeeps)

  reacquired-FlowKeeps :
      (lease : ExpiredExecutionLease) (missing : Bool) (until : ℕ) (namespace job : String)
      → FlowKeeps P (
          transact out
            (λ clock. reacquire_package clock lease missing settings.worker_id until namespace job))
  reacquired-FlowKeeps lease missing until namespace job =
      transact-FlowKeeps kept settings _ (λ clock.
        reacquire_package-Commits kept clock lease missing settings.worker_id until namespace job)

  reacquire_expired-FlowKeeps :
      (lease : ExpiredExecutionLease) (seen : SandboxObservation) (handle : SandboxHandle)
      → FlowKeeps P (reacquire_expired out settings lease seen handle)
  unfolding reacquire_expired
  reacquire_expired-FlowKeeps lease seen handle = search (flow_rules, reacquired-FlowKeeps)

  fail_reacquired-FlowKeeps :
      (handle : SandboxHandle) (o : Option DispatchPackage)
      → FlowKeeps P (fail_reacquired out settings handle o)
  unfolding fail_reacquired
  fail_reacquired-FlowKeeps handle none = FlowKeeps-return false
  fail_reacquired-FlowKeeps handle (some pkg) = search (
    flow_rules,
    persist_infrastructure_failure-FlowKeeps kept settings,
    cleanup_if-FlowKeeps kept settings,
  )

  replace_sandbox-FlowKeeps :
      (lease : ExpiredExecutionLease) (seen : SandboxObservation) (handle : SandboxHandle)
      (o : Option DispatchPackage)
      → FlowKeeps P (replace_sandbox out settings lease seen handle o)
  unfolding replace_sandbox
  replace_sandbox-FlowKeeps lease seen handle none =
      search (flow_rules, reacquire_expired-FlowKeeps, fail_reacquired-FlowKeeps)
  replace_sandbox-FlowKeeps lease seen handle (some pkg) =
      search (flow_rules, start_sandbox-FlowKeeps kept settings)

  judge_reacquired-FlowKeeps :
      (seen : SandboxObservation) (handle : SandboxHandle) (pkg : DispatchPackage)
      → FlowKeeps P (judge_reacquired out settings seen handle pkg)
  unfolding judge_reacquired
  judge_reacquired-FlowKeeps seen handle pkg =
      search (
        flow_rules,
        persist_observation-FlowKeeps kept settings,
        cleanup_if-FlowKeeps kept settings,
      )

  adopt-FlowKeeps :
      (seen : SandboxObservation) (handle : SandboxHandle) (o : Option DispatchPackage)
      → FlowKeeps P (adopt out settings seen handle o)
  unfolding adopt
  adopt-FlowKeeps seen handle none = FlowKeeps-return false
  adopt-FlowKeeps seen handle (some pkg) = search (flow_rules, judge_reacquired-FlowKeeps)

  repair_seen-FlowKeeps :
      (lease : ExpiredExecutionLease) (handle : SandboxHandle) (seen : SandboxObservation)
      → FlowKeeps P (repair_seen out settings lease handle seen)
  unfolding repair_seen repair_missing repair_present
  repair_seen-FlowKeeps lease handle seen = search (
    flow_rules, retry_expired-FlowKeeps, replace_sandbox-FlowKeeps, reacquire_expired-FlowKeeps,
    adopt-FlowKeeps,
  )

  reconcile_lease-FlowKeeps :
      (lease : ExpiredExecutionLease) → FlowKeeps P (reconcile_lease out settings lease)
  unfolding reconcile_lease
  reconcile_lease-FlowKeeps lease = search (flow_rules, repair_seen-FlowKeeps)

  reconcile_each-FlowKeeps :
      (leases : List ExpiredExecutionLease) → FlowKeeps P (reconcile_each out settings leases)
  unfolding reconcile_each
  reconcile_each-FlowKeeps [] = FlowKeeps-return 0
  reconcile_each-FlowKeeps (lease ∷ leases) =
      FlowKeeps-bind _ _
        (FlowKeeps-catch _ _ _ (reconcile_lease-FlowKeeps lease) (FlowKeeps-return false))
        (λ repaired.
          FlowKeeps-bind _ _ (reconcile_each-FlowKeeps leases) (λ rest. FlowKeeps-return _))

  forgotten-FlowKeeps : (k : ℕ) → FlowKeeps P (transact out (λ clock. forget_job k))
  forgotten-FlowKeeps k = transact-FlowKeeps kept settings _ (λ clock. kept.forget k)

  cleanup_each-FlowKeeps : (rows : List ExecutionRow) → FlowKeeps P (cleanup_each out settings rows)
  unfolding cleanup_each
  cleanup_each-FlowKeeps [] = FlowKeeps-return 0
  cleanup_each-FlowKeeps (r ∷ rows) = FlowKeeps-bind _ _ (FlowKeeps-call out _) (λ _.
      FlowKeeps-bind _ _ (forgotten-FlowKeeps r.id)
        (λ updated. FlowKeeps-bind _ _ (cleanup_each-FlowKeeps rows) (λ rest. FlowKeeps-return _)))

  orphans-Commits : (limit : ℕ) → Commits P (terminal_orphans limit)
  unfolding terminal_orphans
  orphans-Commits limit = Commits-keeps _ (search keeps_rules)

  leases-Commits :
      (clock : Clock) (locked : ℕ → Bool) (limit : ℕ)
      → Commits P (expired_leases clock locked limit)
  unfolding expired_leases
  leases-Commits clock locked limit = Commits-keeps _ (search keeps_rules)

  orphans-FlowKeeps :
      FlowKeeps P (transact out (λ clock. terminal_orphans settings.reconciliation_limit))
  orphans-FlowKeeps = transact-FlowKeeps kept settings _ (λ clock. orphans-Commits _)

  leases-FlowKeeps : FlowKeeps P (
      transact out (λ clock.
        expired_leases clock (out.locked clock.current_timestamp) settings.reconciliation_limit))
  leases-FlowKeeps = transact-FlowKeeps kept settings _ (λ clock. leases-Commits clock _ _)

  requeued-FlowKeeps :
      FlowKeeps P (transact out (λ clock. requeue_stale_queued clock settings.stale_queued_seconds))
  requeued-FlowKeeps = transact-FlowKeeps kept settings _ (λ clock. kept.requeue clock _)

  cleaned-FlowKeeps : FlowKeeps P (cleanup_terminal_orphans out settings)
  unfolding cleanup_terminal_orphans
  cleaned-FlowKeeps = FlowKeeps-bind _ _ orphans-FlowKeeps (λ rows. cleanup_each-FlowKeeps rows)

  pub reconcile_once-FlowKeeps : FlowKeeps P (reconcile_once out settings)
  unfolding reconcile_once
  reconcile_once-FlowKeeps = FlowKeeps-bind _ _ requeued-FlowKeeps (λ requeued.
      FlowKeeps-bind _ _ leases-FlowKeeps (λ leases.
        FlowKeeps-bind _ _ (reconcile_each-FlowKeeps leases)
          (λ repaired. FlowKeeps-bind _ _ cleaned-FlowKeeps (λ cleaned. FlowKeeps-return _))))
