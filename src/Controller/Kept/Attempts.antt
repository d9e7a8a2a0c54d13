-- ===== src/Controller/Kept/Attempts.antt =====
-- apps/api/src/rigor_api/execution_controller.py: what the statements keep, the start and the end of
-- an attempt keep.
use leetcode_platform.Prelude.{ℕ, String, ◌≡◌, refl, Bool, true, false, some}
use leetcode_platform.Json.{Fields}
use leetcode_platform.Execution.Status.{is_terminal}
use leetcode_platform.Execution.Store.{Db, Clock}
use leetcode_platform.Execution.Action.{Action}
use leetcode_platform.Execution.Action.Commits.{Commits}
use leetcode_platform.Execution.Claims.{mark_running}
use leetcode_platform.Execution.Persist.{TrustedExecutionProjection}
use leetcode_platform.Execution.Compare.{SandboxExecutionResult}
use leetcode_platform.Execution.Package.{DispatchPackage}
use leetcode_platform.Controller.Flow.{Outside, SandboxHandle, SandboxObservation, transact}
use leetcode_platform.Controller.Flow.Keeps.{
  FlowKeeps, FlowKeeps-transact, FlowKeeps-bind, FlowKeeps-return, FlowKeeps-call,
  FlowKeeps-utc_now, flow_rules,
}
use leetcode_platform.Controller.Transactions.{persist_judged}
use leetcode_platform.Controller.Kept.{Kept, persist_owned-Commits, persist_judged-Commits}
use leetcode_platform.Controller.Attempts.{
  ExecutionControllerSettings, renew_execution_lease, persist_projection, persist_timeout,
  persist_infrastructure_failure, expire_attempt, defer_infrastructure_retry, persist_report,
  judge_logs, persist_observation, create_handle, keep_handle, start_sandbox,
}

module _ {out : Outside} {attempts : ℕ} {P : Db → Type 0} (kept : Kept out attempts P)
    (settings : ExecutionControllerSettings) where
  pub transact-FlowKeeps :
      {A : Type 0} (body : Clock → Action A)
      → ((clock : Clock) → Commits P (body clock))
      → FlowKeeps P (transact out body)
  transact-FlowKeeps body kb = FlowKeeps-transact out kept.others body kb

  pub renew-FlowKeeps : (k : ℕ) → FlowKeeps P (renew_execution_lease out settings k)
  unfolding renew_execution_lease
  renew-FlowKeeps k =
      FlowKeeps-bind _ _ (FlowKeeps-utc_now out)
        (λ now. transact-FlowKeeps _ (λ clock. kept.renew clock k settings.worker_id _))

  module _ (pkg : DispatchPackage) where
    persist_projection-FlowKeeps :
        (p : TrustedExecutionProjection)
        → is_terminal p.execution_status ≡ true
        → FlowKeeps P (persist_projection out settings pkg p)
    unfolding persist_projection
    persist_projection-FlowKeeps p ends =
        transact-FlowKeeps _
          (λ clock. persist_owned-Commits kept settings.worker_id clock pkg p ends)

    pub persist_timeout-FlowKeeps : FlowKeeps P (persist_timeout out settings pkg)
    unfolding persist_timeout
    persist_timeout-FlowKeeps = persist_projection-FlowKeeps _ refl

    pub persist_infrastructure_failure-FlowKeeps :
        (e m : String) → FlowKeeps P (persist_infrastructure_failure out settings pkg e m)
    unfolding persist_infrastructure_failure
    persist_infrastructure_failure-FlowKeeps e m = persist_projection-FlowKeeps _ refl

    expire_attempt-FlowKeeps :
        (handle : SandboxHandle) (e : String)
        → FlowKeeps P (expire_attempt out settings pkg handle e)
    unfolding expire_attempt
    expire_attempt-FlowKeeps handle e = FlowKeeps-bind _ _ (FlowKeeps-call out _) (λ _.
        FlowKeeps-bind _ _
          (transact-FlowKeeps _
            (λ clock. kept.defer clock pkg.execution_id settings.worker_id pkg.attempt_count e))
          (λ _. FlowKeeps-return false))

    pub defer-FlowKeeps :
        (handle : SandboxHandle) (e : String)
        → FlowKeeps P (defer_infrastructure_retry out settings pkg handle e)
    unfolding defer_infrastructure_retry
    defer-FlowKeeps handle e =
        search (flow_rules, persist_infrastructure_failure-FlowKeeps, expire_attempt-FlowKeeps)

    judged-FlowKeeps :
        (s : SandboxExecutionResult)
        → FlowKeeps P (transact out (λ clock. persist_judged out settings.worker_id clock pkg s))
    judged-FlowKeeps s =
        transact-FlowKeeps _ (λ clock. persist_judged-Commits kept settings.worker_id clock pkg s)

    persist_report-FlowKeeps :
        (handle : SandboxHandle) (s : SandboxExecutionResult)
        → FlowKeeps P (persist_report out settings pkg handle s)
    unfolding persist_report
    persist_report-FlowKeeps handle s = search (flow_rules, defer-FlowKeeps, judged-FlowKeeps)

    judge_logs-FlowKeeps :
        (handle : SandboxHandle) (logs : String)
        → FlowKeeps P (judge_logs out settings pkg handle logs)
    unfolding judge_logs
    judge_logs-FlowKeeps handle logs = search (flow_rules, persist_report-FlowKeeps)

    pub persist_observation-FlowKeeps :
        (seen : SandboxObservation) (handle : SandboxHandle)
        → FlowKeeps P (persist_observation out settings pkg seen handle)
    unfolding persist_observation
    persist_observation-FlowKeeps seen handle =
        search (flow_rules, defer-FlowKeeps, judge_logs-FlowKeeps)

    create_handle-FlowKeeps :
        (request : Fields) → FlowKeeps P (create_handle out settings pkg request)
    unfolding create_handle
    create_handle-FlowKeeps request = search flow_rules

    keep_handle-FlowKeeps :
        (handle : SandboxHandle) (b : Bool) → FlowKeeps P (keep_handle out settings pkg handle b)
    unfolding keep_handle
    keep_handle-FlowKeeps handle true = FlowKeeps-return (some handle)
    keep_handle-FlowKeeps handle false = search flow_rules

    started-FlowKeeps :
        (handle : SandboxHandle)
        → FlowKeeps P (
            transact out (λ clock.
              mark_running clock pkg.execution_id settings.worker_id handle.namespace
                handle.job_name))
    started-FlowKeeps handle =
        transact-FlowKeeps _ (λ clock. kept.start clock pkg.execution_id settings.worker_id _ _)

    pub start_sandbox-FlowKeeps : FlowKeeps P (start_sandbox out settings pkg)
    unfolding start_sandbox
    start_sandbox-FlowKeeps =
        search (flow_rules, create_handle-FlowKeeps, started-FlowKeeps, keep_handle-FlowKeeps)
