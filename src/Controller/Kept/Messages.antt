-- ===== src/Controller/Kept/Messages.antt =====
-- apps/api/src/rigor_api/execution_controller.py: what the statements keep, `process_message` keeps.
use leetcode_platform.Prelude.{ℕ, zero, suc, Bool, true, false, Option, none, some}
use leetcode_platform.Execution.Store.{Db, ExecutionRow, find_request}
use leetcode_platform.Execution.Action.{gets}
use leetcode_platform.Execution.Action.Keeps.{keeps_rules}
use leetcode_platform.Execution.Action.Commits.{Commits-keeps}
use leetcode_platform.Execution.Package.{DispatchPackage}
use leetcode_platform.DeadLetters.{
  Message, ExecutionQueueEvent, ExecutionRequestedEvent, ExecutionCancelRequestedEvent, requested,
  cancel_requested,
}
use leetcode_platform.Controller.Statements.{release_cancelled}
use leetcode_platform.Controller.Transactions.{Requested, not_claimed, claimed, claim_package}
use leetcode_platform.Controller.Flow.{Outside, SandboxHandle, SandboxObservation, Flow, transact}
use leetcode_platform.Controller.Flow.Keeps.{
  FlowKeeps, FlowKeeps-return, FlowKeeps-hang, flow_rules,
}
use leetcode_platform.Controller.Kept.{Kept, claim_package-Commits}
use leetcode_platform.Controller.Kept.Attempts.{
  transact-FlowKeeps, renew-FlowKeeps, persist_timeout-FlowKeeps, defer-FlowKeeps,
  persist_infrastructure_failure-FlowKeeps, persist_observation-FlowKeeps, start_sandbox-FlowKeeps,
}
use leetcode_platform.Controller.Attempts.{ExecutionControllerSettings}
use leetcode_platform.Controller.Monitor.{
  settle_over, extend_message, renew_and, renew_when_due, still_running, observed_state, watch,
  monitor_loop, monitor,
}
use leetcode_platform.Controller.Messages.{
  release_found, process_cancel, cleanup_if, monitor_started, run_package, dispatch,
  process_requested, acknowledge, process_event, process_message,
}

module _ {out : Outside} {attempts : ℕ} {P : Db → Type 0} (kept : Kept out attempts P)
    (settings : ExecutionControllerSettings) where
  module _ (pkg : DispatchPackage) (handle : SandboxHandle) (message : Message) where
    settle_over-FlowKeeps :
        (seen : SandboxObservation) → FlowKeeps P (settle_over out settings pkg handle message seen)
    unfolding settle_over
    settle_over-FlowKeeps seen = search (
      flow_rules,
      persist_timeout-FlowKeeps kept settings,
      persist_observation-FlowKeeps kept settings,
    )

    module _ (next : ℕ → Flow Bool) (later : (due : ℕ) → FlowKeeps P (next due)) where
      extend_message-FlowKeeps : FlowKeeps P (extend_message out settings pkg handle message next)
      unfolding extend_message
      extend_message-FlowKeeps = search (flow_rules, later)

      renew_and-FlowKeeps : FlowKeeps P (renew_and out settings pkg handle message next)
      unfolding renew_and
      renew_and-FlowKeeps =
          search (flow_rules, renew-FlowKeeps kept settings, extend_message-FlowKeeps)

      renew_when_due-FlowKeeps :
          (due : ℕ) → FlowKeeps P (renew_when_due out settings pkg handle message next due)
      unfolding renew_when_due
      renew_when_due-FlowKeeps due = search (flow_rules, renew_and-FlowKeeps, later)

      still_running-FlowKeeps :
          (deadline due : ℕ)
          → FlowKeeps P (still_running out settings pkg handle message deadline next due)
      unfolding still_running
      still_running-FlowKeeps deadline due =
          search (flow_rules, persist_timeout-FlowKeeps kept settings, renew_when_due-FlowKeeps)

      observed_state-FlowKeeps :
          (deadline due : ℕ) (seen : SandboxObservation)
          → FlowKeeps P (observed_state out settings pkg handle message deadline next due seen)
      unfolding observed_state
      observed_state-FlowKeeps deadline due seen = search (
        flow_rules,
        settle_over-FlowKeeps,
        defer-FlowKeeps kept settings,
        still_running-FlowKeeps,
      )

      watch-FlowKeeps :
          (deadline due : ℕ) → FlowKeeps P (watch out settings pkg handle message deadline next due)
      unfolding watch
      watch-FlowKeeps deadline due = search (flow_rules, observed_state-FlowKeeps)

    monitor_loop-FlowKeeps :
        (deadline fuel due : ℕ)
        → FlowKeeps P (monitor_loop out settings pkg handle message deadline fuel due)
    unfolding monitor_loop
    monitor_loop-FlowKeeps deadline zero due = FlowKeeps-hang
    monitor_loop-FlowKeeps deadline (suc fuel) due =
        watch-FlowKeeps (monitor_loop out settings pkg handle message deadline fuel)
          (λ d. monitor_loop-FlowKeeps deadline fuel d) deadline due

    monitor-FlowKeeps : FlowKeeps P (monitor out settings pkg handle message)
    unfolding monitor
    monitor-FlowKeeps = search (flow_rules, monitor_loop-FlowKeeps)

  pub cleanup_if-FlowKeeps :
      (b : Bool) (handle : SandboxHandle) → FlowKeeps P (cleanup_if out settings b handle)
  cleanup_if-FlowKeeps true handle = search flow_rules
  cleanup_if-FlowKeeps false handle = FlowKeeps-return false

  monitor_started-FlowKeeps :
      (pkg : DispatchPackage) (message : Message) (o : Option SandboxHandle)
      → FlowKeeps P (monitor_started out settings pkg message o)
  unfolding monitor_started
  monitor_started-FlowKeeps pkg message none = FlowKeeps-return true
  monitor_started-FlowKeeps pkg message (some handle) =
      search (flow_rules, monitor-FlowKeeps, cleanup_if-FlowKeeps)

  run_package-FlowKeeps :
      (pkg : DispatchPackage) (message : Message)
      → FlowKeeps P (run_package out settings pkg message)
  unfolding run_package
  run_package-FlowKeeps pkg message =
      search (flow_rules, start_sandbox-FlowKeeps kept settings, monitor_started-FlowKeeps)

  pub dispatch-FlowKeeps :
      (message : Message) (found : Requested) → FlowKeeps P (dispatch out settings message found)
  unfolding dispatch
  dispatch-FlowKeeps message (not_claimed known) = FlowKeeps-return known
  dispatch-FlowKeeps message (claimed pkg) =
      search
        (flow_rules, persist_infrastructure_failure-FlowKeeps kept settings, run_package-FlowKeeps)

  claimed-FlowKeeps :
      (k until : ℕ)
      → FlowKeeps P (transact out (λ clock. claim_package clock k settings.worker_id until))
  claimed-FlowKeeps k until =
      transact-FlowKeeps kept settings _
        (λ clock. claim_package-Commits kept clock k settings.worker_id until)

  process_requested-FlowKeeps :
      (event : ExecutionRequestedEvent) (message : Message)
      → FlowKeeps P (process_requested out settings event message)
  unfolding process_requested
  process_requested-FlowKeeps event message =
      search (flow_rules, claimed-FlowKeeps, dispatch-FlowKeeps)

  found-FlowKeeps : (k : ℕ) → FlowKeeps P (transact out (λ clock. gets (find_request k)))
  found-FlowKeeps k =
      transact-FlowKeeps kept settings _ (λ clock. Commits-keeps _ (search keeps_rules))

  released-FlowKeeps : (k : ℕ) → FlowKeeps P (transact out (λ clock. release_cancelled k))
  released-FlowKeeps k = transact-FlowKeeps kept settings _ (λ clock. kept.release k)

  release_found-FlowKeeps : (k : ℕ) (o : Option ExecutionRow) → FlowKeeps P (release_found out k o)
  unfolding release_found
  release_found-FlowKeeps k none = FlowKeeps-return tt
  release_found-FlowKeeps k (some r) = search (flow_rules, released-FlowKeeps)

  process_cancel-FlowKeeps :
      (event : ExecutionCancelRequestedEvent) → FlowKeeps P (process_cancel out event)
  unfolding process_cancel
  process_cancel-FlowKeeps event = search (flow_rules, found-FlowKeeps, release_found-FlowKeeps)

  pub acknowledge-FlowKeeps :
      (message : Message) (b : Bool) → FlowKeeps P (acknowledge out settings message b)
  unfolding acknowledge
  acknowledge-FlowKeeps message true = search flow_rules
  acknowledge-FlowKeeps message false = FlowKeeps-return false

  process_event-FlowKeeps :
      (message : Message) (o : Option ExecutionQueueEvent)
      → FlowKeeps P (process_event out settings message o)
  process_event-FlowKeeps message none = FlowKeeps-return false
  process_event-FlowKeeps message (some (cancel_requested event)) =
      search (flow_rules, process_cancel-FlowKeeps, acknowledge-FlowKeeps)
  process_event-FlowKeeps message (some (requested event)) =
      search (flow_rules, process_requested-FlowKeeps, acknowledge-FlowKeeps)

  pub process_message-FlowKeeps :
      (message : Message) → FlowKeeps P (process_message out settings message)
  unfolding process_message
  process_message-FlowKeeps message = process_event-FlowKeeps message (out.decode message.body)
