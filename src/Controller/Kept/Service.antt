-- ===== src/Controller/Kept/Service.antt =====
-- apps/api/src/rigor_api/execution_controller.py: what the statements keep, `run_forever` keeps.
use leetcode_platform.Prelude.{ℕ, zero, suc, false, Option, none, some, List, [], ◌∷◌}
use leetcode_platform.Execution.Store.{Db}
use leetcode_platform.DeadLetters.{Message}
use leetcode_platform.Controller.Flow.{Outside}
use leetcode_platform.Controller.Flow.Keeps.{
  FlowKeeps, FlowKeeps-bind, FlowKeeps-return, FlowKeeps-catch, FlowKeeps-if, FlowKeeps-monotonic,
  flow_rules,
}
use leetcode_platform.Controller.Kept.{Kept}
use leetcode_platform.Controller.Kept.Attempts.{transact-FlowKeeps}
use leetcode_platform.Controller.Kept.Messages.{process_message-FlowKeeps}
use leetcode_platform.Controller.Kept.Reconciliation.{reconcile_once-FlowKeeps}
use leetcode_platform.Controller.Attempts.{ExecutionControllerSettings}
use leetcode_platform.Controller.Service.{
  publish_outbox_once, reconcile_at, publish_and_reconcile, process_each, receive_and_process,
  begin_pass, pause_after_error, end_pass, iteration, run_for,
}

module _ {out : Outside} {P : Db → Type 0} (settings : ExecutionControllerSettings)
    (kept : Kept out settings.max_attempts P) where
  publish-FlowKeeps : FlowKeeps P (publish_outbox_once out settings)
  unfolding publish_outbox_once
  publish-FlowKeeps =
      FlowKeeps-bind _ _ (transact-FlowKeeps kept settings _ (λ clock. kept.publish clock _ _))
        (λ result. FlowKeeps-return _)

  reconcile_at-FlowKeeps : (now : ℕ) → FlowKeeps P (reconcile_at out settings now)
  unfolding reconcile_at
  reconcile_at-FlowKeeps now =
      FlowKeeps-bind _ _ (reconcile_once-FlowKeeps settings kept) (λ _. FlowKeeps-return now)

  publish_and_reconcile-FlowKeeps :
      (last : ℕ) → FlowKeeps P (publish_and_reconcile out settings last)
  unfolding publish_and_reconcile
  publish_and_reconcile-FlowKeeps last = FlowKeeps-bind _ _ publish-FlowKeeps (λ _.
      FlowKeeps-bind _ _ (FlowKeeps-monotonic out)
        (λ now. FlowKeeps-if _ _ _ (reconcile_at-FlowKeeps now) (FlowKeeps-return last)))

  process_each-FlowKeeps :
      (messages : List Message) → FlowKeeps P (process_each out settings messages)
  unfolding process_each
  process_each-FlowKeeps [] = FlowKeeps-return tt
  process_each-FlowKeeps (message ∷ messages) =
      FlowKeeps-bind _ _
        (FlowKeeps-catch _ _ _ (process_message-FlowKeeps kept settings message)
          (FlowKeeps-return false))
        (λ _. process_each-FlowKeeps messages)

  pause-FlowKeeps : {A : Type 0} (a : A) → FlowKeeps P (pause_after_error out settings a)
  unfolding pause_after_error
  pause-FlowKeeps a = search flow_rules

  receive_and_process-FlowKeeps : FlowKeeps P (receive_and_process out settings)
  unfolding receive_and_process
  receive_and_process-FlowKeeps = search (flow_rules, process_each-FlowKeeps)

  end_pass-FlowKeeps : (last : ℕ) (o : Option ℕ) → FlowKeeps P (end_pass out settings last o)
  unfolding end_pass
  end_pass-FlowKeeps last none = FlowKeeps-return last
  end_pass-FlowKeeps last (some done) =
      search (flow_rules, receive_and_process-FlowKeeps, pause-FlowKeeps)

  iteration-FlowKeeps : (last : ℕ) → FlowKeeps P (iteration out settings last)
  unfolding iteration begin_pass
  iteration-FlowKeeps last =
      search (flow_rules, publish_and_reconcile-FlowKeeps, pause-FlowKeeps, end_pass-FlowKeeps)

  pub run_for-FlowKeeps : (n last : ℕ) → FlowKeeps P (run_for out settings n last)
  unfolding run_for
  run_for-FlowKeeps zero last = FlowKeeps-return last
  run_for-FlowKeeps (suc n) last =
      FlowKeeps-bind _ _ (iteration-FlowKeeps last) (λ done. run_for-FlowKeeps n done)
