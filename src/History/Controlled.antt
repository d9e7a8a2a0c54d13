-- ===== src/History/Controlled.antt =====
-- apps/api/src/rigor_api/execution_controller.py: whatever a controller does is a history of the
-- transactions of the pipeline.
use leetcode_platform.Prelude.{ℕ, ◌≤◌}
use leetcode_platform.Execution.Store.{Db, Clock}
use leetcode_platform.Execution.Create.{Digest}
use leetcode_platform.Execution.Action.{write, pure}
use leetcode_platform.Execution.Action.Commits.{Commits, Commits-alone}
use leetcode_platform.Execution.Package.{DispatchPackage}
use leetcode_platform.Execution.Persist.{TrustedExecutionProjection}
use leetcode_platform.Practice.Finalize.{Evaluator, finalize_submission}
use leetcode_platform.Outbox.Settled.{publish_outbox_only}
use leetcode_platform.Controller.Statements.{requeue_stale_queued}
use leetcode_platform.Controller.Flow.{Outside, World}
use leetcode_platform.Controller.Attempts.{ExecutionControllerSettings}
use leetcode_platform.Controller.Service.{run_for}
use leetcode_platform.Controller.Kept.{Kept}
use leetcode_platform.Controller.Kept.Service.{run_for-FlowKeeps}
use leetcode_platform.History.{
  Reach, claim, retry, start, renew, persist, take_over, defer, release, forget, outbox_work,
  practice_work, here, next,
}

module _ {digest : Digest} {limit : ℕ} where
  Reach-trans :
      {a b c : Db} → Reach digest limit a b → Reach digest limit b c → Reach digest limit a c
  Reach-trans r here = r
  Reach-trans r (next s t) = next (Reach-trans r s) t

  module _ (a : Db) where
    requeue-Reach :
        (clock : Clock) (seconds : ℕ)
        → Commits (Reach digest limit a) (requeue_stale_queued clock seconds)
    unfolding requeue_stale_queued pure
    requeue-Reach clock seconds = record { at = λ db h good. next h (outbox_work _) }

    finalize-Reach :
        (ev : Evaluator) (clock : Clock) (pkg : DispatchPackage) (p : TrustedExecutionProjection)
        → Commits (Reach digest limit a) (finalize_submission ev clock pkg p)
    unfolding finalize_submission write
    finalize-Reach ev clock pkg p = record { at = λ db h good. next h (practice_work _) }

    -- The statements fill the interface of the controller with the histories.
    pub Reach-Kept :
        (out : Outside) (attempts : ℕ)
        → attempts ≤ limit
        → ((n : ℕ) (db : Db) → Reach digest limit db (out.others n db))
        → Kept out attempts (Reach digest limit a)
    Reach-Kept out attempts below others = record {
      others = λ n db h. Reach-trans h (others n db);
      claim = λ clock k w d. Commits-alone _ (λ db h. next h (claim clock k w d));
      retry =
          λ clock k n w d. Commits-alone _ (λ db h. next h (retry clock k n w d attempts below));
      start = λ clock k w ns job. Commits-alone _ (λ db h. next h (start clock k w ns job));
      renew = λ clock k w d. Commits-alone _ (λ db h. next h (renew clock k w d));
      persist = λ clock k p ends. Commits-alone _ (λ db h. next h (persist clock k p ends));
      take_over = λ clock k s n w t. Commits-alone _ (λ db h. next h (take_over clock k s n w t));
      defer = λ clock k w n e. Commits-alone _ (λ db h. next h (defer clock k w n e));
      release = λ k. Commits-alone _ (λ db h. next h (release k));
      forget = λ k. Commits-alone _ (λ db h. next h (forget k));
      requeue = requeue-Reach;
      publish = λ clock locked n. record {
        at = λ db h good.
            rw (publish_outbox_only out.outbox clock locked n db) (next h (outbox_work _));
      };
      finalize = finalize-Reach;
    }

  -- Any number of passes over the controller's loop, however the sandbox, the queue, the clock and
  -- the database answer, leaves the tables as some sequence of the pipeline's transactions does, if
  -- what the others commit in between is such a sequence and the controller's limit of attempts is
  -- within the pipeline's.
  pub controller_refines :
      (out : Outside) (settings : ExecutionControllerSettings)
      → settings.max_attempts ≤ limit
      → ((n : ℕ) (db : Db) → Reach digest limit db (out.others n db))
      → (passes last : ℕ) (w : World)
      → Reach digest limit w.db (run_for out settings passes last w).1.db
  controller_refines out settings below others passes last w =
      (run_for-FlowKeeps settings (Reach-Kept w.db out settings.max_attempts below others) passes
          last).at
        w here
