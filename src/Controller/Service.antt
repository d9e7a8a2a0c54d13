-- ===== src/Controller/Service.antt =====
-- apps/api/src/rigor_api/execution_controller.py: `run_forever`, one pass over its loop and any
-- number of them.
use leetcode_platform.Prelude.{
  ℕ, zero, suc, false, Option, none, some, List, [], ◌∷◌, ◌+◌, leb, if◌then◌else◌,
}
use leetcode_platform.DeadLetters.{Message}
use leetcode_platform.Outbox.{publish_claimed_messages}
use leetcode_platform.Controller.Flow.{
  Outside, Flow, return, catch_any, ◌>>=◌, ◌>>◌, transact, receive, monotonic, sleep,
}
use leetcode_platform.Controller.Attempts.{ExecutionControllerSettings}
use leetcode_platform.Controller.Messages.{process_message}
use leetcode_platform.Controller.Reconciliation.{reconcile_once}

module _ (out : Outside) (settings : ExecutionControllerSettings) where
  unfoldable pub publish_outbox_once : Flow ℕ
  publish_outbox_once = do
    result ← transact out (λ clock.
        publish_claimed_messages out.outbox clock (out.locked clock.current_timestamp)
          settings.outbox_batch_size)
    return result.published

  unfoldable pub reconcile_at : ℕ → Flow ℕ
  reconcile_at now = do repaired ← reconcile_once out settings; return now

  -- The first part of a pass, with the time of the last reconciliation in milliseconds.
  unfoldable pub publish_and_reconcile : ℕ → Flow ℕ
  publish_and_reconcile last = do
    published ← publish_outbox_once
    now ← monotonic out
    (if leb (last + 30000) now then reconcile_at now else return last)

  -- An exception ends the handling of one message alone.
  unfoldable pub process_each : List Message → Flow (Unit {0})
  process_each [] = return tt
  process_each (message ∷ messages) = do
    acknowledged ← catch_any (process_message out settings message) (return false)
    process_each messages

  unfoldable pub receive_and_process : Flow (Unit {0})
  receive_and_process = do messages ← receive out 10; process_each messages

  unfoldable pub begin_pass : ℕ → Flow (Option ℕ)
  begin_pass last = do done ← publish_and_reconcile last; return (some done)

  unfoldable pub pause_after_error : {A : Type 0} → A → Flow A
  pause_after_error a = do sleep out 1000; return a

  unfoldable pub end_pass : ℕ → Option ℕ → Flow ℕ
  end_pass last none = return last
  end_pass last (some done) = do catch_any receive_and_process (pause_after_error tt); return done

  -- After an exception, the loop sleeps for a second; a reconciliation that was done counts.
  unfoldable pub iteration : ℕ → Flow ℕ
  iteration last = do
    done ← catch_any (begin_pass last) (pause_after_error none)
    end_pass last done

  unfoldable pub run_for : ℕ → ℕ → Flow ℕ
  run_for zero last = return last
  run_for (suc n) last = do done ← iteration last; run_for n done
