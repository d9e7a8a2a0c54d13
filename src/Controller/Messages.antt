-- ===== src/Controller/Messages.antt =====
-- apps/api/src/rigor_api/execution_controller.py: `process_message`, what the controller does with a
-- message of the queue.
use Prim.Native.String
use leetcode_platform.Prelude.{
  ℕ, String, Bool, true, false, Option, none, some, ◌+◌, ◌||◌, ltb, coalesce, str_eq, if◌then◌else◌,
}
use leetcode_platform.Execution.Store.{ExecutionRow, find_request}
use leetcode_platform.Execution.Action.{gets}
use leetcode_platform.Execution.Claims.Expired.{text_or_none}
use leetcode_platform.Execution.Package.{DispatchPackage}
use leetcode_platform.DeadLetters.{
  Message, ExecutionQueueEvent, ExecutionRequestedEvent, ExecutionCancelRequestedEvent, requested,
  cancel_requested,
}
use leetcode_platform.Controller.Statements.{release_cancelled}
use leetcode_platform.Controller.Transactions.{Requested, not_claimed, claimed, claim_package}
use leetcode_platform.Controller.Flow.{
  Outside, SandboxHandle, cleanup, change_message_visibility, delete_message, Flow, return, ◌>>=◌,
  ◌>>◌, transact, call, utc_now,
}
use leetcode_platform.Controller.Attempts.{
  ExecutionControllerSettings, start_sandbox, persist_infrastructure_failure,
}
use leetcode_platform.Controller.Monitor.{monitor}

module _ (out : Outside) where
  unfoldable pub handle_named : ℕ → Option String → String → SandboxHandle
  handle_named k namespace job = record {
    execution_id = k;
    namespace = coalesce (text_or_none namespace) out.namespace;
    job_name = job;
    input_secret_name = String.◌++◌ "input-" job;
  }

  -- The handle of an execution whose row may not name it.
  unfoldable pub handle_of : ℕ → Option String → Option String → SandboxHandle
  handle_of k namespace job_name =
      handle_named k namespace
        (coalesce (text_or_none job_name) (String.◌++◌ "execution-" (out.py.uuid_text k)))

  unfoldable pub release_found : ℕ → Option ExecutionRow → Flow (Unit {0})
  release_found k none = return tt
  release_found k (some r) = do
    call out (cleanup (handle_of k r.kubernetes_namespace r.kubernetes_job_name))
    released ← transact out (λ clock. release_cancelled k)
    return tt

  -- `_process_cancel`
  unfoldable pub process_cancel : ExecutionCancelRequestedEvent → Flow (Unit {0})
  process_cancel event = do
    row ← transact out (λ clock. gets (find_request event.execution_id))
    release_found event.execution_id row

module _ (out : Outside) (settings : ExecutionControllerSettings) where
  abbrev pub cleanup_if : Bool → SandboxHandle → Flow Bool
  cleanup_if false handle = return false
  cleanup_if true handle = do call out (cleanup handle); return true

  unfoldable pub monitor_started : DispatchPackage → Message → Option SandboxHandle → Flow Bool
  monitor_started pkg message none = return true
  monitor_started pkg message (some handle) = do
    terminal ← monitor out settings pkg handle message
    cleanup_if terminal handle

  unfoldable pub run_package : DispatchPackage → Message → Flow Bool
  run_package pkg message = do
    handle ← start_sandbox out settings pkg
    monitor_started pkg message handle

  unfoldable pub dispatch : Message → Requested → Flow Bool
  dispatch message (not_claimed known) = return known
  dispatch message (claimed pkg) =
      if ltb settings.max_attempts pkg.attempt_count
      then persist_infrastructure_failure out settings pkg "execution_attempt_limit"
          "Execution could not be started after repeated infrastructure failures."
      else if str_eq pkg.language "python" || str_eq pkg.language "sql"
      then run_package pkg message
      else persist_infrastructure_failure out settings pkg "unsupported_execution_language"
          "This runtime is not available in the production executor."

  -- `_process_requested`
  unfoldable pub process_requested : ExecutionRequestedEvent → Message → Flow Bool
  process_requested event message = do
    now ← utc_now out
    found ← transact out (λ clock.
        claim_package clock event.execution_id settings.worker_id (now + settings.lease_seconds))
    dispatch message found

  unfoldable pub acknowledge : Message → Bool → Flow Bool
  acknowledge message false = return false
  acknowledge message true = do call out (delete_message message.receipt_handle); return true

  abbrev pub process_event : Message → Option ExecutionQueueEvent → Flow Bool
  process_event message none = return false
  process_event message (some (cancel_requested event)) = do
    process_cancel out event
    acknowledge message true
  process_event message (some (requested event)) = do
    call out (change_message_visibility message.receipt_handle settings.receive_visibility_seconds)
    acknowledged ← process_requested event message
    acknowledge message acknowledged

  unfoldable pub process_message : Message → Flow Bool
  process_message message = process_event message (out.decode message.body)
