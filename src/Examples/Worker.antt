-- ===== src/Examples/Worker.antt =====
-- The theorems about the controller, at one execution whose sandbox runs out of time.
use leetcode_platform.Prelude.{◌≡◌, refl, arith, true, false, none, some, [], ◌∷◌}
use leetcode_platform.Json.{null, arr, nil, end, field}
use leetcode_platform.Execution.Store.{
  ExecutionRow, PayloadRow, find_request, update_request, append_event,
}
use leetcode_platform.Execution.Claims.{
  is_queued, claim_for_dispatch, mark_running, lock_owned_attempt,
}
use leetcode_platform.DeadLetters.{Message, ExecutionRequestedEvent, requested}
use leetcode_platform.History.{Reach, here}
use leetcode_platform.History.Controlled.{controller_refines}
use leetcode_platform.History.Acknowledged.{acknowledged_not_lost}
use leetcode_platform.Controller.Flow.{
  Outside, World, SandboxHandle, SandboxObservation, Ended, returns, Call, call, utc_now, transact,
  return, monotonic, create_sandbox, observe_sandbox,
}
use leetcode_platform.Controller.Attempts.{
  ExecutionControllerSettings, start_sandbox, create_handle, keep_handle, persist_timeout,
  persist_projection, positive_limit,
}
use leetcode_platform.Controller.Service.{run_for}
use leetcode_platform.Controller.Finished.Service.{controller_survives, has_returned}
use leetcode_platform.Controller.Messages.{
  process_message, process_requested, dispatch, run_package, monitor_started, acknowledge,
}
use leetcode_platform.Controller.Transactions.{
  claim_package, requested_package, persist_owned, store_owned, store_outcome,
}
use leetcode_platform.Controller.Monitor.{monitor, monitor_loop, watch, observed_state, settle_over}
use leetcode_platform.Execution.Action.{raise_if, transaction}
use leetcode_platform.Execution.Package.{
  load_dispatch_package, sandbox_request, sanitized, language_fields,
}
use leetcode_platform.Execution.Columns.{is_jsonb}
use leetcode_platform.Execution.Persist.{
  persist_terminal_result, persist_active, after_transition, store_result, resulted_row,
  write_result, fits_request, fits_result,
}
use leetcode_platform.Execution.Repository.{get_execution, transition, moved_row, snapshot_of}
use leetcode_platform.Practice.Finalize.{finalize_submission}
use leetcode_platform.Execution.Status.{normalize_execution_status, validate_execution_transition}
use leetcode_platform.Examples.{plain_digest, ten, tables, queued_row}
use leetcode_platform.Examples.Messages.{working}
use leetcode_platform.Examples.Results.{lenient}
use leetcode_platform.Examples.Sessions.{scorer}

abbrev asked : ExecutionRequestedEvent
asked = record { execution_id = 1; attempt = 1; requested_at = 9; trace_id = "trace" }

abbrev job : SandboxHandle
job = record {
  execution_id = 1;
  namespace = "rigor";
  job_name = "execution-1";
  input_secret_name = "input-execution-1";
}

abbrev late : SandboxObservation
late = record { state = "FAILED"; logs = none; reason = some "DeadlineExceeded" }

abbrev message : Message
message = record { message_id = "m"; body = "{}"; receipt_handle = "r" }

-- An outside where nobody else writes, and whose sandbox always ran out of time.
abbrev quiet : Outside
quiet = record {
  clock = λ _. ten;
  elapsed = λ _. 1;
  others = λ _ db. db;
  database_error = λ _. none;
  call_error = λ _ _. none;
  created = λ _ _. job;
  observed = λ _ _. late;
  received = λ _. message ∷ [];
  locked = λ _ _. false;
  namespace = "rigor";
  content = λ _. null;
  decode = λ _. some (requested asked);
  parse_int = λ _. none;
  py = lenient;
  evaluator = scorer;
  outbox = working;
}

abbrev settings : ExecutionControllerSettings
settings = record {
  worker_id = "w";
  lease_seconds = 60;
  reconciliation_limit = 50;
  receive_visibility_seconds = 90;
  sandbox_poll_ms = 500;
  max_attempts = 3;
  stale_queued_seconds = 120;
  outbox_batch_size = 25;
}

abbrev payload : PayloadRow
payload = record {
  execution_request_id = 1;
  source_code = "print(1)";
  input_payload = field "tests" (arr nil) end;
}

abbrev start : World
start = record {
  db = record (tables (queued_row ∷ [])) { payloads = payload ∷ [] };
  calls = [];
  tick = 0;
  now = 0;
}

controller_refines_example : Reach plain_digest 3 start.db (run_for quiet settings 2 0 start).1.db
controller_refines_example =
    controller_refines quiet settings (omega arith) (λ n db. here) 2 0 start

controller_survives_example : has_returned (run_for quiet settings 2 0 start).0 ≡ true
controller_survives_example = controller_survives quiet settings (omega arith) 2 0 start

message_works : (process_message quiet settings message start).0 ≡ returns true
unfolding leetcode_platform.Controller.Flow.◌>>=◌ leetcode_platform.Execution.Action.◌>>=◌ call
    utc_now transact return monotonic create_sandbox observe_sandbox process_message
    process_requested dispatch run_package monitor_started acknowledge claim_package
    requested_package persist_owned store_owned store_outcome start_sandbox create_handle
    keep_handle persist_timeout persist_projection positive_limit monitor monitor_loop watch
    observed_state settle_over transaction claim_for_dispatch mark_running lock_owned_attempt
    update_request append_event load_dispatch_package sandbox_request sanitized language_fields
    persist_terminal_result persist_active after_transition store_result resulted_row write_result
    fits_request fits_result is_jsonb raise_if get_execution transition moved_row
    finalize_submission normalize_execution_status validate_execution_transition snapshot_of
message_works = refl

acknowledged_not_lost_example :
    (s : ExecutionRow) × (find_request 1 (process_message quiet settings message start).1.db
      ≡ some s)
    × (is_queued s.state ≡ false)
acknowledged_not_lost_example =
    acknowledged_not_lost {digest = plain_digest} {limit = 3} quiet settings (omega arith)
      (λ n db. here) asked message start refl message_works
