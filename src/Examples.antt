-- ===== src/Examples.antt =====
-- Concrete tables and requests on which the theorems about the pipeline are applied.
mod Pipeline
mod Messages
mod Results
mod Reports
mod Sessions
mod Worker
mod Codecs
mod Coaching
use leetcode_platform.Prelude.{ℕ, String, Option, none, some, List, [], ◌∷◌}
use leetcode_platform.Json.{end}
use leetcode_platform.Practice.Tables.{no_practice}
use leetcode_platform.Execution.Status.{run, ExecutionState}
use leetcode_platform.Execution.Store.{Db, Clock, ExecutionRow}
use leetcode_platform.Execution.Create.{Digest, Principal, CreateRequest, new_row}

abbrev pub plain_digest : Digest
plain_digest = record { dumps = λ _. "{}"; sha256 = λ s. s }

abbrev pub ten : Clock
ten = record { current_timestamp = 10; utc_now = 10 }

abbrev pub later : Clock
later = record { current_timestamp = 40; utc_now = 40 }

abbrev pub candidate : Principal
candidate = record { user_id = some 7; organization_id = none }

abbrev pub request : CreateRequest
request = record {
  execution_type = run;
  practice_session_id = 3;
  submission_id = none;
  question_version_id = 5;
  runtime = "python";
  language = "python";
  source_code = "print(1)";
  idempotency_key = "key";
  trace_id = "trace";
  limits = end;
  input_payload = none;
}

abbrev pub queued_row : ExecutionRow
queued_row = new_row plain_digest ten candidate request 1

abbrev pub dispatched_row : ExecutionRow
dispatched_row = record queued_row {
  state = ExecutionState.dispatching;
  lease_owner = some "w";
  lease_expires_at = some 30;
  attempt_count = 1;
  dispatch_started_at = some 10;
}

abbrev pub completed_row : ExecutionRow
completed_row = record queued_row {
  state = ExecutionState.completed;
  attempt_count = 1;
  dispatch_started_at = some 10;
  completed_at = some 20;
}

abbrev pub tables : List ExecutionRow → Db
tables rows = record {
  requests = rows;
  payloads = [];
  events = [];
  outbox = [];
  public_results = [];
  practice = no_practice;
}
