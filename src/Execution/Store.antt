-- ===== src/Execution/Store.antt =====
-- The tables that the execution pipeline reads and writes (the columns that its statements name),
-- and one UPDATE and one INSERT as functions on them. Identifiers are numbers in place of UUIDs;
-- instants are numbers on the database's clock.
use leetcode_platform.Prelude.{
  ℕ, String, Bool, true, false, Option, none, some, List, [], ◌∷◌, ◌++◌, ◌==◌, suc, find, modify,
  if◌then◌else◌, str_eq, ◌&&◌,
}
use leetcode_platform.Json.{Json, ℤ, Fields}
use leetcode_platform.Practice.Tables.{PracticeDb}
use leetcode_platform.Execution.Status.{ExecutionState, ExecutionType}

-- A value of the bounded metadata that the code writes as JSON, before it is printed.
pub data Value : Type 0 where
  text : String → Value
  number : ℕ → Value
  instant : ℕ → Value
  reference : ℕ → Value

abbrev pub Details : Type 0
Details = List (String × Value)

-- A reference of the form f"db://…/{execution_id}": the part before the last `/`, and the id.
pub record Reference : Type 0 where
  pub scheme : String
  pub target : ℕ

pub record ExecutionRow : Type 0 where
  pub id : ℕ
  pub organization_id : Option ℕ
  pub candidate_id : Option ℕ
  pub practice_session_id : Option ℕ
  pub submission_id : Option ℕ
  pub question_version_id : ℕ
  pub runtime : String
  pub language : String
  pub adapter : String
  pub state : ExecutionState
  pub idempotency_key : String
  pub source_hash : String
  pub request_hash : String
  pub limits : Fields
  pub execution_type : ExecutionType
  pub code_reference : Option Reference
  pub input_reference : Option Reference
  pub attempt_count : ℕ
  pub trace_id : String
  pub created_at : ℕ
  pub queued_at : ℕ
  pub dispatch_started_at : Option ℕ
  pub running_at : Option ℕ
  pub started_at : Option ℕ
  pub completed_at : Option ℕ
  pub lease_owner : Option String
  pub lease_expires_at : Option ℕ
  pub runtime_ms : Option ℕ
  pub exit_code : Option ℤ
  pub error_category : Option String
  pub result_reference : Option Reference
  pub kubernetes_namespace : Option String
  pub kubernetes_job_name : Option String

pub record PayloadRow : Type 0 where
  pub execution_request_id : ℕ
  pub source_code : String
  pub input_payload : Fields

pub record EventRow : Type 0 where
  pub execution_request_id : ℕ
  pub sequence_number : ℕ
  pub state : ExecutionState
  pub details : Details

-- `dedupe_key` is f"{event_type}:{execution_id}", kept as its two parts.
pub record OutboxRow : Type 0 where
  pub id : ℕ
  pub aggregate_type : String
  pub aggregate_id : ℕ
  pub event_type : String
  pub dedupe_key : String × ℕ
  pub payload : Details
  pub created_at : ℕ
  pub next_attempt_at : ℕ
  pub published_at : Option ℕ
  pub attempt_count : ℕ
  pub last_error : Option String

pub record PublicTest : Type 0 where
  pub test_id : String
  pub name : String
  pub passed : Bool
  pub expected : Json
  pub actual : Json
  pub error_category : Option String

pub record PublicResultRow : Type 0 where
  pub execution_request_id : ℕ
  pub public_results : List PublicTest
  pub hidden_total : ℕ
  pub hidden_passed : ℕ
  pub stdout : String
  pub stderr : String
  pub candidate_message : String

pub record Db : Type 0 where
  pub requests : List ExecutionRow
  pub payloads : List PayloadRow
  pub events : List EventRow
  pub outbox : List OutboxRow
  pub public_results : List PublicResultRow
  pub practice : PracticeDb

-- CURRENT_TIMESTAMP of the transaction, and `datetime.now(UTC)` of the process.
pub record Clock : Type 0 where
  pub current_timestamp : ℕ
  pub utc_now : ℕ

abbrev pub row_id : ExecutionRow → ℕ
row_id r = r.id

abbrev pub find_request : ℕ → Db → Option ExecutionRow
find_request k db = find row_id k db.requests

-- `UPDATE execution_requests SET f WHERE id = :k AND guard RETURNING *`: the updated row, or none.
unfoldable pub update_request :
    ℕ → (ExecutionRow → Bool) → (ExecutionRow → ExecutionRow) → Db → Option ExecutionRow × Db
update_request k guard f db = elim (find_request k db) [
  | none ↦ (none, db)
  | some r ↦
      if guard r
      then (some (f r), record db { requests = modify row_id k f db.requests })
      else (none, db)
]

-- `COALESCE(max(sequence_number), -1) + 1` over the events of one execution.
abbrev pub next_sequence : ℕ → List EventRow → ℕ
next_sequence k [] = 0
next_sequence k (e ∷ events) =
    let rest = next_sequence k events in
    if e.execution_request_id == k then Prim.Native.Nat.max (suc e.sequence_number) rest else rest

-- The INSERT of `_append_event`.
unfoldable pub append_event : ℕ → ExecutionState → Details → Db → Db
append_event k state details db = record db {
  events =
      db.events
      ++ record {
        execution_request_id = k;
        sequence_number = next_sequence k db.events;
        state = state;
        details = details;
      }
        ∷ [];
}

-- A row with this dedupe key is there.
abbrev pub has_key : String × ℕ → List OutboxRow → Bool
has_key key [] = false
has_key (kind, k) (o ∷ outbox) =
    if str_eq o.dedupe_key.0 kind && o.dedupe_key.1 == k then true else has_key (kind, k) outbox

-- `INSERT INTO execution_outbox … ON CONFLICT (dedupe_key) DO NOTHING`.
unfoldable pub insert_outbox : OutboxRow → Db → Db
insert_outbox o db =
    if has_key o.dedupe_key db.outbox then db else record db { outbox = db.outbox ++ o ∷ [] }

-- An UPDATE of the row `k`, and the event that reports it.
abbrev pub advanced : ℕ → (ExecutionRow → ExecutionRow) → ExecutionState → Details → Db → Db
advanced k f state details db =
    append_event k state details (record db { requests = modify row_id k f db.requests })
