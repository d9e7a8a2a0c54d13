-- ===== src/Execution/Create.antt =====
-- apps/api/src/rigor_api/execution_domain.py: how a request is admitted, `create_queued` with the
-- request hash, the idempotency look-up and the queue event. `json.dumps` and `sha256` are
-- parameters; an identifier that `uuid4()` or the database makes is an argument.
pub mod Insert
use leetcode_platform.Prelude.{
  ℕ, String, Bool, true, false, Option, none, some, List, [], ◌∷◌, ◌++◌, ◌&&◌, str_eq, null_id_eq,
  if◌then◌else◌, coalesce, is_some, not,
}
use leetcode_platform.Json.{Fields, end}
use leetcode_platform.Execution.Status.{
  ExecutionStatus, ExecutionType, run, submit, queued, idempotency_conflict, runtime_error,
  value_error, integrity_error, normalize_execution_status, state_text, to_state, ExecutionState,
}
use leetcode_platform.Execution.Store.{
  Db, Clock, text, number, instant, reference, Details, ExecutionRow, find_request,
}
use leetcode_platform.Execution.Action.{
  Action, pure, raise, gets, or_raise, ◌>>=◌, ◌>>◌, raise_if, write, record_event, enqueue,
}

-- The session settings `rigor.user_id` and `rigor.organization_id`, where the empty text is NULL.
pub record Principal : Type 0 where
  pub user_id : Option ℕ
  pub organization_id : Option ℕ

pub record QueuedExecution : Type 0 where
  pub execution_id : ℕ
  pub submission_id : Option ℕ
  pub status : ExecutionStatus
  pub execution_type : ExecutionType
  pub runtime : String
  pub created_at : ℕ
  pub trace_id : String
  pub duplicate : Bool

-- The keyword arguments of `create_queued`.
pub record CreateRequest : Type 0 where
  pub execution_type : ExecutionType
  pub practice_session_id : ℕ
  pub submission_id : Option ℕ
  pub question_version_id : ℕ
  pub runtime : String
  pub language : String
  pub source_code : String
  pub idempotency_key : String
  pub trace_id : String
  pub limits : Fields
  pub input_payload : Option Fields

-- `json.dumps(…, sort_keys=True)` of an object, and the digest of a text.
pub record Digest : Type 0 where
  pub dumps : Details → String
  pub sha256 : String → String

abbrev pub type_value : ExecutionType → String
type_value run = "RUN"
type_value submit = "SUBMIT"

abbrev pub canonical_request : CreateRequest → Details
canonical_request q =
    ("execution_type", text (type_value q.execution_type))
    ∷ ("practice_session_id", reference q.practice_session_id)
    ∷ ("question_version_id", reference q.question_version_id)
    ∷ ("runtime", text q.runtime)
    ∷ ("source_code", text q.source_code)
    ∷ []

unfoldable pub execution_request_hash : Digest → CreateRequest → String
execution_request_hash d q = d.sha256 (d.dumps (canonical_request q))

unfoldable pub execution_requested_event : ℕ → ℕ → String → ℕ → Details
execution_requested_event k requested_at trace_id attempt =
    ("schema_version", number 1)
    ∷ ("event_type", text "execution.requested")
    ∷ ("execution_id", reference k)
    ∷ ("attempt", number attempt)
    ∷ ("requested_at", instant requested_at)
    ∷ ("trace_id", text trace_id)
    ∷ []

-- `_find_by_idempotency`: the rows of another or of no candidate are not found.
abbrev pub find_owned : Option ℕ → String → List ExecutionRow → Option ExecutionRow
find_owned user key [] = none
find_owned user key (r ∷ rows) =
    if null_id_eq r.candidate_id user && str_eq r.idempotency_key key
    then some r
    else find_owned user key rows

unfoldable pub queued_from_row : ExecutionRow → Bool → Action QueuedExecution
queued_from_row r duplicate = do
  status ← or_raise (normalize_execution_status (state_text r.state)) value_error
  pure (record {
    execution_id = r.id;
    submission_id = r.submission_id;
    status = status;
    execution_type = r.execution_type;
    runtime = r.runtime;
    created_at = r.created_at;
    trace_id = r.trace_id;
    duplicate = duplicate;
  })

-- The answer to a key that is taken.
unfoldable pub answer_existing : ExecutionRow → String → Action QueuedExecution
answer_existing r request_hash = do
  raise_if (not (str_eq r.request_hash request_hash)) idempotency_conflict
  queued_from_row r true

abbrev pub new_row : Digest → Clock → Principal → CreateRequest → ℕ → ExecutionRow
new_row d clock p q k = record {
  id = k;
  organization_id = p.organization_id;
  candidate_id = p.user_id;
  practice_session_id = some q.practice_session_id;
  submission_id = q.submission_id;
  question_version_id = q.question_version_id;
  runtime = q.runtime;
  language = q.language;
  adapter = "KUBERNETES_JOB";
  state = ExecutionState.queued;
  idempotency_key = q.idempotency_key;
  source_hash = d.sha256 q.source_code;
  request_hash = execution_request_hash d q;
  limits = q.limits;
  execution_type = q.execution_type;
  code_reference = some (record { scheme = "db://execution-payloads"; target = k });
  input_reference = none;
  attempt_count = 0;
  trace_id = q.trace_id;
  created_at = clock.current_timestamp;
  queued_at = clock.utc_now;
  dispatch_started_at = none;
  running_at = none;
  started_at = none;
  completed_at = none;
  lease_owner = none;
  lease_expires_at = none;
  runtime_ms = none;
  exit_code = none;
  error_category = none;
  result_reference = none;
  kubernetes_namespace = none;
  kubernetes_job_name = none;
}

-- `INSERT INTO execution_requests … ON CONFLICT (candidate_id, idempotency_key) DO NOTHING
-- RETURNING …`. A primary key that is taken is an error of the database.
unfoldable pub insert_request : ExecutionRow → Action (Option ExecutionRow)
insert_request r db =
    if is_some (find_owned r.candidate_id r.idempotency_key db.requests)
    then pure none db
    else if is_some (find_request r.id db)
    then raise integrity_error db
    else pure (some r) (record db { requests = db.requests ++ r ∷ [] })

-- The INSERT into `execution_payloads`.
unfoldable pub insert_payload : CreateRequest → ℕ → Db → Db
insert_payload q k db = record db {
  payloads =
      db.payloads
      ++ record {
        execution_request_id = k;
        source_code = q.source_code;
        input_payload = coalesce q.input_payload end;
      }
        ∷ [];
}

-- What follows the INSERT of a new request: its payload, its first event, its queue event.
unfoldable pub store_created : Clock → CreateRequest → ℕ → ℕ → Action (Unit {0})
store_created clock q k outbox_id = do
  write (insert_payload q k)
  record_event k (to_state queued) (("attempt", number 0) ∷ ("trace_id", text q.trace_id) ∷ [])
  enqueue (record {
    id = outbox_id;
    aggregate_type = "execution";
    aggregate_id = k;
    event_type = "execution.requested";
    dedupe_key = ("execution.requested", k);
    payload = execution_requested_event k clock.utc_now q.trace_id 1;
    created_at = clock.utc_now;
    next_attempt_at = clock.utc_now;
    published_at = none;
    attempt_count = 0;
    last_error = none;
  })

module _ (d : Digest) (clock : Clock) (p : Principal) where
  -- The row that another transaction committed under the same key is answered from.
  unfoldable pub after_insert : CreateRequest → ℕ → ℕ → Option ExecutionRow → Action QueuedExecution
  after_insert q k outbox_id (some r) = do
    store_created clock q k outbox_id
    queued_from_row r false
  after_insert q k outbox_id none = do
    concurrent ← gets (λ db. find_owned p.user_id q.idempotency_key db.requests)
    r ← or_raise concurrent runtime_error
    answer_existing r (execution_request_hash d q)

  -- `others` is what other transactions commit between the look-up and the INSERT.
  unfoldable pub create_absent : (Db → Db) → CreateRequest → ℕ → ℕ → Action QueuedExecution
  create_absent others q k outbox_id = do
    write others
    inserted ← insert_request (new_row d clock p q k)
    after_insert q k outbox_id inserted

  -- The two ways on from the look-up.
  unfoldable pub answer_or_create :
      (Db → Db) → CreateRequest → ℕ → ℕ → Option ExecutionRow → Action QueuedExecution
  answer_or_create others q k outbox_id (some r) = answer_existing r (execution_request_hash d q)
  answer_or_create others q k outbox_id none = create_absent others q k outbox_id

  unfoldable pub create_queued : (Db → Db) → CreateRequest → ℕ → ℕ → Action QueuedExecution
  create_queued others q k outbox_id = do
    existing ← gets (λ db. find_owned p.user_id q.idempotency_key db.requests)
    answer_or_create others q k outbox_id existing
