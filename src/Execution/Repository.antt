-- ===== src/Execution/Repository.antt =====
-- apps/api/src/rigor_api/execution_domain.py: `get`, `transition` and `cancel` of
-- `ExecutionRepository`, inside the caller's transaction.
pub mod Transition
use leetcode_platform.Prelude.{
  ℕ, String, Bool, true, false, Option, none, some, [], ◌∷◌, str_eq, if◌then◌else◌, coalesce,
}
use leetcode_platform.Execution.Status.{
  ExecutionStatus, ExecutionType, dispatching, running, not_found, value_error,
  normalize_execution_status, validate_execution_transition, is_terminal, state_text, to_state,
  value, Error,
}
use leetcode_platform.Execution.Store.{
  Clock, Value, text, number, instant, reference, Details, ExecutionRow, find_request,
}
use leetcode_platform.Execution.Action.{
  Action, pure, raise, gets, or_raise, ◌>>=◌, ◌>>◌, raise_some, update, record_event, enqueue,
}

pub record ExecutionSnapshot : Type 0 where
  pub execution_id : ℕ
  pub submission_id : Option ℕ
  pub status : ExecutionStatus
  pub execution_type : ExecutionType
  pub runtime : String
  pub created_at : ℕ
  pub queued_at : ℕ
  pub dispatch_started_at : Option ℕ
  pub running_at : Option ℕ
  pub completed_at : Option ℕ
  pub runtime_ms : Option ℕ
  pub error_category : Option String
  pub trace_id : String

unfoldable pub snapshot_of : ExecutionRow → ExecutionStatus → ExecutionSnapshot
snapshot_of r status = record {
  execution_id = r.id;
  submission_id = r.submission_id;
  status = status;
  execution_type = r.execution_type;
  runtime = r.runtime;
  created_at = r.created_at;
  queued_at = r.queued_at;
  dispatch_started_at = r.dispatch_started_at;
  running_at = r.running_at;
  completed_at = r.completed_at;
  runtime_ms = r.runtime_ms;
  error_category = r.error_category;
  trace_id = r.trace_id;
}

-- `ExecutionRepository.get`
unfoldable pub get_execution : ℕ → Action ExecutionSnapshot
get_execution k = do
  r ← or_raise (← gets (find_request k)) not_found
  status ← or_raise (normalize_execution_status (state_text r.state)) value_error
  pure (snapshot_of r status)

-- `CASE WHEN :target = … THEN COALESCE(column, CURRENT_TIMESTAMP) ELSE column END`
abbrev pub stamp_when : Bool → ℕ → Option ℕ → Option ℕ
stamp_when reached now column = if reached then some (coalesce column now) else column

abbrev pub is_dispatching : ExecutionStatus → Bool
is_dispatching dispatching = true
is_dispatching _ = false

abbrev pub is_running : ExecutionStatus → Bool
is_running running = true
is_running _ = false

-- The SET clause of `transition`.
unfoldable pub moved_row :
    Clock → ExecutionStatus → Option String → Option ℕ → ExecutionRow → ExecutionRow
moved_row clock target lease_owner lease_expires_at r =
    let now = clock.current_timestamp in
    record r {
      state = to_state target;
      dispatch_started_at = stamp_when (is_dispatching target) now r.dispatch_started_at;
      running_at = stamp_when (is_running target) now r.running_at;
      started_at = stamp_when (is_running target) now r.started_at;
      completed_at = if is_terminal target then some clock.utc_now else r.completed_at;
      lease_owner = lease_owner;
      lease_expires_at = lease_expires_at;
    }

-- `{"from": …, "to": …, **details}`: a key that `details` repeats takes its value.
abbrev pub dict_set : String → Value → Details → Details
dict_set k v [] = (k, v) ∷ []
dict_set k v ((j, w) ∷ d) = if str_eq j k then (j, v) ∷ d else (j, w) ∷ dict_set k v d

abbrev pub dict_update : Details → Details → Details
dict_update d [] = d
dict_update d ((k, v) ∷ more) = dict_update (dict_set k v d) more

unfoldable pub transition :
    Clock → ℕ → ExecutionStatus → Details → Option String → Option ℕ → Action ExecutionSnapshot
transition clock k target details lease_owner lease_expires_at = do
  r ← or_raise (← gets (find_request k)) not_found
  current ← or_raise (normalize_execution_status (state_text r.state)) value_error
  raise_some (validate_execution_transition current target)
  update k (λ _. true) (moved_row clock target lease_owner lease_expires_at)
  record_event k (to_state target)
      (dict_update (("from", text (value current)) ∷ ("to", text (value target)) ∷ []) details)
  get_execution k

abbrev pub is_cancelled : ExecutionStatus → Bool
is_cancelled ExecutionStatus.cancelled = true
is_cancelled _ = false

unfoldable pub enqueue_cancel : Clock → ℕ → String → ℕ → Action (Unit {0})
enqueue_cancel clock k trace_id outbox_id = enqueue (record {
  id = outbox_id;
  aggregate_type = "execution";
  aggregate_id = k;
  event_type = "execution.cancel_requested";
  dedupe_key = ("execution.cancel_requested", k);
  payload =
      ("schema_version", number 1)
      ∷ ("event_type", text "execution.cancel_requested")
      ∷ ("execution_id", reference k)
      ∷ ("requested_at", instant clock.utc_now)
      ∷ ("trace_id", text trace_id)
      ∷ [];
  created_at = clock.utc_now;
  next_attempt_at = clock.utc_now;
  published_at = none;
  attempt_count = 0;
  last_error = none;
})

unfoldable pub cancel_active : Clock → ℕ → String → ℕ → Action ExecutionSnapshot
cancel_active clock k trace_id outbox_id = do
  cancelled ←
      transition clock k ExecutionStatus.cancelled
        (("reason", text "candidate_requested") ∷ ("trace_id", text trace_id) ∷ []) none none
  enqueue_cancel clock k trace_id outbox_id
  pure cancelled

unfoldable pub cancel : Clock → ℕ → String → ℕ → Action ExecutionSnapshot
cancel clock k trace_id outbox_id = do
  current ← get_execution k
  (if is_cancelled current.status
      then pure current
      else if is_terminal current.status
      then raise (Error.cannot_cancel current.status)
      else cancel_active clock k trace_id outbox_id)
