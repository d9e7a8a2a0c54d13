-- ===== src/Execution/Claims.antt =====
-- apps/api/src/rigor_api/execution_claims.py: `ExecutionClaimRepository`, the compare-and-set
-- statements by which a worker takes, renews and proves the ownership of an execution.
pub mod Laws
pub mod Fencing
pub mod Expired
use leetcode_platform.Prelude.{
  ℕ, String, ◌≡◌, ◌⊎◌, inl, inr, refl, Bool, true, false, Option, none, some, [], ◌∷◌, ◌+◌, ◌==◌,
  ◌&&◌, ◌||◌, leb, ltb, null_eq, null_gt, null_lt, coalesce, is_some, if◌then◌else◌,
}
use leetcode_platform.Execution.Status.{ExecutionStatus, ExecutionType, ExecutionState, value_error}
use leetcode_platform.Execution.Store.{
  Clock, text, number, instant, Reference, ExecutionRow, find_request,
}
use leetcode_platform.Execution.Action.{
  Action, pure, raise, gets, ◌>>=◌, ◌>>◌, raise_if, update, record_event,
}

pub record ExecutionClaim : Type 0 where
  pub execution_id : ℕ
  pub runtime : String
  pub execution_type : ExecutionType
  pub language : String
  pub code_reference : Option Reference
  pub input_reference : Option Reference
  pub attempt_count : ℕ
  pub lease_owner : String
  pub lease_expires_at : ℕ
  pub trace_id : String

pub record ExpiredExecutionLease : Type 0 where
  pub execution_id : ℕ
  pub status : ExecutionStatus
  pub lease_owner : Option String
  pub lease_expires_at : ℕ
  pub kubernetes_namespace : Option String
  pub kubernetes_job_name : Option String
  pub attempt_count : ℕ

-- A `datetime` without or with a time zone.
pub data Deadline : Type 0 where
  naive aware : ℕ → Deadline

abbrev pub instant_of : Deadline → ℕ
instant_of (naive t) = t
instant_of (aware t) = t

unfoldable pub validate_lease_deadline : Clock → Deadline → Action (Unit {0})
validate_lease_deadline clock (naive _) = raise value_error
validate_lease_deadline clock (aware t) = raise_if (leb t clock.utc_now) value_error

abbrev pub is_queued : ExecutionState → Bool
is_queued ExecutionState.queued = true
is_queued _ = false

abbrev pub is_dispatching : ExecutionState → Bool
is_dispatching ExecutionState.dispatching = true
is_dispatching _ = false

-- `state IN ('DISPATCHING', 'RUNNING')`
abbrev pub is_in_flight : ExecutionState → Bool
is_in_flight ExecutionState.dispatching = true
is_in_flight ExecutionState.running = true
is_in_flight _ = false

unfoldable pub claimed_row : Clock → String → ℕ → ExecutionRow → ExecutionRow
claimed_row clock worker_id lease_expires_at r = record r {
  state = ExecutionState.dispatching;
  lease_owner = some worker_id;
  lease_expires_at = some lease_expires_at;
  attempt_count = r.attempt_count + 1;
  dispatch_started_at = some (coalesce r.dispatch_started_at clock.current_timestamp);
}

-- The returned row as a claim; its lease columns are those just written.
unfoldable pub claim_of : String → ℕ → ExecutionRow → ExecutionClaim
claim_of worker_id lease_expires_at r = record {
  execution_id = r.id;
  runtime = r.runtime;
  execution_type = r.execution_type;
  language = r.language;
  code_reference = r.code_reference;
  input_reference = r.input_reference;
  attempt_count = r.attempt_count;
  lease_owner = coalesce r.lease_owner worker_id;
  lease_expires_at = coalesce r.lease_expires_at lease_expires_at;
  trace_id = r.trace_id;
}

-- The event and the result after the UPDATE of `claim_for_dispatch`.
unfoldable pub report_claim : ℕ → String → ℕ → Option ExecutionRow → Action (Option ExecutionClaim)
unfolding claim_of
report_claim k worker_id lease_expires_at none = pure none
report_claim k worker_id lease_expires_at (some r) = do
  record_event k ExecutionState.dispatching (
      ("attempt", number r.attempt_count)
      ∷ ("lease_owner", text worker_id)
      ∷ ("lease_expires_at", instant lease_expires_at)
      ∷ [])
  pure (some (claim_of worker_id lease_expires_at r))

unfoldable pub claim_for_dispatch : Clock → ℕ → String → Deadline → Action (Option ExecutionClaim)
unfolding validate_lease_deadline claimed_row report_claim
claim_for_dispatch clock k worker_id deadline = do
  validate_lease_deadline clock deadline
  let until = instant_of deadline
  row ← update k (λ r. is_queued r.state) (claimed_row clock worker_id until)
  report_claim k worker_id until row

unfoldable pub retry_guard : Clock → ℕ → ℕ → ExecutionRow → Bool
retry_guard clock expected_attempt max_attempts r =
    is_in_flight r.state
    && (r.attempt_count == expected_attempt
        && (ltb r.attempt_count max_attempts && null_lt r.lease_expires_at clock.current_timestamp))

unfoldable pub retried_row : String → ℕ → ExecutionRow → ExecutionRow
retried_row worker_id lease_expires_at r = record r {
  state = ExecutionState.dispatching;
  lease_owner = some worker_id;
  lease_expires_at = some lease_expires_at;
  attempt_count = r.attempt_count + 1;
  kubernetes_namespace = none;
  kubernetes_job_name = none;
}

unfoldable pub report_retry : ℕ → String → ℕ → Option ExecutionRow → Action (Option ℕ)
report_retry k worker_id lease_expires_at none = pure none
report_retry k worker_id lease_expires_at (some r) = do
  record_event k ExecutionState.dispatching (
      ("attempt", number r.attempt_count)
      ∷ ("lease_owner", text worker_id)
      ∷ ("lease_expires_at", instant lease_expires_at)
      ∷ ("reason", text "infrastructure_retry")
      ∷ [])
  pure (some r.attempt_count)

unfoldable pub start_retry : Clock → ℕ → ℕ → String → ℕ → ℕ → Action (Option ℕ)
unfolding retry_guard retried_row report_retry
start_retry clock k expected_attempt worker_id until max_attempts = do
  row ← update k (retry_guard clock expected_attempt max_attempts) (retried_row worker_id until)
  report_retry k worker_id until row

unfoldable pub retry_missing_sandbox : Clock → ℕ → ℕ → String → Deadline → ℕ → Action (Option ℕ)
unfolding validate_lease_deadline start_retry
retry_missing_sandbox clock k expected_attempt worker_id deadline max_attempts = do
  validate_lease_deadline clock deadline
  (if ltb expected_attempt 1 || ltb max_attempts 1
      then pure none
      else start_retry clock k expected_attempt worker_id (instant_of deadline) max_attempts)

pub in_flight_state :
    (s : ExecutionState)
    → is_in_flight s ≡ true
    → (s ≡ ExecutionState.dispatching) ⊎ (s ≡ ExecutionState.running)
in_flight_state ExecutionState.dispatching h = inl refl
in_flight_state ExecutionState.running h = inr refl
in_flight_state _ h = cc

unfoldable pub owns_lease : Clock → String → ExecutionRow → Bool
owns_lease clock worker_id r =
    null_eq r.lease_owner worker_id && null_gt r.lease_expires_at clock.current_timestamp

unfoldable pub running_row : Clock → String → String → ExecutionRow → ExecutionRow
running_row clock namespace job_name r = record r {
  state = ExecutionState.running;
  running_at = some (coalesce r.running_at clock.current_timestamp);
  started_at = some (coalesce r.started_at clock.current_timestamp);
  kubernetes_namespace = some namespace;
  kubernetes_job_name = some job_name;
}

unfoldable pub report_running : ℕ → String → String → Option ExecutionRow → Action Bool
report_running k namespace job_name none = pure false
report_running k namespace job_name (some r) = do
  record_event k ExecutionState.running (
      ("attempt", number r.attempt_count)
      ∷ ("kubernetes_namespace", text namespace)
      ∷ ("kubernetes_job_name", text job_name)
      ∷ [])
  pure true

unfoldable pub mark_running : Clock → ℕ → String → String → String → Action Bool
unfolding owns_lease running_row report_running
mark_running clock k worker_id namespace job_name = do
  row ←
      update k (λ r. is_dispatching r.state && owns_lease clock worker_id r)
        (running_row clock namespace job_name)
  report_running k namespace job_name row

unfoldable pub renew_lease : Clock → ℕ → String → Deadline → Action Bool
unfolding validate_lease_deadline owns_lease
renew_lease clock k worker_id deadline = do
  validate_lease_deadline clock deadline
  row ←
      update k (λ r. owns_lease clock worker_id r && is_in_flight r.state)
        (λ r. record r { lease_expires_at = some (instant_of deadline) })
  pure (is_some row)

-- `SELECT … FOR UPDATE`: the row is the caller's until the end of the transaction.
unfoldable pub owns_attempt : Clock → String → ℕ → ExecutionRow → Bool
unfolding owns_lease
owns_attempt clock worker_id attempt_count r =
    r.attempt_count == attempt_count && (owns_lease clock worker_id r && is_in_flight r.state)

abbrev pub owns_found : Clock → String → ℕ → Option ExecutionRow → Bool
owns_found clock worker_id attempt_count none = false
owns_found clock worker_id attempt_count (some r) = owns_attempt clock worker_id attempt_count r

unfoldable pub lock_owned_attempt : Clock → ℕ → String → ℕ → Action Bool
unfolding owns_attempt
lock_owned_attempt clock k worker_id attempt_count =
    if ltb attempt_count 1
    then pure false
    else gets (λ db. owns_found clock worker_id attempt_count (find_request k db))
