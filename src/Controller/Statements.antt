-- ===== src/Controller/Statements.antt =====
-- apps/api/src/rigor_api/execution_controller.py: the statements that the controller itself sends,
-- beside those of the repositories.
use leetcode_platform.Prelude.{
  ℕ, String, Bool, true, false, Option, none, some, List, [], ◌∷◌, ◌-◌, ◌+◌, ◌==◌, ◌&&◌, is_some,
  null_eq, null_lt, str_eq, if◌then◌else◌,
}
use leetcode_platform.Execution.Status.{ExecutionStatus, ExecutionState, value, state_text}
use leetcode_platform.Execution.Store.{Db, Clock, ExecutionRow, OutboxRow, find_request}
use leetcode_platform.Execution.Claims.{is_queued, is_in_flight}
use leetcode_platform.Execution.Action.{Action, pure, ◌>>=◌, update}

-- The compare-and-set of `_reacquire_expired_execution`.
unfoldable pub reacquire_guard : Clock → ExecutionStatus → ℕ → ExecutionRow → Bool
reacquire_guard clock status attempt_count r =
    str_eq (state_text r.state) (value status)
    && (r.attempt_count == attempt_count && null_lt r.lease_expires_at clock.current_timestamp)

unfoldable pub leased_row : String → ℕ → ExecutionRow → ExecutionRow
leased_row worker_id until r = record r {
  lease_owner = some worker_id;
  lease_expires_at = some until;
}

unfoldable pub reacquire : Clock → ℕ → ExecutionStatus → ℕ → String → ℕ → Action Bool
reacquire clock k status attempt_count worker_id until = do
  row ← update k (reacquire_guard clock status attempt_count) (leased_row worker_id until)
  pure (is_some row)

-- The statement of `_defer_infrastructure_retry`: the lease is ended a second ago. Instants are
-- counted in seconds here.
unfoldable pub defer_guard : String → ℕ → ExecutionRow → Bool
defer_guard worker_id attempt_count r =
    r.attempt_count == attempt_count && (null_eq r.lease_owner worker_id && is_in_flight r.state)

unfoldable pub deferred_row : Clock → String → ExecutionRow → ExecutionRow
deferred_row clock error_category r = record r {
  lease_expires_at = some (clock.current_timestamp - 1);
  kubernetes_namespace = none;
  kubernetes_job_name = none;
  error_category = some error_category;
}

unfoldable pub expire_lease : Clock → ℕ → String → ℕ → String → Action Bool
expire_lease clock k worker_id attempt_count error_category = do
  row ← update k (defer_guard worker_id attempt_count) (deferred_row clock error_category)
  pure (is_some row)

abbrev pub is_state_cancelled : ExecutionState → Bool
is_state_cancelled ExecutionState.cancelled = true
is_state_cancelled _ = false

-- The last statement of `_process_cancel`.
unfoldable pub released_row : ExecutionRow → ExecutionRow
released_row r = record r {
  kubernetes_namespace = none;
  kubernetes_job_name = none;
  lease_owner = none;
  lease_expires_at = none;
}

unfoldable pub release_cancelled : ℕ → Action (Option ExecutionRow)
release_cancelled k = update k (λ r. is_state_cancelled r.state) released_row

-- `state IN ('COMPLETED', 'FAILED', 'TIMEOUT', 'CANCELLED')`
abbrev pub is_state_terminal : ExecutionState → Bool
is_state_terminal ExecutionState.completed = true
is_state_terminal ExecutionState.failed = true
is_state_terminal ExecutionState.timeout = true
is_state_terminal ExecutionState.cancelled = true
is_state_terminal _ = false

-- The UPDATE of `_cleanup_terminal_orphans`.
unfoldable pub jobless_row : ExecutionRow → ExecutionRow
jobless_row r = record r { kubernetes_namespace = none; kubernetes_job_name = none }

unfoldable pub forget_job : ℕ → Action Bool
forget_job k = do row ← update k (λ r. is_state_terminal r.state) jobless_row; pure (is_some row)

-- The join and the WHERE clause of `_requeue_stale_queued`.
abbrev pub is_found_queued : Option ExecutionRow → Bool
is_found_queued none = false
is_found_queued (some r) = is_queued r.state

unfoldable pub is_stale : Clock → ℕ → Db → OutboxRow → Bool
is_stale clock stale_seconds db o =
    str_eq o.aggregate_type "execution"
    && (is_found_queued (find_request o.aggregate_id db)
        && (str_eq o.event_type "execution.requested"
            && null_lt o.published_at (clock.current_timestamp - stale_seconds)))

abbrev pub republished : Clock → OutboxRow → OutboxRow
republished clock o = record o {
  published_at = none;
  next_attempt_at = clock.current_timestamp;
  last_error = some "stale_queued_republish";
}

-- One UPDATE over the outbox, and the number of the rows that it returns.
abbrev pub requeue_rows : (OutboxRow → Bool) → Clock → List OutboxRow → List OutboxRow × ℕ
requeue_rows stale clock [] = ([], 0)
requeue_rows stale clock (o ∷ rows) =
    let (rest, n) = requeue_rows stale clock rows in
    if stale o then (republished clock o ∷ rest, n + 1) else (o ∷ rest, n)

unfoldable pub requeue_stale_queued : Clock → ℕ → Action ℕ
requeue_stale_queued clock stale_seconds db =
    let (rows, n) = requeue_rows (is_stale clock stale_seconds db) clock db.outbox in
    (pure n) (record db { outbox = rows })
