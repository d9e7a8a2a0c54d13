-- ===== src/Practice/Queueing.antt =====
-- apps/api/src/rigor_api/execution_api.py: what `queue_run` and `queue_submit` do to the practice
-- session. The execution that they queue is in Execution/Create.antt.
pub mod Closed
use leetcode_platform.Prelude.{ℕ, String, Bool, true, false, Option, some, ◌+◌, not, modify}
use leetcode_platform.Json.{str, obj, end, field}
use leetcode_platform.Execution.Store.{Clock}
use leetcode_platform.Practice.Tables.{PracticeDb, PracticeSessionState, SessionRow}
use leetcode_platform.Practice.Finalize.{session_id}
use leetcode_platform.Practice.Sessions.{
  Method, returns, ◌>>=◌, ◌>>◌, fail_if, not_executable, not_admitted, get_session, append_event,
  is_draft, commits, transition_session,
}

-- `state in {"COMPLETED", "ABANDONED"}` of `_session_question`
abbrev pub is_closed : PracticeSessionState → Bool
is_closed PracticeSessionState.completed = true
is_closed PracticeSessionState.abandoned = true
is_closed _ = false

-- `UPDATE practice_sessions SET f WHERE id = :session_id`
unfoldable pub update_by_id : ℕ → (SessionRow → SessionRow) → Method (Unit {0})
update_by_id k f d = (returns tt, record d { sessions = modify session_id k f d.sessions })

unfoldable pub run_row : Clock → String → SessionRow → SessionRow
run_row clock source s = record s {
  draft_code = some source;
  run_count = s.run_count + 1;
  last_activity_at = clock.current_timestamp;
  updated_at = clock.current_timestamp;
}

unfoldable pub submit_row : Clock → String → SessionRow → SessionRow
submit_row clock source s = record s {
  draft_code = some source;
  submission_count = s.submission_count + 1;
  last_activity_at = clock.current_timestamp;
  updated_at = clock.current_timestamp;
}

-- `admitted` is false where the question, its runtime, the idempotency key or the number of queued
-- executions makes the route raise, or answer with an execution that is there, before it writes.
module _ (clock : Clock) (user : Option ℕ) (others : PracticeDb → PracticeDb) where
  unfoldable pub queue_run : ℕ → String → String → String → Bool → Method (Unit {0})
  queue_run k source execution_id runtime admitted = do
    current ← get_session clock user k
    fail_if (is_closed current.state) not_executable
    fail_if (not admitted) not_admitted
    commits others
    update_by_id k (run_row clock source)
    append_event clock user k "CODE_RUN_QUEUED"
        (obj (field "execution_id" (str execution_id) (field "runtime" (str runtime) end)))

  unfoldable pub queue_submit : ℕ → String → String → String → String → Bool → Method (Unit {0})
  queue_submit k source execution_id submission_id runtime admitted = do
    current ← get_session clock user k
    fail_if (is_closed current.state) not_executable
    fail_if (not admitted) not_admitted
    transition_session clock user others k PracticeSessionState.submitted is_draft
    update_by_id k (submit_row clock source)
    append_event clock user k "SUBMISSION_QUEUED" (
        obj (
          field "execution_id" (str execution_id)
            (field "submission_id" (str submission_id) (field "runtime" (str runtime) end))))
