-- ===== src/Practice/Finalize.antt =====
-- apps/api/src/rigor_api/execution_submission.py: `finalize_submission`, which makes the result of an
-- execution the result of the candidate's submission and ends the practice session. What
-- `_evaluation` computes is a parameter.
pub mod Once
use leetcode_platform.Prelude.{
  ℕ, String, Bool, true, false, Option, none, some, List, [], ◌∷◌, ◌++◌, ◌==◌, ◌||◌, suc, is_some,
  coalesce, map, find, modify, if◌then◌else◌,
}
use leetcode_platform.Json.{Json, pos, int, str, obj, end, field}
use leetcode_platform.Execution.Status.{ExecutionStatus, completed, ExecutionType, submit}
use leetcode_platform.Execution.Store.{Db, Clock, PublicTest}
use leetcode_platform.Execution.Action.{Action, pure, gets, ◌>>=◌, ◌>>◌, write}
use leetcode_platform.Execution.Persist.{TrustedExecutionProjection, all_tests_passed}
use leetcode_platform.Execution.Package.{DispatchPackage}
use leetcode_platform.Practice.Tables.{
  PracticeDb, PracticeSessionState, SessionRow, SessionEvent, CandidateTest, SubmissionRow,
  SubmissionResultRow, EvaluationRow,
}

abbrev pub is_completed : ExecutionStatus → Bool
is_completed completed = true
is_completed _ = false

-- `_legacy_status`
unfoldable pub legacy_status : TrustedExecutionProjection → String × String
legacy_status p =
    if is_completed p.execution_status
    then (if all_tests_passed p then ("passed", "PASSED") else ("failed", "FAILED"))
    else ("error", "ERROR")

abbrev pub candidate_test : PublicTest → CandidateTest
candidate_test t = record {
  id = t.test_id;
  name = t.name;
  passed = t.passed;
  expected_output = t.expected;
  actual_output = t.actual;
  error_category = t.error_category;
}

abbrev pub submission_id : SubmissionRow → ℕ
submission_id s = s.id

abbrev pub session_id : SessionRow → ℕ
session_id s = s.id

abbrev pub has_result : ℕ → List SubmissionResultRow → Bool
has_result k [] = false
has_result k (r ∷ results) = r.submission_id == k || has_result k results

-- The UPDATE of `submissions`.
abbrev pub finished_submission : Clock → TrustedExecutionProjection → SubmissionRow → SubmissionRow
finished_submission clock p s = record s {
  status = (legacy_status p).0;
  public_test_results = map candidate_test p.public_results;
  hidden_total = p.hidden_total;
  hidden_passed = p.hidden_passed;
  error_category = p.error_category;
  execution_duration_ms = some p.runtime_ms;
  started_at = some (coalesce s.started_at clock.current_timestamp);
  completed_at = some clock.current_timestamp;
}

abbrev pub submission_result : ℕ → TrustedExecutionProjection → SubmissionResultRow
submission_result k p = record {
  submission_id = k;
  status = (legacy_status p).1;
  public_results = map candidate_test p.public_results;
  hidden_total = p.hidden_total;
  hidden_passed = p.hidden_passed;
  runtime_ms = p.runtime_ms;
  error_category = p.error_category;
  candidate_message = p.candidate_message;
}

-- `state IN ('SUBMITTED', 'EVALUATING')`
abbrev pub is_evaluable : PracticeSessionState → Bool
is_evaluable PracticeSessionState.submitted = true
is_evaluable PracticeSessionState.evaluating = true
is_evaluable _ = false

abbrev pub completed_session : Clock → SessionRow → SessionRow
completed_session clock s = record s {
  state = PracticeSessionState.completed;
  completed_at = some clock.current_timestamp;
  last_activity_at = clock.current_timestamp;
  updated_at = clock.current_timestamp;
}

-- `COALESCE(max(sequence_number), 0) + 1` over the events of one session.
abbrev pub next_event : ℕ → List SessionEvent → ℕ
next_event k [] = 1
next_event k (e ∷ events) =
    let rest = next_event k events in
    if e.session_id == k then Prim.Native.Nat.max (suc e.sequence_number) rest else rest

unfoldable pub append_session_event : ℕ → String → Json → PracticeDb → PracticeDb
append_session_event k event_type payload d = record d {
  session_events =
      d.session_events
      ++ record {
        session_id = k;
        sequence_number = next_event k d.session_events;
        event_type = event_type;
        payload = payload;
      }
        ∷ [];
}

abbrev pub is_evaluable_row : Option SessionRow → Bool
is_evaluable_row none = false
is_evaluable_row (some s) = is_evaluable s.state

-- What `_evaluation` returns, as the JSON of its scores, and the UUIDs of the last event as texts.
pub record Evaluator : Type 0 where
  pub evaluate : DispatchPackage → TrustedExecutionProjection → Json
  pub overall_score : Json → Json
  pub uuid_text : ℕ → String

abbrev pub evaluation_payload : Evaluator → DispatchPackage → ℕ → Json → Json
evaluation_payload ev pkg submission evaluation = obj (
    field "submission_id" (str (ev.uuid_text submission)) (
      field "execution_id" (str (ev.uuid_text pkg.execution_id))
        (field "overall_score" (ev.overall_score evaluation) end)))

-- The UPDATE of `practice_sessions` and, where it changed a row, the event.
unfoldable pub complete_session : Clock → ℕ → Json → PracticeDb → PracticeDb
complete_session clock session payload d =
    if is_evaluable_row (find session_id session d.sessions)
    then append_session_event session "EVALUATION_COMPLETED" payload
        (record d { sessions = modify session_id session (completed_session clock) d.sessions })
    else d

-- The four statements that follow the two guards.
unfoldable pub store_evaluation :
    Evaluator → Clock → DispatchPackage → ℕ → TrustedExecutionProjection → PracticeDb → PracticeDb
store_evaluation ev clock pkg k p d =
    let evaluation = ev.evaluate pkg p in
    complete_session clock pkg.practice_session_id (evaluation_payload ev pkg k evaluation)
      (record d {
        submissions = modify submission_id k (finished_submission clock p) d.submissions;
        results = d.results ++ submission_result k p ∷ [];
        evaluations = d.evaluations ++ record { submission_id = k; evaluation = evaluation } ∷ [];
      })

abbrev pub is_submit : ExecutionType → Bool
is_submit submit = true
is_submit _ = false

abbrev pub finalized :
    Evaluator
    → Clock
    → DispatchPackage
    → Option ℕ
    → TrustedExecutionProjection
    → PracticeDb
    → PracticeDb
finalized ev clock pkg none p d = d
finalized ev clock pkg (some k) p d =
    if is_submit pkg.execution_type
    then (if has_result k d.results then d else store_evaluation ev clock pkg k p d)
    else d

unfoldable pub finalize_submission :
    Evaluator → Clock → DispatchPackage → TrustedExecutionProjection → Action (Unit {0})
finalize_submission ev clock pkg p =
    write (λ db. record db { practice = finalized ev clock pkg pkg.submission_id p db.practice })
