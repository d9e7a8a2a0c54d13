-- ===== src/Examples/Sessions.antt =====
-- The theorems about practice sessions and submissions, at one session and one submission.
use leetcode_platform.Prelude.{◌≡◌, refl, true, none, some, List, [], ◌∷◌, find}
use leetcode_platform.Json.{null}
use leetcode_platform.Execution.Status.{ExecutionStatus, submit}
use leetcode_platform.Execution.Store.{Db}
use leetcode_platform.Execution.Action.{ok}
use leetcode_platform.Execution.Persist.{TrustedExecutionProjection}
use leetcode_platform.Execution.Package.{DispatchPackage}
use leetcode_platform.Practice.Tables.{PracticeDb, PracticeSessionState, SessionRow, SubmissionRow}
use leetcode_platform.Practice.Finalize.{
  Evaluator, append_session_event, session_id, finalize_submission,
}
use leetcode_platform.Practice.Finalize.Once.{finalize_once}
use leetcode_platform.Practice.Sessions.{SessionPatch}
use leetcode_platform.Practice.Sessions.Lifecycle.{SameWork, IsFar}
use leetcode_platform.Practice.Questions.{Catalogue}
use leetcode_platform.Practice.History.{
  Call, Turn, runs, submits, patches, hints, completes, finalizes, run_calls,
  closed_session_keeps_work,
}
use leetcode_platform.Examples.{ten, later, tables}
use leetcode_platform.Examples.Results.{lenient, outcome}
use leetcode_platform.Examples.Reports.{sent}

abbrev pub scorer : Evaluator
scorer = record { evaluate = λ _ _. null; overall_score = λ e. e; uuid_text = λ _. "1" }

abbrev strict : Evaluator
strict = record scorer { uuid_text = λ _. "2" }

abbrev submitted_package : DispatchPackage
submitted_package = record sent { execution_type = submit; submission_id = some 4 }

abbrev session_row : PracticeSessionState → SessionRow
session_row state = record {
  id = 3;
  candidate_id = some 7;
  organization_id = none;
  question_version_id = 5;
  state = state;
  runtime = "python";
  draft_code = some "print(1)";
  notes = none;
  elapsed_seconds = some 60;
  hint_count = 0;
  run_count = 0;
  submission_count = 0;
  started_at = some 1;
  paused_at = none;
  submitted_at = some 5;
  completed_at = none;
  last_activity_at = 5;
  updated_at = 5;
}

abbrev submission_row : SubmissionRow
submission_row = record {
  id = 4;
  status = "running";
  public_test_results = [];
  hidden_total = 0;
  hidden_passed = 0;
  error_category = none;
  execution_duration_ms = none;
  started_at = none;
  completed_at = none;
}

abbrev sessions_in : PracticeSessionState → PracticeDb
sessions_in state = record {
  sessions = session_row state ∷ [];
  session_events = [];
  submissions = submission_row ∷ [];
  results = [];
  evaluations = [];
}

abbrev submitted_db : Db
submitted_db = record (tables []) { practice = sessions_in PracticeSessionState.submitted }

abbrev timed_out : TrustedExecutionProjection
timed_out = record outcome { execution_status = ExecutionStatus.timeout }

finalize_once_example :
    finalize_submission strict later submitted_package timed_out
      (finalize_submission scorer ten submitted_package outcome submitted_db).1
    ≡ (ok tt, (finalize_submission scorer ten submitted_package outcome submitted_db).1)
finalize_once_example =
    finalize_once scorer strict ten later submitted_package outcome timed_out submitted_db

-- One hint, for a question that nobody published.
abbrev no_questions : Catalogue
no_questions = record { published = λ _. none; slug_of = λ _. "two-sum" }

abbrev cleared : SessionPatch
cleared = record { draft_code = some none; notes = none; elapsed_seconds = none }

-- Meanwhile others add an event.
abbrev noting : PracticeDb → PracticeDb
noting d = append_session_event 3 "NOTE" null d

noting-IsFar : IsFar 3 noting
unfolding append_session_event
noting-IsFar d = refl

abbrev late_call : Call → Turn
late_call c = record { clock = later; user = some 7; others = noting; call = c }

abbrev late_calls : List Turn
late_calls =
    late_call (patches 3 cleared)
    ∷ late_call (hints 3)
    ∷ late_call (completes 3)
    ∷ late_call (runs 3 "print(2)" "1" "python" true)
    ∷ late_call (submits 3 "print(2)" "1" "2" "python" true)
    ∷ late_call (finalizes scorer submitted_package (some 4) outcome)
    ∷ []

closed_session_keeps_work_example :
    (t : SessionRow) × (find session_id 3
        (run_calls lenient no_questions late_calls
          (sessions_in PracticeSessionState.completed)).sessions
      ≡ some t)
    × SameWork (session_row PracticeSessionState.completed) t
closed_session_keeps_work_example =
    closed_session_keeps_work lenient no_questions late_calls
      (sessions_in PracticeSessionState.completed) 3 (session_row PracticeSessionState.completed)
      refl refl
      (
        noting-IsFar,
        (noting-IsFar, (noting-IsFar, (noting-IsFar, (noting-IsFar, (noting-IsFar, tt))))),
      )
