-- ===== src/Practice/Tables.antt =====
-- The tables `practice_sessions`, `practice_session_events`, `submissions`, `submission_results` and
-- `submission_evaluations`: the columns that practice.py and execution_submission.py read or write.
use leetcode_platform.Prelude.{ℕ, String, Bool, Option, List, []}
use leetcode_platform.Json.{Json}

pub data PracticeSessionState : Type 0 where
  created in_progress paused submitted evaluating completed abandoned : PracticeSessionState

-- `state.value`
abbrev pub session_value : PracticeSessionState → String
session_value PracticeSessionState.created = "CREATED"
session_value PracticeSessionState.in_progress = "IN_PROGRESS"
session_value PracticeSessionState.paused = "PAUSED"
session_value PracticeSessionState.submitted = "SUBMITTED"
session_value PracticeSessionState.evaluating = "EVALUATING"
session_value PracticeSessionState.completed = "COMPLETED"
session_value PracticeSessionState.abandoned = "ABANDONED"

pub record SessionRow : Type 0 where
  pub id : ℕ
  pub candidate_id : Option ℕ
  pub organization_id : Option ℕ
  pub question_version_id : ℕ
  pub state : PracticeSessionState
  pub runtime : String
  pub draft_code : Option String
  pub notes : Option String
  pub elapsed_seconds : Option ℕ
  pub hint_count : ℕ
  pub run_count : ℕ
  pub submission_count : ℕ
  pub started_at : Option ℕ
  pub paused_at : Option ℕ
  pub submitted_at : Option ℕ
  pub completed_at : Option ℕ
  pub last_activity_at : ℕ
  pub updated_at : ℕ

pub record SessionEvent : Type 0 where
  pub session_id : ℕ
  pub sequence_number : ℕ
  pub event_type : String
  pub payload : Json

-- One entry of `public_test_results`.
pub record CandidateTest : Type 0 where
  pub id : String
  pub name : String
  pub passed : Bool
  pub expected_output : Json
  pub actual_output : Json
  pub error_category : Option String

pub record SubmissionRow : Type 0 where
  pub id : ℕ
  pub status : String
  pub public_test_results : List CandidateTest
  pub hidden_total : ℕ
  pub hidden_passed : ℕ
  pub error_category : Option String
  pub execution_duration_ms : Option ℕ
  pub started_at : Option ℕ
  pub completed_at : Option ℕ

-- `memory_kb` is always null, and the advisory `quality_signals` are left out.
pub record SubmissionResultRow : Type 0 where
  pub submission_id : ℕ
  pub status : String
  pub public_results : List CandidateTest
  pub hidden_total : ℕ
  pub hidden_passed : ℕ
  pub runtime_ms : ℕ
  pub error_category : Option String
  pub candidate_message : String

pub record EvaluationRow : Type 0 where
  pub submission_id : ℕ
  pub evaluation : Json

pub record PracticeDb : Type 0 where
  pub sessions : List SessionRow
  pub session_events : List SessionEvent
  pub submissions : List SubmissionRow
  pub results : List SubmissionResultRow
  pub evaluations : List EvaluationRow

abbrev pub no_practice : PracticeDb
no_practice = record {
  sessions = [];
  session_events = [];
  submissions = [];
  results = [];
  evaluations = [];
}
