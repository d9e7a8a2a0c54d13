-- ===== src/Execution/Persist.antt =====
-- apps/api/src/rigor_api/execution_results.py: the trusted projection of a run, and
-- `persist_terminal_result`, which makes it the execution's result.
pub mod Stored
use leetcode_platform.Prelude.{
  ℕ, String, Bool, true, false, Option, none, some, List, [], ◌∷◌, ◌+◌, ◌==◌, ◌&&◌, coalesce, ltb,
  not, all_of, length, count_of, if◌then◌else◌,
}
use leetcode_platform.Json.{ℤ, pos}
use leetcode_platform.Execution.Status.{
  ExecutionStatus, is_terminal, Error, transition_error, cannot_cancel, integrity_error, data_error,
}
use leetcode_platform.Execution.Columns.{is_integer, is_varchar, is_text_value, is_jsonb}
use leetcode_platform.Execution.Store.{
  Db, Clock, text, number, Details, ExecutionRow, PublicTest, PublicResultRow,
}
use leetcode_platform.Execution.Repository.{ExecutionSnapshot, get_execution, transition}
use leetcode_platform.Execution.Action.{
  Action, Result, ok, err, pure, raise, ◌>>=◌, ◌>>◌, raise_if, attempt, write, update,
}

pub record TrustedExecutionProjection : Type 0 where
  pub execution_status : ExecutionStatus
  pub runtime_ms : ℕ
  pub exit_code : ℤ
  pub error_category : Option String
  pub public_results : List PublicTest
  pub hidden_total : ℕ
  pub hidden_passed : ℕ
  pub stdout : String
  pub stderr : String
  pub candidate_message : String

abbrev pub test_passed : PublicTest → Bool
test_passed t = t.passed

-- The properties of the class.
unfoldable pub total_tests : TrustedExecutionProjection → ℕ
total_tests p = length p.public_results + p.hidden_total

unfoldable pub passed_tests : TrustedExecutionProjection → ℕ
passed_tests p = count_of test_passed p.public_results + p.hidden_passed

unfoldable pub all_tests_passed : TrustedExecutionProjection → Bool
unfolding total_tests passed_tests
all_tests_passed p = ltb 0 (total_tests p) && passed_tests p == total_tests p

-- The SET clause that follows the transition.
unfoldable pub resulted_row : ℕ → TrustedExecutionProjection → ExecutionRow → ExecutionRow
resulted_row k p r = record r {
  runtime_ms = some p.runtime_ms;
  exit_code = some p.exit_code;
  error_category = p.error_category;
  result_reference = some (record { scheme = "db://execution-public-results"; target = k });
  lease_owner = none;
  lease_expires_at = none;
}

abbrev pub result_row : ℕ → TrustedExecutionProjection → PublicResultRow
result_row k p = record {
  execution_request_id = k;
  public_results = p.public_results;
  hidden_total = p.hidden_total;
  hidden_passed = p.hidden_passed;
  stdout = p.stdout;
  stderr = p.stderr;
  candidate_message = p.candidate_message;
}

-- `INSERT … ON CONFLICT (execution_request_id) DO UPDATE`.
abbrev pub upsert_result : PublicResultRow → List PublicResultRow → List PublicResultRow
upsert_result x [] = x ∷ []
upsert_result x (y ∷ rows) =
    if y.execution_request_id == x.execution_request_id then x ∷ rows else y ∷ upsert_result x rows

unfoldable pub write_result : PublicResultRow → Db → Db
write_result x db = record db { public_results = upsert_result x db.public_results }

abbrev pub is_json_text : Option String → Bool
is_json_text none = true
is_json_text (some s) = is_text_value s

abbrev pub is_jsonb_test : PublicTest → Bool
is_jsonb_test t =
    is_text_value t.test_id
    && (is_text_value t.name
        && (is_jsonb t.expected && (is_jsonb t.actual && is_json_text t.error_category)))

-- The columns of execution_requests take the figures of the projection.
unfoldable pub fits_request : TrustedExecutionProjection → Bool
fits_request p =
    is_integer (pos p.runtime_ms) && (is_integer p.exit_code && is_varchar p.error_category)

-- The columns of execution_public_results take the row.
unfoldable pub fits_result : PublicResultRow → Bool
fits_result x =
    all_of is_jsonb_test x.public_results
    && (is_integer (pos x.hidden_total)
        && (is_text_value x.stdout
            && (is_text_value x.stderr && is_text_value x.candidate_message)))

-- The database refuses a value that its column does not take, and the table's CHECK more hidden
-- passes than hidden tests. `parse_runner_result` bounds none of these values.
unfoldable pub store_result : ℕ → TrustedExecutionProjection → Action ExecutionStatus
store_result k p = do
  raise_if (not (fits_request p)) data_error
  update k (λ _. true) (resulted_row k p)
  raise_if (not (fits_result (result_row k p))) data_error
  raise_if (ltb p.hidden_total p.hidden_passed) integrity_error
  write (write_result (result_row k p))
  pure p.execution_status

abbrev pub is_transition_error : Error → Bool
is_transition_error (transition_error _ _) = true
is_transition_error (cannot_cancel _) = true
is_transition_error _ = false

-- The body of the `except ExecutionTransitionError`: someone else may have ended the execution.
unfoldable pub reread_terminal : ℕ → Error → Action ExecutionStatus
reread_terminal k e = do
  current ← get_execution k
  (if is_terminal current.status then pure current.status else raise e)

unfoldable pub after_transition :
    ℕ → TrustedExecutionProjection → Result ExecutionSnapshot → Action ExecutionStatus
after_transition k p (ok _) = store_result k p
after_transition k p (err e) = if is_transition_error e then reread_terminal k e else raise e

abbrev pub result_details : TrustedExecutionProjection → Details
result_details p =
    ("runtime_ms", number p.runtime_ms)
    ∷ ("error_category", text (coalesce p.error_category ""))
    ∷ []

unfoldable pub persist_active : Clock → ℕ → TrustedExecutionProjection → Action ExecutionStatus
persist_active clock k p = do
  moved ← attempt (transition clock k p.execution_status (result_details p) none none)
  after_transition k p moved

unfoldable pub persist_terminal_result :
    Clock → ℕ → TrustedExecutionProjection → Action ExecutionStatus
persist_terminal_result clock k p = do
  current ← get_execution k
  (if is_terminal current.status then pure current.status else persist_active clock k p)
