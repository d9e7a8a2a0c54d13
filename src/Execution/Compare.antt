-- ===== src/Execution/Compare.antt =====
-- apps/api/src/rigor_api/execution_results.py: `_test_passed` and `trusted_compare`, which make the
-- trusted projection of what a sandbox reported and of the tests of the question.
pub mod Loop
pub mod Hidden
pub mod Stored
use leetcode_platform.Prelude.{
  ℕ, String, Bool, true, false, Option, none, some, List, [], ◌∷◌, ◌++◌, ◌+◌, ◌==◌, ◌&&◌, not,
  is_some, is_none, coalesce, ltb, str_eq, if◌then◌else◌, length, count_of, any_of,
}
use leetcode_platform.Json.{Json, ℤ, Fields, null, str}
use leetcode_platform.Execution.Status.{
  ExecutionStatus, completed, failed, timeout, trusted_result_error,
}
use leetcode_platform.Execution.Store.{PublicTest}
use leetcode_platform.Execution.Persist.{TrustedExecutionProjection, test_passed}
use leetcode_platform.Execution.Action.{Result, ok, err}
use leetcode_platform.Execution.Checked.{continue}
use leetcode_platform.Execution.Judge.{Python, compare_value}

-- One entry of `SandboxExecutionResult.tests`, with the keys that `parse_runner_result` gives it.
pub record RunnerTest : Type 0 where
  pub id : String
  pub visibility : String
  pub is_ok : Bool
  pub actual : Json
  pub error_category : Option String

pub record SandboxExecutionResult : Type 0 where
  pub execution_id : ℕ
  pub attempt : ℕ
  pub status : String
  pub runtime_ms : ℕ
  pub exit_code : ℤ
  pub tests : List RunnerTest
  pub stdout : String
  pub stderr : String
  pub error_category : Option String

-- One value of the mapping that `load_expected_tests` returns; its key is `id`.
pub record ExpectedTest : Type 0 where
  pub id : String
  pub name : String
  pub visibility : String
  pub expected_output : Json
  pub expected_columns : Option (List String)
  pub comparison : Fields

abbrev pub find_expected : String → List ExpectedTest → Option ExpectedTest
find_expected k [] = none
find_expected k (e ∷ expected) = if str_eq e.id k then some e else find_expected k expected

-- `str(v or default)`
abbrev pub text_or : String → String → String
text_or s default = if str_eq s "" then default else s

abbrev pub visibility_of : ExpectedTest → String
visibility_of e = text_or e.visibility "hidden"

unfoldable pub is_hidden : ExpectedTest → Bool
is_hidden e = str_eq (visibility_of e) "hidden"

unfoldable pub is_public : ExpectedTest → Bool
is_public e = str_eq (visibility_of e) "public"

abbrev pub category_is : Option String → String → Bool
category_is none s = false
category_is (some c) s = str_eq c s

abbrev pub has_id : String → List RunnerTest → Bool
has_id k tests = any_of (λ t. str_eq k t.id) tests

abbrev pub public_test : RunnerTest → ExpectedTest → Bool → PublicTest
public_test t e passed = record {
  test_id = t.id;
  name = text_or e.name t.id;
  passed = passed;
  expected = e.expected_output;
  actual = t.actual;
  error_category = t.error_category;
}

abbrev pub one_if : Bool → ℕ
one_if true = 1
one_if false = 0

-- What a judged test adds to `public_results` and `hidden_passed`.
unfoldable pub account :
    RunnerTest → ExpectedTest → List PublicTest × ℕ → Bool → List PublicTest × ℕ
account t e (shown, hidden_passed) passed =
    if is_public e
    then (shown ++ public_test t e passed ∷ [], hidden_passed)
    else (shown, hidden_passed + one_if passed)

abbrev pub accounted :
    RunnerTest → ExpectedTest → List PublicTest × ℕ → Result Bool → Result (List PublicTest × ℕ)
accounted t e counts (err x) = err x
accounted t e counts (ok passed) = ok (account t e counts passed)

abbrev pub terminal_of : String → ExecutionStatus
terminal_of s =
    if str_eq s "TIMEOUT" then timeout else if str_eq s "FAILED" then failed else completed

abbrev pub is_completed : ExecutionStatus → Bool
is_completed completed = true
is_completed _ = false

-- Some reported test is not of the question, or, where the run completed, some is left out.
unfoldable pub reports_unknown : List RunnerTest → List ExpectedTest → Bool
reports_unknown tests expected = any_of (λ t. is_none (find_expected t.id expected)) tests

unfoldable pub reports_omit : List RunnerTest → List ExpectedTest → Bool
reports_omit tests expected = any_of (λ e. not (has_id e.id tests)) expected

module _ (py : Python) where
  abbrev pub judge_output : RunnerTest → ExpectedTest → Result Bool
  judge_output t e =
      if not t.is_ok
      then ok false
      else compare_value py t.actual e.expected_output e.comparison e.expected_columns

  -- An expected output that is a text with the ending "Error" names the error that is expected.
  abbrev pub judge_expected : Json → RunnerTest → ExpectedTest → Result Bool
  judge_expected (str s) t e =
      if py.ends_with s "Error" then ok (category_is t.error_category s) else judge_output t e
  judge_expected _ t e = judge_output t e

  unfoldable pub judge_test : RunnerTest → ExpectedTest → Result Bool
  judge_test t e = judge_expected e.expected_output t e

  -- One turn of the loop; an unknown test would be a `KeyError`, and was refused before.
  unfoldable pub judge_found :
      RunnerTest → Option ExpectedTest → List PublicTest × ℕ → Result (List PublicTest × ℕ)
  judge_found t none counts = err trusted_result_error
  judge_found t (some e) counts =
      if not (str_eq t.visibility (visibility_of e))
      then err trusted_result_error
      else accounted t e counts (judge_test t e)

  unfoldable pub judge_tests :
      List ExpectedTest → List RunnerTest → List PublicTest × ℕ → Result (List PublicTest × ℕ)
  judge_tests expected [] counts = ok counts
  judge_tests expected (t ∷ tests) counts =
      continue (judge_found t (find_expected t.id expected) counts)
        (λ counts'. judge_tests expected tests counts')

  -- `candidate_message`
  unfoldable pub message_for : ExecutionStatus → ℕ → ℕ → String
  message_for completed passed total =
      if ltb 0 total && passed == total
      then "All evaluated tests passed."
      else if ltb 0 total
      then py.passed_message passed total
      else "Execution completed."
  message_for timeout passed total = "Execution exceeded the configured time limit."
  message_for _ passed total = "Execution failed inside the isolated runner."

  abbrev pub projection_of :
      SandboxExecutionResult → List ExpectedTest → List PublicTest × ℕ → TrustedExecutionProjection
  projection_of s expected (shown, hidden_passed) = record {
    execution_status = terminal_of s.status;
    runtime_ms = s.runtime_ms;
    exit_code = s.exit_code;
    error_category = s.error_category;
    public_results = shown;
    hidden_total = count_of is_hidden expected;
    hidden_passed = hidden_passed;
    stdout = s.stdout;
    stderr = s.stderr;
    candidate_message =
        message_for (terminal_of s.status) (count_of test_passed shown + hidden_passed)
          (length shown + count_of is_hidden expected);
  }

  unfoldable pub trusted_compare :
      SandboxExecutionResult → List ExpectedTest → Result TrustedExecutionProjection
  trusted_compare s expected =
      if reports_unknown s.tests expected
      then err trusted_result_error
      else if is_completed (terminal_of s.status) && reports_omit s.tests expected
      then err trusted_result_error
      else continue (judge_tests expected s.tests ([], 0))
          (λ counts. ok (projection_of s expected counts))
