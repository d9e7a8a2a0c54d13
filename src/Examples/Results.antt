-- ===== src/Examples/Results.antt =====
-- The theorems about the trusted comparison and the stored result, at a run of two tests.
use leetcode_platform.Prelude.{
  String, ◌≡◌, ◌≤◌, refl, true, false, none, some, List, [], ◌∷◌, count_of,
}
use leetcode_platform.Json.{Json, null, pos, end, bool}
use leetcode_platform.Execution.Status.{ExecutionStatus, ExecutionState, is_terminal}
use leetcode_platform.Execution.Store.{ExecutionRow, PublicTest}
use leetcode_platform.Execution.Columns.{is_jsonb}
use leetcode_platform.Execution.Persist.{
  TrustedExecutionProjection, persist_terminal_result, fits_request, fits_result, result_row,
}
use leetcode_platform.Execution.Action.{ok}
use leetcode_platform.Execution.Judge.{loaded, Python, strategy_of, compare_value, compare_by}
use leetcode_platform.Execution.Compare.{
  RunnerTest, SandboxExecutionResult, ExpectedTest, is_hidden, is_public, account, judge_test,
  judge_found, judge_tests, message_for, reports_unknown, reports_omit, trusted_compare,
}
use leetcode_platform.Execution.Compare.Loop.{AllPublic}
use leetcode_platform.Execution.Compare.Hidden.{visibilities_known, comparison_sound}
use leetcode_platform.Execution.Compare.Stored.{HasOutcome, compared_result_stored}
use leetcode_platform.Examples.{ten, dispatched_row, tables}

-- What the runner printed.
abbrev runner_report : Json
runner_report = null

-- A Python in which every value equals every other.
abbrev pub lenient : Python
lenient = record {
  equal = λ _ _. true;
  dumps = λ _. some "";
  words = λ _. "";
  text = λ _. "";
  text_before = λ _ _. true;
  to_float = λ _. some 0;
  is_tolerance = λ _. true;
  is_close = λ _ _ _. true;
  ends_with = λ _ _. false;
  passed_message = λ _ _. "";
  splitlines = λ s. s ∷ [];
  loads = λ _. loaded runner_report;
  uuid_text = λ _. "1";
  test_name = λ _. "test";
}

abbrev reported : String → String → RunnerTest
reported k visibility = record {
  id = k;
  visibility = visibility;
  is_ok = true;
  actual = bool true;
  error_category = none;
}

abbrev wanted : String → String → ExpectedTest
wanted k visibility = record {
  id = k;
  name = k;
  visibility = visibility;
  expected_output = bool true;
  expected_columns = none;
  comparison = end;
}

abbrev report : SandboxExecutionResult
report = record {
  execution_id = 1;
  attempt = 1;
  status = "COMPLETED";
  runtime_ms = 5;
  exit_code = pos 0;
  tests = reported "a" "public" ∷ reported "b" "hidden" ∷ [];
  stdout = "";
  stderr = "";
  error_category = none;
}

abbrev question : List ExpectedTest
question = wanted "a" "public" ∷ wanted "b" "hidden" ∷ []

abbrev shown : PublicTest
shown = record {
  test_id = "a";
  name = "a";
  passed = true;
  expected = bool true;
  actual = bool true;
  error_category = none;
}

abbrev pub outcome : TrustedExecutionProjection
outcome = record {
  execution_status = ExecutionStatus.completed;
  runtime_ms = 5;
  exit_code = pos 0;
  error_category = none;
  public_results = shown ∷ [];
  hidden_total = 1;
  hidden_passed = 1;
  stdout = "";
  stderr = "";
  candidate_message = "All evaluated tests passed.";
}

compare_works : trusted_compare lenient report question ≡ ok outcome
unfolding trusted_compare reports_unknown reports_omit judge_tests judge_found judge_test account
    is_public is_hidden message_for compare_value compare_by strategy_of
compare_works = refl

known : visibilities_known question ≡ true
unfolding is_public is_hidden
known = refl

comparison_sound_example :
    (is_terminal outcome.execution_status ≡ true)
    × AllPublic question outcome.public_results
    × (outcome.hidden_passed ≤ outcome.hidden_total)
    × (outcome.hidden_total ≡ count_of is_hidden question)
comparison_sound_example = comparison_sound lenient report question outcome refl known compare_works

abbrev running_row : ExecutionRow
running_row = record dispatched_row { state = ExecutionState.running }

outcome_fits : fits_request outcome ≡ true
unfolding fits_request
outcome_fits = refl

outcome_row_fits : fits_result (result_row 1 outcome) ≡ true
unfolding fits_result is_jsonb
outcome_row_fits = refl

compared_result_stored_example :
    ((persist_terminal_result ten 1 outcome (tables (running_row ∷ []))).0
      ≡ ok ExecutionStatus.completed)
    × HasOutcome ten 1 outcome (persist_terminal_result ten 1 outcome (tables (running_row ∷ []))).1
compared_result_stored_example =
    compared_result_stored lenient ten 1 report question outcome (tables (running_row ∷ []))
      running_row refl known compare_works refl refl outcome_fits outcome_row_fits
