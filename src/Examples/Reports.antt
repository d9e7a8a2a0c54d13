-- ===== src/Examples/Reports.antt =====
-- The theorems about what goes into a sandbox and what comes out of it, at a question of two tests.
use leetcode_platform.Prelude.{String, ◌≡◌, ◌≤◌, refl, true, none, some, List, [], ◌∷◌, length}
use leetcode_platform.Json.{
  Json, Fields, Items, null, pos, int, str, bool, arr, obj, end, field, nil, cons, get,
}
use leetcode_platform.Execution.Status.{run}
use leetcode_platform.Execution.Action.{ok}
use leetcode_platform.Execution.Judge.{Python, loaded}
use leetcode_platform.Execution.Compare.{ExpectedTest, RunnerTest, SandboxExecutionResult}
use leetcode_platform.Execution.Runner.{
  parse_runner_result, read_payload, runner_test, runner_tests, positive_int, get_or_null,
}
use leetcode_platform.Execution.Runner.Parsed.{IsReport, parse-IsReport}
use leetcode_platform.Execution.Expected.{
  load_expected_tests, question_mode, is_sql_mode, expected_tests, expected_test, comparison_policy,
  checked_policy,
}
use leetcode_platform.Execution.Expected.Sound.{IsQuestion, load-IsQuestion}
use leetcode_platform.Execution.Package.{
  DispatchPackage, sandbox_request, sanitized, language_fields,
}
use leetcode_platform.Execution.Package.Secrecy.{AllOpen, request_open}
use leetcode_platform.Examples.Results.{lenient}

-- One test as the runner reports it.
abbrev ran : String → String → Json
ran k visibility = obj (
    field "id" (str k) (
      field "visibility" (str visibility)
        (field "ok" (bool true) (field "actual" (int (pos 3)) end))))

abbrev printed : Fields
printed = field "schema_version" (int (pos 1)) (
    field "execution_id" (str "1") (
      field "attempt" (int (pos 2)) (
        field "status" (str "COMPLETED") (
          field "tests" (arr (cons (ran "a" "public") (cons (ran "b" "hidden") nil)))
            (field "runtime_ms" (int (pos 5)) (field "exit_code" (int (pos 0)) end))))))

-- A Python whose `json.loads` reads that report.
abbrev reader : Python
reader = record lenient { loads = λ _. loaded (obj printed) }

abbrev a_test : String → String → RunnerTest
a_test k visibility = record {
  id = k;
  visibility = visibility;
  is_ok = true;
  actual = int (pos 3);
  error_category = none;
}

abbrev read : SandboxExecutionResult
read = record {
  execution_id = 1;
  attempt = 2;
  status = "COMPLETED";
  runtime_ms = 5;
  exit_code = pos 0;
  tests = a_test "a" "public" ∷ a_test "b" "hidden" ∷ [];
  stdout = "";
  stderr = "";
  error_category = none;
}

parse_works : parse_runner_result reader "RIGOR_EXECUTION_RESULT:{}" 1 (some 2) ≡ ok read
unfolding parse_runner_result read_payload runner_tests runner_test positive_int
parse_works = refl

parse-IsReport_example : IsReport reader "RIGOR_EXECUTION_RESULT:{}" 1 (some 2) read
parse-IsReport_example =
    parse-IsReport reader "RIGOR_EXECUTION_RESULT:{}" 1 (some 2) read parse_works

-- The content of a question with one public and one hidden test.
abbrev content : Json
content = obj (
    field "mode_specification"
      (obj (
        field "tests"
          (arr (
            cons (obj (field "id" (str "a") (field "visibility" (str "public") end)))
              (cons (obj (field "comparison" (str "json") end)) nil)))
          end))
      end)

abbrev trusted : String → String → String → ExpectedTest
trusted k visibility strategy = record {
  id = k;
  name = k;
  visibility = visibility;
  expected_output = null;
  expected_columns = none;
  comparison = field "strategy" (str strategy) end;
}

abbrev two_tests : List ExpectedTest
two_tests = trusted "a" "public" "exact" ∷ trusted "test" "hidden" "json" ∷ []

load_works : load_expected_tests lenient content ≡ ok two_tests
unfolding load_expected_tests question_mode is_sql_mode expected_tests expected_test
    comparison_policy checked_policy
load_works = refl

load-IsQuestion_example :
    IsQuestion lenient two_tests × (1 ≤ length two_tests) × (length two_tests ≤ 200)
load-IsQuestion_example = load-IsQuestion lenient content two_tests load_works

abbrev sent_tests : Items
sent_tests = cons (obj (field "id" (str "a") end)) nil

abbrev pub sent : DispatchPackage
sent = record {
  execution_id = 1;
  organization_id = none;
  candidate_id = 7;
  practice_session_id = 3;
  submission_id = none;
  question_version_id = 5;
  execution_type = run;
  runtime = "python";
  language = "python";
  source_code = "print(1)";
  input_payload = field "tests" (arr sent_tests) end;
  limits = end;
  trace_id = "trace";
  attempt_count = 1;
}

abbrev asked : Fields
asked = field "schema_version" (int (pos 1)) (
    field "execution_id" (str "1") (
      field "attempt" (int (pos 1)) (
        field "source_code" (str "print(1)")
          (field "tests" (arr sent_tests) (field "entrypoint" (str "solve") end)))))

request_works : sandbox_request lenient sent ≡ ok asked
unfolding sandbox_request sanitized language_fields
request_works = refl

request_open_example :
    (tests : Items) × (get "tests" asked ≡ some (arr tests))
    × (get_or_null "tests" sent.input_payload ≡ arr tests)
    × AllOpen tests
    × (get "execution_id" asked ≡ some (str (lenient.uuid_text sent.execution_id)))
    × (get "attempt" asked ≡ some (int (pos sent.attempt_count)))
    × (get "source_code" asked ≡ some (str sent.source_code))
    × (1 ≤ sent.attempt_count)
request_open_example = request_open lenient sent asked request_works
