-- ===== src/Execution/Package.antt =====
-- apps/api/src/rigor_api/execution_results.py: `load_dispatch_package` and `sandbox_request`, what a
-- worker loads and what it hands to the sandbox.
pub mod Secrecy
use leetcode_platform.Prelude.{
  ℕ, String, Bool, true, false, Option, none, some, List, [], ◌∷◌, ◌==◌, ◌||◌, not, is_some, ltb,
  coalesce, str_eq, if◌then◌else◌,
}
use leetcode_platform.Json.{
  Json, Items, Fields, pos, null, int, str, arr, obj, nil, cons, end, field, get,
}
use leetcode_platform.Execution.Status.{ExecutionType, trusted_result_error}
use leetcode_platform.Execution.Store.{Db, ExecutionRow, PayloadRow, find_request}
use leetcode_platform.Execution.Action.{Result, ok, err}
use leetcode_platform.Execution.Checked.{◌>>=◌, ◌>>◌, or_raise, refuse_if}
use leetcode_platform.Execution.Judge.{Python, truthy, text_of}
use leetcode_platform.Execution.Runner.{get_or_null, object_dict, object_list}

pub record DispatchPackage : Type 0 where
  pub execution_id : ℕ
  pub organization_id : Option ℕ
  pub candidate_id : ℕ
  pub practice_session_id : ℕ
  pub submission_id : Option ℕ
  pub question_version_id : ℕ
  pub execution_type : ExecutionType
  pub runtime : String
  pub language : String
  pub source_code : String
  pub input_payload : Fields
  pub limits : Fields
  pub trace_id : String
  pub attempt_count : ℕ

abbrev pub find_payload : ℕ → List PayloadRow → Option PayloadRow
find_payload k [] = none
find_payload k (p ∷ payloads) =
    if p.execution_request_id == k then some p else find_payload k payloads

abbrev pub package_of : ExecutionRow → PayloadRow → ℕ → ℕ → DispatchPackage
package_of r p session candidate = record {
  execution_id = r.id;
  organization_id = r.organization_id;
  candidate_id = candidate;
  practice_session_id = session;
  submission_id = r.submission_id;
  question_version_id = r.question_version_id;
  execution_type = r.execution_type;
  runtime = r.runtime;
  language = r.language;
  source_code = p.source_code;
  input_payload = p.input_payload;
  limits = r.limits;
  trace_id = r.trace_id;
  attempt_count = r.attempt_count;
}

-- The join of the two tables, and the columns that may not be null.
unfoldable pub load_dispatch_package : ℕ → Db → Result DispatchPackage
load_dispatch_package k db = do
  r ← or_raise (find_request k db) (err trusted_result_error)
  p ← or_raise (find_payload k db.payloads) (err trusted_result_error)
  session ← or_raise r.practice_session_id (err trusted_result_error)
  candidate ← or_raise r.candidate_id (err trusted_result_error)
  ok (package_of r p session candidate)

abbrev pub has_answer : Fields → Bool
has_answer test = is_some (get "expected_output" test) || is_some (get "expected" test)

-- Each test as it is, where none brings an answer.
unfoldable pub sanitized : Items → Result Items
sanitized nil = ok nil
sanitized (cons raw rest) = do
  test ← object_dict raw
  refuse_if (has_answer test)
  tests ← sanitized rest
  ok (cons (obj test) tests)

abbrev pub text_field : Json → Result String
text_field (str s) = ok s
text_field _ = err trusted_result_error

abbrev pub int_field : Json → Result Json
int_field (int z) = ok (int z)
int_field _ = err trusted_result_error

module _ (py : Python) where
  -- `str(payload.get("entrypoint") or "solve")`
  abbrev pub entrypoint : Json → String
  entrypoint v = if truthy v then text_of py v else "solve"

  -- A text of blanks alone has no words.
  abbrev pub is_blank : String → Bool
  is_blank s = str_eq (py.words (str s)) ""

  unfoldable pub sql_fields : Fields → Result Fields
  sql_fields payload = do
    schema_sql ← text_field (get_or_null "schema_sql" payload)
    refuse_if (is_blank schema_sql)
    seed_sql ← text_field (coalesce (get "seed_sql" payload) (str ""))
    timeout_ms ← int_field (get_or_null "statement_timeout_ms" payload)
    ok (
        field "schema_sql" (str schema_sql)
          (field "seed_sql" (str seed_sql) (field "statement_timeout_ms" timeout_ms end)))

  -- The fields that depend on the language, which follow the others.
  unfoldable pub language_fields : String → Fields → Result Fields
  language_fields language payload =
      if str_eq language "python"
      then ok (field "entrypoint" (str (entrypoint (get_or_null "entrypoint" payload))) end)
      else if str_eq language "sql"
      then sql_fields payload
      else err trusted_result_error

  abbrev pub request_fields : DispatchPackage → Items → Fields → Fields
  request_fields p tests rest = field "schema_version" (int (pos 1)) (
      field "execution_id" (str (py.uuid_text p.execution_id)) (
        field "attempt" (int (pos p.attempt_count))
          (field "source_code" (str p.source_code) (field "tests" (arr tests) rest))))

  unfoldable pub sandbox_request : DispatchPackage → Result Fields
  sandbox_request p = do
    raw ← object_list (get_or_null "tests" p.input_payload)
    tests ← sanitized raw
    refuse_if (ltb p.attempt_count 1)
    rest ← language_fields p.language p.input_payload
    ok (request_fields p tests rest)
