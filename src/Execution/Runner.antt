-- ===== src/Execution/Runner.antt =====
-- apps/api/src/rigor_api/execution_results.py: `parse_runner_result`, which reads the report that the
-- sandbox printed to its log.
pub mod Parsed
use Prim.Native.Char.{code}
use Prim.Native.String
use leetcode_platform.Prelude.{
  ℕ, zero, suc, String, Bool, true, false, Option, none, some, List, [], ◌∷◌, ◌*◌, ◌==◌, ◌||◌, not,
  is_some, coalesce, ltb, str_eq, if◌then◌else◌,
}
use leetcode_platform.Json.{Json, Items, Fields, ℤ, pos, null, int, str, arr, obj, nil, cons, get}
use leetcode_platform.Execution.Status.{trusted_result_error, value_error}
use leetcode_platform.Execution.Action.{Result, ok, err}
use leetcode_platform.Execution.Checked.{◌>>=◌, ◌>>◌, refuse_if}
use leetcode_platform.Execution.Judge.{Python, Loaded, loaded, malformed, too_long, truthy, text_of}
use leetcode_platform.Execution.Compare.{RunnerTest, SandboxExecutionResult}

-- `mapping.get(key)`
abbrev pub get_or_null : String → Fields → Json
get_or_null k fields = coalesce (get k fields) null

-- `_object_dict`
abbrev pub object_dict : Json → Result Fields
object_dict (obj fields) = ok fields
object_dict _ = err trusted_result_error

-- `_object_list`
abbrev pub object_list : Json → Result Items
object_list (arr items) = ok items
object_list _ = err trusted_result_error

-- `_required_string`
abbrev pub required_string : Json → Result String
required_string (str s) = if str_eq s "" then err trusted_result_error else ok s
required_string _ = err trusted_result_error

-- `_optional_string`
abbrev pub optional_string : Json → Option String
optional_string (str s) = if str_eq s "" then none else some s
optional_string _ = none

-- `_nonnegative_int`
abbrev pub nonnegative_int : Json → Result ℕ
nonnegative_int (int (pos n)) = ok n
nonnegative_int _ = err trusted_result_error

-- `_positive_int`
unfoldable pub positive_int : Json → Result ℕ
positive_int v = do n ← nonnegative_int v; refuse_if (ltb n 1); ok n

abbrev pub any_int : Json → Result ℤ
any_int (int z) = ok z
any_int _ = err trusted_result_error

abbrev pub is_text : String → Json → Bool
is_text s (str t) = str_eq t s
is_text s _ = false

abbrev pub max_result_log_bytes : ℕ
max_result_log_bytes = 256 * 1024

abbrev pub max_result_tests : ℕ
max_result_tests = 200

abbrev pub max_public_stream_bytes : ℕ
max_public_stream_bytes = 64 * 1024

abbrev pub result_prefix : String
result_prefix = "RIGOR_EXECUTION_RESULT:"

-- `s[len(prefix):]` if `s` starts with the prefix.
abbrev pub after_prefix : String → String → Option String
after_prefix String.[] s = some s
after_prefix (String.◌∷◌ c p) String.[] = none
after_prefix (String.◌∷◌ c p) (String.◌∷◌ d s) = if code c == code d then after_prefix p s else none

-- `s[:n]`
abbrev pub text_take : ℕ → String → String
text_take zero s = String.[]
text_take (suc n) String.[] = String.[]
text_take (suc n) (String.◌∷◌ c s) = String.◌∷◌ c (text_take n s)

abbrev pub member : String → List String → Bool
member k [] = false
member k (s ∷ seen) = str_eq s k || member k seen

abbrev pub items_length : Items → ℕ
items_length nil = 0
items_length (cons _ rest) = suc (items_length rest)

abbrev pub payload_of : Loaded → Result Fields
payload_of (loaded v) = object_dict v
payload_of malformed = err trusted_result_error
payload_of too_long = err value_error

-- The last line with the prefix.
abbrev pub last_marked : List String → Option String
last_marked [] = none
last_marked (line ∷ lines) = elim (last_marked lines) [
  | some later ↦ some later
  | none ↦ after_prefix result_prefix line
]

abbrev pub is_terminal_text : String → Bool
is_terminal_text s = str_eq s "COMPLETED" || (str_eq s "FAILED" || str_eq s "TIMEOUT")

abbrev pub is_visibility : String → Bool
is_visibility s = str_eq s "public" || str_eq s "hidden"

-- One item of the report; `seen` are the ids before it.
unfoldable pub runner_test : List String → Json → Result RunnerTest
runner_test seen raw = do
  item ← object_dict raw
  test_id ← required_string (get_or_null "id" item)
  visibility ← required_string (get_or_null "visibility" item)
  refuse_if (member test_id seen)
  refuse_if (not (is_visibility visibility))
  ok (record {
    id = test_id;
    visibility = visibility;
    is_ok = truthy (get_or_null "ok" item);
    actual = get_or_null "actual" item;
    error_category = optional_string (get_or_null "error_category" item);
  })

unfoldable pub runner_tests : List String → Items → Result (List RunnerTest)
runner_tests seen nil = ok []
runner_tests seen (cons raw rest) = do
  t ← runner_test seen raw
  ts ← runner_tests (t.id ∷ seen) rest
  ok (t ∷ ts)

abbrev pub attempt_differs : Option ℕ → ℕ → Bool
attempt_differs none attempt = false
attempt_differs (some expected) attempt = not (attempt == expected)

module _ (py : Python) where
  -- `str(payload.get(key) or "")[:MAX_PUBLIC_STREAM_BYTES]`
  abbrev pub stream : Json → String
  stream v = if truthy v then text_take max_public_stream_bytes (text_of py v) else ""

  -- What is checked of the payload; Python's `==` holds between 1 and 1.0 or `True` as well.
  unfoldable pub read_payload : ℕ → Option ℕ → Fields → Result SandboxExecutionResult
  read_payload execution_id expected_attempt payload = do
    refuse_if (not (py.equal (get_or_null "schema_version" payload) (int (pos 1))))
    refuse_if (not (is_text (py.uuid_text execution_id) (get_or_null "execution_id" payload)))
    attempt ← positive_int (get_or_null "attempt" payload)
    refuse_if (attempt_differs expected_attempt attempt)
    status ← required_string (get_or_null "status" payload)
    refuse_if (not (is_terminal_text status))
    raw_tests ← object_list (get_or_null "tests" payload)
    refuse_if (ltb max_result_tests (items_length raw_tests))
    tests ← runner_tests [] raw_tests
    runtime_ms ← nonnegative_int (get_or_null "runtime_ms" payload)
    exit_code ← any_int (get_or_null "exit_code" payload)
    ok (record {
      execution_id = execution_id;
      attempt = attempt;
      status = status;
      runtime_ms = runtime_ms;
      exit_code = exit_code;
      tests = tests;
      stdout = stream (get_or_null "stdout" payload);
      stderr = stream (get_or_null "stderr" payload);
      error_category = optional_string (get_or_null "error_category" payload);
    })

  abbrev pub decode_marked : Option String → Result Fields
  decode_marked none = err trusted_result_error
  decode_marked (some s) = payload_of (py.loads s)

  -- `String.len` counts the bytes of the text in UTF-8.
  unfoldable pub parse_runner_result : String → ℕ → Option ℕ → Result SandboxExecutionResult
  parse_runner_result log_text execution_id expected_attempt = do
    refuse_if (ltb max_result_log_bytes (String.len log_text))
    payload ← decode_marked (last_marked (py.splitlines log_text))
    read_payload execution_id expected_attempt payload
