-- ===== src/Execution/Expected.antt =====
-- apps/api/src/rigor_api/execution_results.py: `load_expected_tests`, the trusted tests of a question,
-- and the comparison policy of each.
pub mod Implemented
pub mod Sound
use leetcode_platform.Prelude.{
  ℕ, zero, suc, String, Bool, true, false, Option, none, some, List, [], ◌∷◌, ◌++◌, ◌+◌, ◌&&◌, ◌||◌,
  not, coalesce, is_some, ltb, str_eq, if◌then◌else◌,
}
use leetcode_platform.Json.{Json, Items, Fields, null, str, arr, obj, nil, cons, end, field, get}
use leetcode_platform.Execution.Status.{trusted_result_error}
use leetcode_platform.Execution.Action.{Result, ok, err}
use leetcode_platform.Execution.Checked.{◌>>=◌, ◌>>◌, or_raise, refuse_if}
use leetcode_platform.Execution.Judge.{Python, truthy, text_of, column_texts}
use leetcode_platform.Execution.Compare.{ExpectedTest, find_expected}
use leetcode_platform.Execution.Runner.{
  get_or_null, object_dict, object_list, items_length, max_result_tests, is_text,
}

abbrev pub dict_or_else : Option Json → Result Fields → Result Fields
dict_or_else (some (obj mode)) other = ok mode
dict_or_else _ other = other

-- `_question_mode`
unfoldable pub question_mode : Fields → Result Fields
question_mode structured =
    dict_or_else (get "mode_specification" structured)
      (dict_or_else (get "type_specification" structured) (err trusted_result_error))

-- `_is_sql_mode`; a dialect that is a list or an object, for which Python raises a TypeError, counts as
-- another name here.
unfoldable pub is_sql_mode : Fields → Fields → Bool
is_sql_mode structured mode =
    is_text "sql_coding" (get_or_null "question_type" structured)
    || (is_text "postgresql" (get_or_null "dialect" mode)
        || is_text "postgresql18" (get_or_null "dialect" mode))

-- `strategy in SUPPORTED_COMPARISONS`
abbrev pub is_supported : String → Bool
is_supported s =
    str_eq s "exact"
    || (str_eq s "normalized_text"
        || (str_eq s "numeric_tolerance"
            || (str_eq s "json"
                || (str_eq s "unordered" || (str_eq s "sql_ordered" || str_eq s "sql_unordered")))))

abbrev pub default_strategy : Bool → String
default_strategy true = "sql_ordered"
default_strategy false = "exact"

-- `{**policy, key: value}`
abbrev pub set_field : String → Json → Fields → Fields
set_field k v end = field k v end
set_field k v (field j w rest) =
    if str_eq j k then field j v rest else field j w (set_field k v rest)

-- The names that a question of SQL may use for two of the strategies.
abbrev pub sql_name : Bool → String → String
sql_name false s = s
sql_name true s =
    if str_eq s "ordered"
    then "sql_ordered"
    else if str_eq s "unordered"
    then "sql_unordered"
    else s

unfoldable pub checked_policy : Bool → Fields → String → Result Fields
checked_policy sql policy strategy = do
  refuse_if (not (is_supported (sql_name sql strategy)))
  ok (set_field "strategy" (str (sql_name sql strategy)) policy)

-- `str(policy.get("strategy") or default_strategy)`
abbrev pub strategy_or : Python → String → Json → String
strategy_or py default v = if truthy v then text_of py v else default

-- `_comparison_policy` of the value under "comparison".
unfoldable pub comparison_policy : Python → Bool → Json → Result Fields
comparison_policy py sql null = ok (field "strategy" (str (default_strategy sql)) end)
comparison_policy py sql (str s) = checked_policy sql (field "strategy" (str s) end) s
comparison_policy py sql (obj policy) =
    checked_policy sql policy
      (strategy_or py (default_strategy sql) (get_or_null "strategy" policy))
comparison_policy py sql _ = err trusted_result_error

abbrev pub text_else : Json → String → String
text_else (str s) default = if str_eq s "" then default else s
text_else _ default = default

abbrev pub is_null : Json → Bool
is_null null = true
is_null _ = false

-- The columns that are expected, if the mode lists them.
abbrev pub columns_listed : Python → Json → Option (List String)
columns_listed py (arr columns) = some (column_texts py columns)
columns_listed py _ = none

module _ (py : Python) (sql : Bool) (top_level : Json) (columns : Option (List String)) where
  abbrev pub expected_output : Json → Json
  expected_output v = if sql && (is_null v && not (is_null top_level)) then top_level else v

  abbrev pub test_id_of : ℕ → Fields → String
  test_id_of index item = text_else (get_or_null "id" item) (py.test_name (index + 1))

  -- One item, where `expected` are the tests before it.
  unfoldable pub expected_test : ℕ → List ExpectedTest → Json → Result ExpectedTest
  expected_test index expected raw = do
    item ← object_dict raw
    refuse_if (is_some (find_expected (test_id_of index item) expected))
    policy ← comparison_policy py sql (get_or_null "comparison" item)
    ok (record {
      id = test_id_of index item;
      name = text_else (get_or_null "name" item) (test_id_of index item);
      visibility = if is_text "public" (get_or_null "visibility" item) then "public" else "hidden";
      expected_output = expected_output (get_or_null "expected_output" item);
      expected_columns = columns;
      comparison = policy;
    })

  -- The loop; the mapping keeps the order of insertion.
  unfoldable pub expected_tests : ℕ → List ExpectedTest → Items → Result (List ExpectedTest)
  expected_tests index expected nil = ok expected
  expected_tests index expected (cons raw rest) = do
    e ← expected_test index expected raw
    expected_tests (suc index) (expected ++ e ∷ []) rest

abbrev pub is_empty : Items → Bool
is_empty nil = true
is_empty _ = false

-- From `structured_content` of the question's version, or null where there is no such row.
unfoldable pub load_expected_tests : Python → Json → Result (List ExpectedTest)
load_expected_tests py content = do
  structured ← object_dict content
  mode ← question_mode structured
  tests ← object_list (get_or_null "tests" mode)
  refuse_if (is_empty tests || ltb max_result_tests (items_length tests))
  expected_tests py (is_sql_mode structured mode) (get_or_null "expected_result" mode)
      (columns_listed py (get_or_null "expected_output_columns" mode)) 0 [] tests
