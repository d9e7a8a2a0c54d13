-- ===== src/Execution/Judge.antt =====
-- apps/api/src/rigor_api/execution_results.py: how the output of one test is judged,
-- `_compare_value`, `_sql_result` and `_test_passed`. What Python's own values do is a parameter.
use leetcode_platform.Prelude.{
  ℕ, String, Bool, true, false, Option, none, some, List, [], ◌∷◌, ◌==◌, ◌&&◌, ◌||◌, not, coalesce,
  str_eq, if◌then◌else◌, sort_by,
}
use leetcode_platform.Json.{
  Json, Items, Fields, pos, null, bool, int, float, str, arr, obj, nil, cons, end, field, get,
}
use leetcode_platform.Execution.Status.{trusted_result_error, overflow_error}
use leetcode_platform.Execution.Action.{Result, ok, err}
use leetcode_platform.Execution.Checked.{◌>>=◌, or_raise}

-- What `json.loads` does: a value, a `JSONDecodeError`, or another `ValueError` (an integer of more
-- digits than Python converts).
pub data Loaded : Type 0 where
  loaded : Json → Loaded
  malformed too_long : Loaded

-- `==`; `json.dumps` with sorted keys, none where it raises; `" ".join(str(v).split())`; `str(v)` of
-- what is no text; the order of texts; `float(v)` as a bit pattern, none where it overflows;
-- `math.isfinite(t) and not t < 0`; `math.isclose(a, b, rel_tol=0.0, abs_tol=t)`; `endswith`; and
-- f"{a} of {b} evaluated tests passed."; `str.splitlines`; `json.loads`; `str(uuid)`; f"test-{n}".
pub record Python : Type 0 where
  pub equal : Json → Json → Bool
  pub dumps : Json → Option String
  pub words : Json → String
  pub text : Json → String
  pub text_before : String → String → Bool
  pub to_float : Json → Option ℕ
  pub is_tolerance : ℕ → Bool
  pub is_close : ℕ → ℕ → ℕ → Bool
  pub ends_with : String → String → Bool
  pub passed_message : ℕ → ℕ → String
  pub splitlines : String → List String
  pub loads : String → Loaded
  pub uuid_text : ℕ → String
  pub test_name : ℕ → String

-- `bool(v)`; the bit patterns are those of 0.0 and -0.0.
abbrev pub truthy : Json → Bool
truthy null = false
truthy (bool b) = b
truthy (int (pos n)) = not (n == 0)
truthy (int _) = true
truthy (float b) = not (b == 0 || b == 9223372036854775808)
truthy (str s) = not (str_eq s "")
truthy (arr nil) = false
truthy (arr _) = true
truthy (obj end) = false
truthy (obj _) = true

abbrev pub text_of : Python → Json → String
text_of py (str s) = s
text_of py v = py.text v

abbrev pub is_number : Json → Bool
is_number (int _) = true
is_number (float _) = true
is_number _ = false

abbrev pub keys : Fields → List String
keys end = []
keys (field k _ rest) = k ∷ keys rest

abbrev pub texts_equal : List String → List String → Bool
texts_equal [] [] = true
texts_equal (s ∷ ss) (t ∷ ts) = str_eq s t && texts_equal ss ts
texts_equal _ _ = false

module _ (py : Python) where
  -- `policy.get("strategy") or "exact"`
  unfoldable pub strategy_of : Fields → String
  strategy_of policy =
      let v = coalesce (get "strategy" policy) null in if truthy v then text_of py v else "exact"

  abbrev pub canonical_json : Json → Result String
  canonical_json v = or_raise (py.dumps v) (err trusted_result_error)

  unfoldable pub canonical_all : Items → Result (List String)
  canonical_all nil = ok []
  canonical_all (cons v rest) = do t ← canonical_json v; ts ← canonical_all rest; ok (t ∷ ts)

  -- `sorted(…) == sorted(…)` of the canonical texts.
  unfoldable pub same_bag : Items → Items → Result Bool
  same_bag actual expected = do
    xs ← canonical_all actual
    ys ← canonical_all expected
    ok (texts_equal (sort_by py.text_before xs) (sort_by py.text_before ys))

  -- The strategy "numeric_tolerance"; the default is the bit pattern of 1e-9.
  unfoldable pub compare_numbers : Json → Json → Fields → Result Bool
  compare_numbers actual expected policy =
      let raw = coalesce (get "tolerance" policy) (float 4472406533629990549) in
      if not (is_number raw) then err trusted_result_error else do
        tolerance ← or_raise (py.to_float raw) (err overflow_error)
        (if not (py.is_tolerance tolerance)
            then err trusted_result_error
            else if not (is_number actual && is_number expected)
            then ok false
            else do
              a ← or_raise (py.to_float actual) (err overflow_error)
              e ← or_raise (py.to_float expected) (err overflow_error)
              ok (py.is_close a e tolerance))

  abbrev pub column_texts : Items → List String
  column_texts nil = []
  column_texts (cons v rest) = text_of py v ∷ column_texts rest

  -- `[row.get(column) for column in columns]`
  abbrev pub row_values : List String → Fields → Items
  row_values [] row = nil
  row_values (c ∷ columns) row = cons (coalesce (get c row) null) (row_values columns row)

  abbrev pub row_before : Option Json → Option Items → Option Items
  row_before none _ = none
  row_before _ none = none
  row_before (some row) (some rows) = some (cons row rows)

  abbrev pub one_row : List String → Json → Option Json
  one_row columns (obj row) = some (arr (row_values columns row))
  one_row columns (arr row) = some (arr row)
  one_row columns _ = none

  -- The rows in the order of the columns, or none if one is neither an object nor an array.
  abbrev pub ordered_rows : List String → Items → Option Items
  ordered_rows columns nil = some nil
  ordered_rows columns (cons row rows) =
      row_before (one_row columns row) (ordered_rows columns rows)

  -- The columns of a list of rows: those that are expected, else the keys of the first row.
  abbrev pub columns_of : Option (List String) → Items → Option (List String)
  columns_of (some columns) rows = some columns
  columns_of none (cons (obj row) _) = some (keys row)
  columns_of none _ = none

  abbrev pub with_columns : Items → Option (List String) → Option (List String × Items)
  with_columns rows none = none
  with_columns rows (some columns) = elim (ordered_rows columns rows) [
    | none ↦ none
    | some ordered ↦ some (columns, ordered)
  ]

  abbrev pub table_of : Option Json → Option Json → Option (List String × Items)
  table_of (some (arr columns)) (some (arr rows)) = some (column_texts columns, rows)
  table_of _ _ = none

  unfoldable pub sql_result : Json → Option (List String) → Option (List String × Items)
  sql_result (obj fields) expected_columns = table_of (get "columns" fields) (get "rows" fields)
  sql_result (arr rows) expected_columns = with_columns rows (columns_of expected_columns rows)
  sql_result _ expected_columns = none

  abbrev pub compare_tables :
      Bool → Option (List String × Items) → Option (List String × Items) → Result Bool
  compare_tables unordered none _ = ok false
  compare_tables unordered _ none = ok false
  compare_tables unordered (some (columns, rows)) (some (columns', rows')) =
      if not (texts_equal columns columns')
      then ok false
      else if unordered
      then same_bag rows rows'
      else ok (py.equal (arr rows) (arr rows'))

  unfoldable pub compare_sql_result : Json → Json → Option (List String) → Bool → Result Bool
  compare_sql_result actual expected expected_columns unordered =
      compare_tables unordered (sql_result actual none) (sql_result expected expected_columns)

  abbrev pub compare_lists : Json → Json → Result Bool
  compare_lists (arr actual) (arr expected) = same_bag actual expected
  compare_lists _ _ = ok false

  unfoldable pub compare_by : String → Json → Json → Fields → Option (List String) → Result Bool
  compare_by strategy actual expected policy expected_columns =
      if str_eq strategy "exact" || str_eq strategy "json"
      then ok (py.equal actual expected)
      else if str_eq strategy "normalized_text"
      then ok (str_eq (py.words actual) (py.words expected))
      else if str_eq strategy "numeric_tolerance"
      then compare_numbers actual expected policy
      else if str_eq strategy "unordered"
      then compare_lists actual expected
      else if str_eq strategy "sql_ordered"
      then compare_sql_result actual expected expected_columns false
      else if str_eq strategy "sql_unordered"
      then compare_sql_result actual expected expected_columns true
      else err trusted_result_error

  unfoldable pub compare_value : Json → Json → Fields → Option (List String) → Result Bool
  compare_value actual expected policy = compare_by (strategy_of policy) actual expected policy
