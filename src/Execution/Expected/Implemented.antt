-- ===== src/Execution/Expected/Implemented.antt =====
-- apps/api/src/rigor_api/execution_results.py: the strategies that `load_expected_tests` admits are
-- those that `_compare_value` carries out.
use leetcode_platform.Prelude.{
  String, ◌≡◌, refl, Bool, true, none, some, str_eq, eq_iff, inl, inr, either,
}
use leetcode_platform.Json.{Json, Fields, null, end}
use leetcode_platform.Execution.Action.{ok}
use leetcode_platform.Execution.Judge.{
  Python, compare_by, compare_numbers, compare_sql_result, sql_result,
}
use leetcode_platform.Execution.Expected.{is_supported}

-- A Python that turns every number into a float, and takes every float as a tolerance.
abbrev pub in_range : Python → Python
in_range py = record py { to_float = λ _. some 0; is_tolerance = λ _. true }

-- The comparison carries the strategy out: for some values it answers, and does not raise the error
-- that it has for an unknown strategy.
abbrev pub IsImplemented : Python → String → Type 0
IsImplemented py strategy =
    (actual expected : Json) × (policy : Fields) × (answer : Bool) × (compare_by (in_range py)
        strategy actual expected policy none
      ≡ ok answer)

module _ (py : Python) where
  exact-IsImplemented : IsImplemented py "exact"
  unfolding compare_by
  exact-IsImplemented = (null, null, end, py.equal null null, refl)

  json-IsImplemented : IsImplemented py "json"
  unfolding compare_by
  json-IsImplemented = (null, null, end, py.equal null null, refl)

  words-IsImplemented : IsImplemented py "normalized_text"
  unfolding compare_by
  words-IsImplemented = (null, null, end, str_eq (py.words null) (py.words null), refl)

  numbers-IsImplemented : IsImplemented py "numeric_tolerance"
  unfolding compare_by compare_numbers
  numbers-IsImplemented = (null, null, end, _, refl)

  bags-IsImplemented : IsImplemented py "unordered"
  unfolding compare_by
  bags-IsImplemented = (null, null, end, _, refl)

  tables-IsImplemented : IsImplemented py "sql_ordered"
  unfolding compare_by compare_sql_result sql_result
  tables-IsImplemented = (null, null, end, _, refl)

  table_bags-IsImplemented : IsImplemented py "sql_unordered"
  unfolding compare_by compare_sql_result sql_result
  table_bags-IsImplemented = (null, null, end, _, refl)

  named : (s t : String) → str_eq s t ≡ true → IsImplemented py t → IsImplemented py s
  named s t same there = rw ((eq_iff s t).0 same) there

  pub supported-IsImplemented : (s : String) → is_supported s ≡ true → IsImplemented py s
  supported-IsImplemented s h = elim (either (str_eq s "exact") _ h) [
    | inl is ↦ named s "exact" is exact-IsImplemented
    | inr h1 ↦ elim (either (str_eq s "normalized_text") _ h1) [
      | inl is ↦ named s "normalized_text" is words-IsImplemented
      | inr h2 ↦ elim (either (str_eq s "numeric_tolerance") _ h2) [
        | inl is ↦ named s "numeric_tolerance" is numbers-IsImplemented
        | inr h3 ↦ elim (either (str_eq s "json") _ h3) [
          | inl is ↦ named s "json" is json-IsImplemented
          | inr h4 ↦ elim (either (str_eq s "unordered") _ h4) [
            | inl is ↦ named s "unordered" is bags-IsImplemented
            | inr h5 ↦ elim (either (str_eq s "sql_ordered") _ h5) [
              | inl is ↦ named s "sql_ordered" is tables-IsImplemented
              | inr is ↦ named s "sql_unordered" is table_bags-IsImplemented
            ]
          ]
        ]
      ]
    ]
  ]
