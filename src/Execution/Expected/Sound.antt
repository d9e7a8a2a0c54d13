-- ===== src/Execution/Expected/Sound.antt =====
-- apps/api/src/rigor_api/execution_results.py: what holds of the tests that `load_expected_tests`
-- returns.
use mathlib.Core.Bool.{false≢true}
use leetcode_platform.Prelude.{
  ℕ, String, ◌≡◌, ◌≤◌, refl, sym, ◌∙◌, Bool, true, false, Option, some, List, [], ◌∷◌, ◌++◌, suc,
  ◌+◌, arith, ltb, not, is_some, all_of, All, length, length-append, inl, inr, Bool-cases, str_eq,
  eq_iff, ◌||◌, ◌&&◌, if◌then◌else◌,
}
use leetcode_platform.Json.{
  Json, Items, Fields, null, bool, int, float, str, arr, obj, nil, cons, end, field, get,
}
use leetcode_platform.Execution.Action.{ok}
use leetcode_platform.Execution.Checked.{continue-ok, refuse_if-ok, ok-inj}
use leetcode_platform.Execution.Judge.{Python, strategy_of, truthy}
use leetcode_platform.Execution.Compare.{ExpectedTest, find_expected, text_or, is_public, is_hidden}
use leetcode_platform.Execution.Compare.Hidden.{visibilities_known}
use leetcode_platform.Execution.Runner.{
  get_or_null, object_dict, object_list, items_length, is_text, max_result_tests,
}
use leetcode_platform.Execution.Expected.Implemented.{IsImplemented, supported-IsImplemented}
use leetcode_platform.Execution.Expected.{
  is_supported, default_strategy, sql_name, set_field, checked_policy, comparison_policy,
  strategy_or, expected_test, expected_tests, test_id_of, question_mode, is_sql_mode,
  columns_listed, is_empty, load_expected_tests,
}

str_eq_comm : (a b : String) → str_eq a b ≡ str_eq b a
str_eq_comm a b = elim (Bool-cases (str_eq a b)) [
  | inl same ↦ same ∙ sym ((eq_iff b a).1 (sym ((eq_iff a b).0 same)))
  | inr differs ↦ elim (Bool-cases (str_eq b a)) [
    | inl same ↦ absurd (false≢true (sym differs ∙ (eq_iff a b).1 (sym ((eq_iff b a).0 same))))
    | inr other ↦ differs ∙ sym other
  ]
]

get-set_field : (k : String) (v : Json) (fields : Fields) → get k (set_field k v fields) ≡ some v
get-set_field k v end = rw ((eq_iff k k).1 refl) refl
get-set_field k v (field j w rest) = elim (Bool-cases (str_eq j k)) [
  | inl hit ↦ rw (hit, (eq_iff j k).1 ((eq_iff j k).0 hit)) refl
  | inr miss ↦ rw (miss, miss) (get-set_field k v rest)
]

-- A policy with a supported strategy.
abbrev pub is_policy : Python → Fields → Bool
is_policy py policy = is_supported (strategy_of py policy)

named_policy :
    (py : Python) (s : String) (policy : Fields)
    → get "strategy" policy ≡ some (str s)
    → is_supported s ≡ true
    → is_policy py policy ≡ true
unfolding strategy_of
named_policy py s policy found good = elim (Bool-cases (truthy (str s))) [
  | inl named ↦ rw (found, named) good
  | inr unnamed ↦ rw (found, unnamed) refl
]

checked_policy-is_policy :
    (py : Python) (sql : Bool) (policy checked : Fields) (strategy : String)
    → checked_policy sql policy strategy ≡ ok checked
    → is_policy py checked ≡ true
unfolding checked_policy
checked_policy-is_policy py sql policy checked strategy h =
    let name = sql_name sql strategy in
    let (good, h1) = refuse_if-ok (not (is_supported name)) _ checked h in
    let same = ok-inj (set_field "strategy" (str name) policy) checked h1 in
    rw (← same) (
      named_policy py name (set_field "strategy" (str name) policy)
        (get-set_field "strategy" (str name) policy) (ground arith))

default_policy :
    (py : Python) (sql : Bool)
    → is_policy py (field "strategy" (str (default_strategy sql)) end) ≡ true
unfolding strategy_of
default_policy py true = refl
default_policy py false = refl

comparison_policy-is_policy :
    (py : Python) (sql : Bool) (v : Json) (policy : Fields)
    → comparison_policy py sql v ≡ ok policy
    → is_policy py policy ≡ true
unfolding comparison_policy
comparison_policy-is_policy py sql null policy h =
    let same = ok-inj (field "strategy" (str (default_strategy sql)) end) policy h in
    rw (← same) (default_policy py sql)
comparison_policy-is_policy py sql (str s) policy h =
    checked_policy-is_policy py sql (field "strategy" (str s) end) policy s h
comparison_policy-is_policy py sql (obj fields) policy h =
    checked_policy-is_policy py sql fields policy
      (strategy_or py (default_strategy sql) (get_or_null "strategy" fields)) h
comparison_policy-is_policy py sql (bool _) policy h = cc
comparison_policy-is_policy py sql (int _) policy h = cc
comparison_policy-is_policy py sql (float _) policy h = cc
comparison_policy-is_policy py sql (arr _) policy h = cc

abbrev pub ids_distinct : List ExpectedTest → Bool
ids_distinct [] = true
ids_distinct (e ∷ expected) = not (is_some (find_expected e.id expected)) && ids_distinct expected

find_expected-append :
    (k : String) (expected : List ExpectedTest) (e : ExpectedTest)
    → is_some (find_expected k (expected ++ e ∷ []))
      ≡ (is_some (find_expected k expected) || str_eq e.id k)
find_expected-append k [] e = ground arith
find_expected-append k (x ∷ xs) e = ground (arith, find_expected-append k xs e)

ids_distinct-append :
    (expected : List ExpectedTest) (e : ExpectedTest)
    → ids_distinct expected ≡ true
    → is_some (find_expected e.id expected) ≡ false
    → ids_distinct (expected ++ e ∷ []) ≡ true
ids_distinct-append [] e h new = refl
ids_distinct-append (x ∷ xs) e h new =
    ground (arith, ids_distinct-append xs e, find_expected-append x.id xs e, str_eq_comm x.id e.id)

all_of-append :
    {A : Type 0} (p : A → Bool) (xs : List A) (y : A)
    → all_of p xs ≡ true
    → p y ≡ true
    → all_of p (xs ++ y ∷ []) ≡ true
all_of-append p [] y h new = ground arith
all_of-append p (x ∷ xs) y h new = ground (arith, all_of-append p xs y)

All-append :
    {A : Type 0} (P : A → Type 0) (xs : List A) (y : A) → All P xs → P y → All P (xs ++ y ∷ [])
All-append P [] y h new = (new, tt)
All-append P (x ∷ xs) y h new = (h.0, All-append P xs y h.1 new)

-- What holds of the tests of a question.
pub record IsQuestion (py : Python) (expected : List ExpectedTest) : Type 0 where
  pub known : visibilities_known expected ≡ true
  pub distinct : ids_distinct expected ≡ true
  pub supported : All (λ e. IsImplemented py (strategy_of py e.comparison)) expected

visible :
    (b : Bool)
    → (str_eq (text_or (if b then "public" else "hidden") "hidden") "public"
        || str_eq (text_or (if b then "public" else "hidden") "hidden") "hidden")
      ≡ true
visible true = refl
visible false = refl

module _ (py : Python) (sql : Bool) (top : Json) (columns : Option (List String)) where
  expected_test-new :
      (n : ℕ) (expected : List ExpectedTest) (raw : Json) (e : ExpectedTest)
      → expected_test py sql top columns n expected raw ≡ ok e
      → (is_some (find_expected e.id expected) ≡ false)
        × ((is_public e || is_hidden e) ≡ true)
        × (is_policy py e.comparison ≡ true)
  unfolding expected_test is_public is_hidden
  expected_test-new n expected raw e h =
      let (item, _, h1) = continue-ok (object_dict raw) _ e h in
      let (new, h2) =
        refuse_if-ok (is_some (find_expected (test_id_of py sql top columns n item) expected)) _ e
          h1 in
      let (policy, checked, h3) =
        continue-ok (comparison_policy py sql (get_or_null "comparison" item)) _ e h2 in
      let good =
        comparison_policy-is_policy py sql (get_or_null "comparison" item) policy checked in
      let same = ok-inj _ e h3 in
      rw (← same) (new, visible (is_text "public" (get_or_null "visibility" item)), good)

  expected_tests_sound :
      (items : Items) (n : ℕ) (expected final : List ExpectedTest)
      → IsQuestion py expected
      → expected_tests py sql top columns n expected items ≡ ok final
      → IsQuestion py final × (length final ≡ length expected + items_length items)
  unfolding expected_tests
  expected_tests_sound nil n expected final q h =
      let same = ok-inj expected final h in rw (← same) (q, omega arith)
  expected_tests_sound (cons raw rest) n expected final q h =
      let (e, checked, h1) =
        continue-ok (expected_test py sql top columns n expected raw) _ final h in
      let (new, visible_one, policy_one) = expected_test-new n expected raw e checked in
      let q' : IsQuestion py (expected ++ e ∷ []) = record {
        known = all_of-append (λ x. is_public x || is_hidden x) expected e q.known visible_one;
        distinct = ids_distinct-append expected e q.distinct new;
        supported =
            All-append (λ x. IsImplemented py (strategy_of py x.comparison)) expected e q.supported
              (supported-IsImplemented py (strategy_of py e.comparison) policy_one);
      } in
      let (sound, size) = expected_tests_sound rest (suc n) (expected ++ e ∷ []) final q' h1 in
      (sound, omega (arith, size, length-append {0} expected (e ∷ [])))

nonempty : (items : Items) → is_empty items ≡ false → 1 ≤ items_length items
nonempty nil h = cc
nonempty (cons v rest) h = omega arith

-- The tests that are loaded for a question are at least one and at most 200, have different ids, are
-- each public or hidden, and have each a strategy that the comparison carries out: it answers for some
-- values, where an unknown strategy raises for all.
pub load-IsQuestion :
    (py : Python) (content : Json) (expected : List ExpectedTest)
    → load_expected_tests py content ≡ ok expected
    → IsQuestion py expected × (1 ≤ length expected) × (length expected ≤ 200)
unfolding load_expected_tests
load-IsQuestion py content expected h =
    let (structured, _, h1) = continue-ok (object_dict content) _ expected h in
    let (mode, _, h2) = continue-ok (question_mode structured) _ expected h1 in
    let (tests, _, h3) = continue-ok (object_list (get_or_null "tests" mode)) _ expected h2 in
    let (fits, h4) =
      refuse_if-ok (is_empty tests || ltb max_result_tests (items_length tests)) _ expected h3 in
    let (sound, size) =
      expected_tests_sound py (is_sql_mode structured mode) (get_or_null "expected_result" mode)
        (columns_listed py (get_or_null "expected_output_columns" mode)) tests 0 [] expected
        (record { known = refl; distinct = refl; supported = tt }) h4 in
    let some_test = nonempty tests (ground arith) in
    (sound, omega (arith, size, some_test), ground (arith, size))
