-- ===== src/Execution/Runner/Parsed.antt =====
-- apps/api/src/rigor_api/execution_results.py: what holds of a report that `parse_runner_result`
-- returns.
use leetcode_platform.Prelude.{
  ◌||◌, either, ◌⊎◌, inl, inr, ◌≢◌, sym, ◌∙◌, ap, none, some, coalesce, Option-cases, Bool-cases,
  str_eq, eq_iff, ℕ, String, ◌≡◌, ◌≤◌, refl, Bool, true, false, Option, List, [], ◌∷◌, arith, ltb,
  not, any_of, length,
}
use leetcode_platform.Json.{Json, Items, Fields, nil, cons, int, pos, str, obj, null, get}
use leetcode_platform.Execution.Action.{ok}
use leetcode_platform.Execution.Checked.{continue-ok, refuse_if-ok, ok-inj}
use leetcode_platform.Execution.Judge.{Python, Loaded, loaded, malformed, too_long}
use leetcode_platform.Execution.Compare.{RunnerTest, SandboxExecutionResult, has_id}
use leetcode_platform.Execution.Compare.Hidden.{ids_unique}
use leetcode_platform.Execution.Runner.{
  member, runner_test, runner_tests, items_length, object_dict, object_list, required_string,
  get_or_null, is_visibility, attempt_differs, is_terminal_text, read_payload, parse_runner_result,
  nonnegative_int, any_int, positive_int, decode_marked, is_text, last_marked, max_result_tests,
  payload_of,
}

runner_test-fresh :
    (seen : List String) (raw : Json) (t : RunnerTest)
    → runner_test seen raw ≡ ok t
    → member t.id seen ≡ false
unfolding runner_test
runner_test-fresh seen raw t h =
    let (item, _, h1) = continue-ok (object_dict raw) _ t h in
    let (k, _, h2) = continue-ok (required_string (get_or_null "id" item)) _ t h1 in
    let (v, _, h3) = continue-ok (required_string (get_or_null "visibility" item)) _ t h2 in
    let (fresh, h4) = refuse_if-ok (member k seen) _ t h3 in
    let (_, h5) = refuse_if-ok (not (is_visibility v)) _ t h4 in ground (arith, h5, fresh)

-- Nothing in `tests` has an id among those seen before or another time in `tests`.
abbrev old_ids : List String → List RunnerTest → Bool
old_ids seen tests = any_of (λ t. member t.id seen) tests

old_ids-cons :
    (k : String) (seen : List String) (tests : List RunnerTest)
    → old_ids (k ∷ seen) tests ≡ false
    → (has_id k tests ≡ false) × (old_ids seen tests ≡ false)
old_ids-cons k seen [] h = (refl, refl)
old_ids-cons k seen (t ∷ ts) h = ground (arith, old_ids-cons k seen ts)

runner_tests_unique :
    (seen : List String) (items : Items) (tests : List RunnerTest)
    → runner_tests seen items ≡ ok tests
    → (ids_unique tests ≡ true) × (old_ids seen tests ≡ false) × (length tests ≡ items_length items)
unfolding runner_tests
runner_tests_unique seen nil [] h = (refl, refl, refl)
runner_tests_unique seen nil (t ∷ ts) h = cc
runner_tests_unique seen (cons raw rest) tests h =
    let (t, first, h1) = continue-ok (runner_test seen raw) _ tests h in
    let (ts, further, h2) = continue-ok (runner_tests (t.id ∷ seen) rest) _ tests h1 in
    let same : t ∷ ts ≡ tests = cc in
    let (unique, old, size) = runner_tests_unique (t.id ∷ seen) rest ts further in
    let (fresh, old') = old_ids-cons t.id seen ts old in
    let new = runner_test-fresh seen raw t first in
    rw (← same) (rw (fresh, unique) refl, rw (new, old') refl, omega (arith, size))

positive_int-ok : (v : Json) (n : ℕ) → positive_int v ≡ ok n → 1 ≤ n
unfolding positive_int
positive_int-ok v n h =
    let (m, _, h1) = continue-ok (nonnegative_int v) _ n h in
    let (small, h2) = refuse_if-ok (ltb m 1) _ n h1 in ground arith

of_not-false : (b : Bool) → not b ≡ false → b ≡ true
of_not-false true h = refl
of_not-false false h = cc

within : (n m : ℕ) → n ≡ m → ltb max_result_tests m ≡ false → n ≤ 200
within n m size few = ground arith

present :
    (k : String) (payload : Fields) (v : Json)
    → get_or_null k payload ≡ v
    → v ≢ null
    → get k payload ≡ some v
present k payload v same something = elim (Option-cases (get k payload)) [
  | inl missing ↦ absurd (something (sym same ∙ ap (λ o. coalesce o null) missing))
  | inr (w, found) ↦ found ∙ ap some (sym (ap (λ o. coalesce o null) found) ∙ same)
]

nonnegative_int-says : (v : Json) (n : ℕ) → nonnegative_int v ≡ ok n → v ≡ int (pos n)
nonnegative_int-says (int (pos m)) n h = cc
nonnegative_int-says _ n h = cc

required_string-says : (v : Json) (s : String) → required_string v ≡ ok s → v ≡ str s
required_string-says (str t) s h = elim (Bool-cases (str_eq t "")) [
  | inl empty ↦ cc (rw empty at h)
  | inr named ↦ cc (rw named at h)
]
required_string-says _ s h = cc

is_text-says : (s : String) (v : Json) → not (is_text s v) ≡ false → v ≡ str s
is_text-says s (str t) h = ap str ((eq_iff t s).0 (of_not-false (str_eq t s) h))
is_text-says s _ h = cc

same_attempt :
    (expected : Option ℕ) (n : ℕ)
    → attempt_differs expected n ≡ false
    → (expected ≡ none) ⊎ (expected ≡ some n)
same_attempt none n h = inl refl
same_attempt (some m) n h = inr (ap some (ground arith))

an_end :
    (s : String)
    → is_terminal_text s ≡ true
    → (s ≡ "COMPLETED") ⊎ ((s ≡ "FAILED") ⊎ (s ≡ "TIMEOUT"))
an_end s h = elim (either (str_eq s "COMPLETED") (str_eq s "FAILED" || str_eq s "TIMEOUT") h) [
  | inl completed ↦ inl ((eq_iff s "COMPLETED").0 completed)
  | inr other ↦ elim (either (str_eq s "FAILED") (str_eq s "TIMEOUT") other) [
    | inl failed ↦ inr (inl ((eq_iff s "FAILED").0 failed))
    | inr late ↦ inr (inr ((eq_iff s "TIMEOUT").0 late))
  ]
]

positive_int-says :
    (k : String) (payload : Fields) (n : ℕ)
    → positive_int (get_or_null k payload) ≡ ok n
    → (get k payload ≡ some (int (pos n))) × (1 ≤ n)
unfolding positive_int
positive_int-says k payload n h =
    let (m, read, h1) = continue-ok (nonnegative_int (get_or_null k payload)) _ n h in
    let (_, h2) = refuse_if-ok (ltb m 1) _ n h1 in
    let same = ok-inj m n h2 in
    (
      present k payload (int (pos n)) (nonnegative_int-says (get_or_null k payload) n (cc))
          (λ e. cc),
      positive_int-ok (get_or_null k payload) n h,
    )

-- What holds of a payload that is accepted and of the report that is read from it.
pub record IsAccepted (py : Python) (execution_id : ℕ) (expected : Option ℕ) (payload : Fields)
    (s : SandboxExecutionResult) : Type 0 where
  pub version : py.equal (get_or_null "schema_version" payload) (int (pos 1)) ≡ true
  pub own : get "execution_id" payload ≡ some (str (py.uuid_text execution_id))
  pub current : (expected ≡ none) ⊎ (expected ≡ some s.attempt)
  pub named : get "attempt" payload ≡ some (int (pos s.attempt))
  pub attempted : 1 ≤ s.attempt
  pub told : get "status" payload ≡ some (str s.status)
  pub ended : (s.status ≡ "COMPLETED") ⊎ ((s.status ≡ "FAILED") ⊎ (s.status ≡ "TIMEOUT"))
  pub unique : ids_unique s.tests ≡ true
  pub bounded : length s.tests ≤ 200

read_payload-IsAccepted :
    (py : Python) (k : ℕ) (expected : Option ℕ) (payload : Fields) (s : SandboxExecutionResult)
    → read_payload py k expected payload ≡ ok s
    → IsAccepted py k expected payload s
unfolding read_payload
read_payload-IsAccepted py k expected payload s h =
    let (version, h1) =
      refuse_if-ok (not (py.equal (get_or_null "schema_version" payload) (int (pos 1)))) _ s h in
    let (own, h2) =
      refuse_if-ok (not (is_text (py.uuid_text k) (get_or_null "execution_id" payload))) _ s h1 in
    let (attempt, positive, h3) =
      continue-ok (positive_int (get_or_null "attempt" payload)) _ s h2 in
    let (same, h4) = refuse_if-ok (attempt_differs expected attempt) _ s h3 in
    let (status, told, h5) = continue-ok (required_string (get_or_null "status" payload)) _ s h4 in
    let (known, h6) = refuse_if-ok (not (is_terminal_text status)) _ s h5 in
    let (raw, _, h7) = continue-ok (object_list (get_or_null "tests" payload)) _ s h6 in
    let (few, h8) = refuse_if-ok (ltb max_result_tests (items_length raw)) _ s h7 in
    let (tests, judged, h9) = continue-ok (runner_tests [] raw) _ s h8 in
    let (runtime_ms, _, h10) =
      continue-ok (nonnegative_int (get_or_null "runtime_ms" payload)) _ s h9 in
    let (exit_code, _, h11) = continue-ok (any_int (get_or_null "exit_code" payload)) _ s h10 in
    let (unique, _, size) = runner_tests_unique [] raw tests judged in
    let (named, least) = positive_int-says "attempt" payload attempt positive in
    let same_report = ok-inj _ s h11 in
    rw (← same_report) (record {
      version =
          of_not-false (py.equal (get_or_null "schema_version" payload) (int (pos 1))) version;
      own =
          present "execution_id" payload (str (py.uuid_text k))
            (is_text-says (py.uuid_text k) (get_or_null "execution_id" payload) own) (λ e. cc);
      current = same_attempt expected attempt same;
      named = named;
      attempted = least;
      told =
          present "status" payload (str status)
            (required_string-says (get_or_null "status" payload) status told) (λ e. cc);
      ended = an_end status (of_not-false (is_terminal_text status) known);
      unique = unique;
      bounded = within (length tests) (items_length raw) size few;
    })

-- What holds of a report that is accepted: the last marked line of the log is the JSON text of an
-- object that is accepted.
abbrev pub IsReport : Python → String → ℕ → Option ℕ → SandboxExecutionResult → Type 0
IsReport py log_text k expected s =
    (line : String) × (payload : Fields) × (last_marked (py.splitlines log_text) ≡ some line)
    × (py.loads line ≡ loaded (obj payload))
    × IsAccepted py k expected payload s

payload_of-ok :
    (l : Loaded) (payload : Fields) → payload_of l ≡ ok payload → l ≡ loaded (obj payload)
payload_of-ok (loaded (obj fields)) payload h = cc
payload_of-ok (loaded _) payload h = cc
payload_of-ok malformed payload h = cc
payload_of-ok too_long payload h = cc

decoded :
    (py : Python) (o : Option String) (payload : Fields)
    → decode_marked py o ≡ ok payload
    → (line : String) × (o ≡ some line) × (py.loads line ≡ loaded (obj payload))
decoded py none payload h = cc
decoded py (some line) payload h = (line, refl, payload_of-ok (py.loads line) payload h)

-- A report that is accepted is read from the last marked line of the log, a JSON object whose
-- "execution_id" is the text of the id asked for. Its attempt, at least the first and the one that
-- is expected, if one is, and its status, one of the three of an end, are those of the object. It
-- has at most 200 tests, no two of which have one id.
pub parse-IsReport :
    (py : Python) (log_text : String) (k : ℕ) (expected : Option ℕ) (s : SandboxExecutionResult)
    → parse_runner_result py log_text k expected ≡ ok s
    → IsReport py log_text k expected s
unfolding parse_runner_result
parse-IsReport py log_text k expected s h =
    let (_, h1) = refuse_if-ok _ _ s h in
    let (payload, decodes, h2) =
      continue-ok (decode_marked py (last_marked (py.splitlines log_text))) _ s h1 in
    let (line, marked, loads) = decoded py (last_marked (py.splitlines log_text)) payload decodes in
    (line, payload, marked, loads, read_payload-IsAccepted py k expected payload s h2)
