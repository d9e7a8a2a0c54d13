-- ===== src/Execution/Package/Secrecy.antt =====
-- apps/api/src/rigor_api/execution_results.py: `sandbox_request` keeps the answers out of the sandbox.
use leetcode_platform.Prelude.{◌≡◌, ◌≤◌, refl, false, none, some, arith, ltb}
use leetcode_platform.Json.{Json, Items, Fields, pos, int, str, arr, obj, nil, cons, get}
use leetcode_platform.Execution.Action.{ok}
use leetcode_platform.Execution.Checked.{continue-ok, refuse_if-ok, ok-inj}
use leetcode_platform.Execution.Judge.{Python}
use leetcode_platform.Execution.Runner.{get_or_null, object_dict, object_list}
use leetcode_platform.Execution.Package.{
  DispatchPackage, has_answer, sanitized, language_fields, request_fields, sandbox_request,
}

-- A test that the sandbox may see.
pub data IsOpen : Json → Type 0 where
  without :
      (test : Fields)
      → get "expected_output" test ≡ none
      → get "expected" test ≡ none
      → IsOpen (obj test)

abbrev pub AllOpen : Items → Type 0
AllOpen nil = Unit
AllOpen (cons v rest) = IsOpen v × AllOpen rest

answerless :
    (test : Fields)
    → has_answer test ≡ false
    → (get "expected_output" test ≡ none) × (get "expected" test ≡ none)
answerless test h = ground arith

object_dict-ok : (v : Json) (fields : Fields) → object_dict v ≡ ok fields → v ≡ obj fields
object_dict-ok (obj x) fields h = cc
object_dict-ok _ fields h = cc

sanitized-AllOpen : (raw tests : Items) → sanitized raw ≡ ok tests → AllOpen tests × (tests ≡ raw)
unfolding sanitized
sanitized-AllOpen nil tests h = let same = ok-inj nil tests h in rw (← same) (tt, refl)
sanitized-AllOpen (cons v rest) tests h =
    let (test, is_obj, h1) = continue-ok (object_dict v) _ tests h in
    let (no_answer, h2) = refuse_if-ok (has_answer test) _ tests h1 in
    let (further, done, h3) = continue-ok (sanitized rest) _ tests h2 in
    let same = ok-inj (cons (obj test) further) tests h3 in
    let (clean, kept) = sanitized-AllOpen rest further done in
    let (no_output, no_expected) = answerless test no_answer in
    rw (← same)
      ((without test no_output no_expected, clean), rw (kept, object_dict-ok v test is_obj) refl)

listed_items : (v : Json) (items : Items) → object_list v ≡ ok items → v ≡ arr items
listed_items (arr x) items h = cc
listed_items _ items h = cc

-- A request for the sandbox hands on the tests of the payload as they are, and none of them has a key
-- "expected_output" or "expected"; it names the execution and its current attempt, which is at least
-- the first, and has the source code of the candidate.
pub request_open :
    (py : Python) (p : DispatchPackage) (request : Fields)
    → sandbox_request py p ≡ ok request
    → (tests : Items) × (get "tests" request ≡ some (arr tests))
      × (get_or_null "tests" p.input_payload ≡ arr tests)
      × AllOpen tests
      × (get "execution_id" request ≡ some (str (py.uuid_text p.execution_id)))
      × (get "attempt" request ≡ some (int (pos p.attempt_count)))
      × (get "source_code" request ≡ some (str p.source_code))
      × (1 ≤ p.attempt_count)
unfolding sandbox_request
request_open py p request h =
    let (raw, listed, h1) =
      continue-ok (object_list (get_or_null "tests" p.input_payload)) _ request h in
    let (tests, done, h2) = continue-ok (sanitized raw) _ request h1 in
    let (claimed, h3) = refuse_if-ok (ltb p.attempt_count 1) _ request h2 in
    let (rest, _, h4) = continue-ok (language_fields py p.language p.input_payload) _ request h3 in
    let same = ok-inj (request_fields py p tests rest) request h4 in
    let (clean, kept) = sanitized-AllOpen raw tests done in
    rw (← same) (
      tests,
      refl,
      rw kept (listed_items (get_or_null "tests" p.input_payload) raw listed),
      clean,
      refl,
      refl,
      refl,
      ground arith,
    )
