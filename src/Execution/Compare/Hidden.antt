-- ===== src/Execution/Compare/Hidden.antt =====
-- apps/api/src/rigor_api/execution_results.py: the projection that `trusted_compare` returns.
use leetcode_platform.Prelude.{
  String, ◌≡◌, ◌≤◌, refl, Bool, true, false, List, [], ◌∷◌, ◌+◌, arith, inl, inr, Bool-cases, not,
  str_eq, eq_iff, count_of, any_of, all_of, ◌&&◌, ◌||◌, if◌then◌else◌,
}
use leetcode_platform.Execution.Status.{is_terminal}
use leetcode_platform.Execution.Persist.{TrustedExecutionProjection}
use leetcode_platform.Execution.Action.{ok}
use leetcode_platform.Execution.Checked.{continue-ok}
use leetcode_platform.Execution.Judge.{Python}
use leetcode_platform.Execution.Compare.{
  RunnerTest, ExpectedTest, SandboxExecutionResult, has_id, is_hidden, is_public, is_completed,
  terminal_of, reports_unknown, reports_omit, judge_tests, projection_of, trusted_compare,
}
use leetcode_platform.Execution.Compare.Loop.{AllPublic, hidden_reported, judge_tests_sound}

-- No two of the reported tests have one id: `parse_runner_result` refuses a repeated one.
abbrev pub ids_unique : List RunnerTest → Bool
ids_unique [] = true
ids_unique (t ∷ tests) = not (has_id t.id tests) && ids_unique tests

-- Each test of the question is public or hidden, as `load_expected_tests` makes it.
abbrev pub visibilities_known : List ExpectedTest → Bool
visibilities_known expected = all_of (λ e. is_public e || is_hidden e) expected

none-count : {A : Type 0} (p : A → Bool) (xs : List A) → any_of p xs ≡ false → count_of p xs ≡ 0
none-count p [] h = omega arith
none-count p (x ∷ xs) h = ground (arith, none-count p xs)

unique-count :
    (k : String) (tests : List RunnerTest)
    → ids_unique tests ≡ true
    → count_of (λ t. str_eq k t.id) tests ≤ 1
unique-count k [] h = omega arith
unique-count k (t ∷ ts) h = elim (Bool-cases (str_eq k t.id)) [
  | inl hit ↦
      let same : k ≡ t.id = (eq_iff k t.id).0 hit in
      let fresh : has_id t.id ts ≡ false = ground arith in
      let zero_more : count_of (λ x. str_eq k x.id) ts ≡ 0 =
        rw same (none-count (λ x. str_eq t.id x.id) ts fresh) in
      ground arith
  | inr miss ↦ ground (arith, unique-count k ts)
]

one_more :
    (e : ExpectedTest) (es : List ExpectedTest) (tests : List RunnerTest)
    → hidden_reported (e ∷ es) tests
      ≤ (if is_public e then 0 else count_of (λ t. str_eq e.id t.id) tests)
        + hidden_reported es tests
one_more e es [] = ground arith
one_more e es (t ∷ ts) = ground (arith, one_more e es ts)

none_reported : (tests : List RunnerTest) → hidden_reported [] tests ≡ 0
none_reported [] = omega arith
none_reported (t ∷ ts) = omega (arith, none_reported ts)

-- Tests with different ids that are not public are at most as many as the hidden ones.
hidden_bound :
    (expected : List ExpectedTest) (tests : List RunnerTest)
    → ids_unique tests ≡ true
    → visibilities_known expected ≡ true
    → hidden_reported expected tests ≤ count_of is_hidden expected
hidden_bound [] tests u v = omega (arith, none_reported tests)
hidden_bound (e ∷ es) tests u v =
    ground (arith, one_more e es tests, unique-count e.id tests u, hidden_bound es tests u)

pub terminal-is_terminal : (s : String) → is_terminal (terminal_of s) ≡ true
terminal-is_terminal s = ground arith

-- A projection that is returned for reported tests with different ids and a question whose tests
-- are public or hidden has a terminal status, shows public tests alone, and has at most as many
-- hidden passes as the question has hidden tests, all of which it counts.
pub comparison_sound :
    (py : Python) (s : SandboxExecutionResult) (expected : List ExpectedTest)
    (p : TrustedExecutionProjection)
    → ids_unique s.tests ≡ true
    → visibilities_known expected ≡ true
    → trusted_compare py s expected ≡ ok p
    → (is_terminal p.execution_status ≡ true)
      × AllPublic expected p.public_results
      × (p.hidden_passed ≤ p.hidden_total)
      × (p.hidden_total ≡ count_of is_hidden expected)
unfolding trusted_compare
comparison_sound py s expected p unique known h =
    elim (Bool-cases (reports_unknown s.tests expected)) [
      | inl unknown ↦ absurd (cc (rw unknown at h))
      | inr fine ↦
          elim (Bool-cases (is_completed (terminal_of s.status) && reports_omit s.tests expected)) [
            | inl omitted ↦ absurd (cc (rw (fine, omitted) at h))
            | inr full ↦
                let (c, judged, last) =
                  continue-ok (judge_tests py expected s.tests ([], 0))
                    (λ c. ok (projection_of py s expected c)) p (rw (fine, full) at h) in
                let (shown, count) = judge_tests_sound py expected s.tests ([], 0) c tt judged in
                let same : projection_of py s expected c ≡ p = cc in
                let bound = hidden_bound expected s.tests unique known in
                rw (← same)
                  (terminal-is_terminal s.status, shown, omega (arith, count, bound), refl)
          ]
    ]
