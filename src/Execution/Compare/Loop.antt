-- ===== src/Execution/Compare/Loop.antt =====
-- apps/api/src/rigor_api/execution_results.py: what the loop of `trusted_compare` shows to the
-- candidate, and what it counts.
use leetcode_platform.Prelude.{
  ℕ, String, ◌≡◌, ◌≤◌, refl, Bool, true, false, Option, none, some, List, [], ◌∷◌, ◌++◌, ◌+◌, arith,
  All, inl, inr, Bool-cases, not, str_eq,
}
use leetcode_platform.Execution.Store.{PublicTest}
use leetcode_platform.Execution.Action.{Result, ok, err}
use leetcode_platform.Execution.Checked.{continue-ok}
use leetcode_platform.Execution.Judge.{Python}
use leetcode_platform.Execution.Compare.{
  RunnerTest, ExpectedTest, find_expected, is_public, account, accounted, judge_test, judge_found,
  judge_tests, public_test, visibility_of,
}

accounted-ok :
    (t : RunnerTest) (e : ExpectedTest) (c d : List PublicTest × ℕ) (r : Result Bool)
    → accounted t e c r ≡ ok d
    → (passed : Bool) × (d ≡ account t e c passed)
accounted-ok t e c d (ok passed) h = (passed, cc)
accounted-ok t e c d (err x) h = cc

-- The test is one of the question's that is public.
abbrev pub shown_public : List ExpectedTest → String → Bool
shown_public expected k = elim (find_expected k expected) [ none ↦ false | some e ↦ is_public e ]

abbrev pub hidden_found : Option ExpectedTest → ℕ
hidden_found none = 0
hidden_found (some e) = elim (is_public e) [ true ↦ 0 | false ↦ 1 ]

-- How many of the reported tests are not public.
abbrev pub hidden_reported : List ExpectedTest → List RunnerTest → ℕ
hidden_reported expected [] = 0
hidden_reported expected (t ∷ tests) =
    hidden_found (find_expected t.id expected) + hidden_reported expected tests

abbrev pub AllPublic : List ExpectedTest → List PublicTest → Type 0
AllPublic expected shown = All (λ p. shown_public expected p.test_id ≡ true) shown

All-append :
    {A : Type 0} (P : A → Type 0) (xs : List A) (y : A) → All P xs → P y → All P (xs ++ y ∷ [])
All-append P [] y h p = (p, tt)
All-append P (x ∷ xs) y h p = (h.0, All-append P xs y h.1 p)

module _ (py : Python) (expected : List ExpectedTest) where
  judge_found-ok :
      (t : RunnerTest) (o : Option ExpectedTest) (c d : List PublicTest × ℕ)
      → judge_found py t o c ≡ ok d
      → (e : ExpectedTest) × (passed : Bool) × (o ≡ some e) × (d ≡ account t e c passed)
  unfolding judge_found
  judge_found-ok t none c d h = cc
  judge_found-ok t (some e) c d h =
      elim (Bool-cases (not (str_eq t.visibility (visibility_of e)))) [
        | inl changed ↦ absurd (cc (rw changed at h))
        | inr same ↦
            let (passed, after) = accounted-ok t e c d (judge_test py t e) (rw same at h) in
            (e, passed, refl, after)
      ]

  account-public :
      (t : RunnerTest) (e : ExpectedTest) (c : List PublicTest × ℕ) (passed : Bool)
      → find_expected t.id expected ≡ some e
      → AllPublic expected c.0
      → AllPublic expected (account t e c passed).0
  unfolding account
  account-public t e (shown, n) passed found h = elim (Bool-cases (is_public e)) [
    | inl public ↦ rw public (
        All-append (λ p. shown_public expected p.test_id ≡ true) shown (public_test t e passed) h
          (rw (found, shown_public) public))
    | inr private ↦ rw private h
  ]

  account-hidden :
      (t : RunnerTest) (e : ExpectedTest) (c : List PublicTest × ℕ) (passed : Bool)
      → (account t e c passed).1 ≤ c.1 + hidden_found (some e)
  unfolding account
  account-hidden t e (shown, n) passed = ground arith

  -- The loop shows public tests alone, and counts at most the others.
  pub judge_tests_sound :
      (tests : List RunnerTest) (c d : List PublicTest × ℕ)
      → AllPublic expected c.0
      → judge_tests py expected tests c ≡ ok d
      → AllPublic expected d.0 × (d.1 ≤ c.1 + hidden_reported expected tests)
  unfolding judge_tests
  judge_tests_sound [] c d public h = let same : c ≡ d = cc in rw (← same) (public, omega arith)
  judge_tests_sound (t ∷ ts) c d public h =
      let (c', first, rest) =
        continue-ok (judge_found py t (find_expected t.id expected) c)
          (λ counts. judge_tests py expected ts counts) d h in
      let (e, passed, found, after) = judge_found-ok t (find_expected t.id expected) c c' first in
      let public' : AllPublic expected c'.0 = rw after (account-public t e c passed found public) in
      let (shown, count) = judge_tests_sound ts c' d public' rest in
      let step : c'.1 ≤ c.1 + hidden_found (find_expected t.id expected) =
        rw (after, found) (account-hidden t e c passed) in
      (shown, omega (arith, step, count))
