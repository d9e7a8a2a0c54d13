-- ===== src/Practice/Finalize/Once.antt =====
-- apps/api/src/rigor_api/execution_submission.py: a submission is finalised once.
use leetcode_platform.Prelude.{
  ℕ, ◌≡◌, refl, true, Option, none, some, List, [], ◌∷◌, ◌++◌, arith, inl, inr, Bool-cases, ap,
}
use leetcode_platform.Json.{Json}
use leetcode_platform.Execution.Store.{Db, Clock}
use leetcode_platform.Execution.Action.{write, ok}
use leetcode_platform.Execution.Persist.{TrustedExecutionProjection}
use leetcode_platform.Execution.Package.{DispatchPackage}
use leetcode_platform.Practice.Tables.{PracticeDb, SubmissionResultRow}
use leetcode_platform.Practice.Finalize.{
  Evaluator, has_result, is_submit, finalized, finalize_submission, store_evaluation,
  complete_session, submission_result, append_session_event,
}

has_result-append :
    (k : ℕ) (results : List SubmissionResultRow) (r : SubmissionResultRow)
    → r.submission_id ≡ k
    → has_result k (results ++ r ∷ []) ≡ true
has_result-append k [] r h = ground arith
has_result-append k (x ∷ xs) r h = ground (arith, has_result-append k xs r)

complete_session-results :
    (clock : Clock) (session : ℕ) (payload : Json) (d : PracticeDb)
    → (complete_session clock session payload d).results ≡ d.results
unfolding complete_session append_session_event
complete_session-results clock session payload d = ground arith

module _ (ev : Evaluator) (clock : Clock) (pkg : DispatchPackage)
    (p : TrustedExecutionProjection) where
  stored-results :
      (k : ℕ) (d : PracticeDb)
      → (store_evaluation ev clock pkg k p d).results ≡ d.results ++ submission_result k p ∷ []
  unfolding store_evaluation
  stored-results k d = complete_session-results clock pkg.practice_session_id _ _

  stored-there :
      (k : ℕ) (d : PracticeDb) → has_result k (store_evaluation ev clock pkg k p d).results ≡ true
  stored-there k d =
      rw (stored-results k d) (has_result-append k d.results (submission_result k p) refl)

-- Where the result is there, nothing changes.
finalized-done :
    (ev : Evaluator) (clock : Clock) (pkg : DispatchPackage) (k : ℕ)
    (p : TrustedExecutionProjection) (d : PracticeDb)
    → has_result k d.results ≡ true
    → finalized ev clock pkg (some k) p d ≡ d
finalized-done ev clock pkg k p d there = elim (Bool-cases (is_submit pkg.execution_type)) [
  | inl submitted ↦ rw (submitted, there) refl
  | inr other ↦ rw other refl
]

module _ (ev ev' : Evaluator) (clock clock' : Clock) (pkg : DispatchPackage)
    (p p' : TrustedExecutionProjection) where
  finalized_twice :
      (o : Option ℕ) (d : PracticeDb)
      → finalized ev' clock' pkg o p' (finalized ev clock pkg o p d) ≡ finalized ev clock pkg o p d
  finalized_twice none d = refl
  finalized_twice (some k) d = elim (Bool-cases (is_submit pkg.execution_type)) [
    | inr other ↦ rw other refl
    | inl submitted ↦ elim (Bool-cases (has_result k d.results)) [
      | inl there ↦ rw (submitted, there, there) refl
      | inr first ↦ rw (submitted, first, stored-there ev clock pkg p k d) refl
    ]
  ]

  -- A submission is finalised once: doing it again, at any time and with any other projection,
  -- changes nothing, so the first result stands.
  pub finalize_once :
      (db : Db)
      → finalize_submission ev' clock' pkg p' (finalize_submission ev clock pkg p db).1
        ≡ (ok tt, (finalize_submission ev clock pkg p db).1)
  unfolding finalize_submission write
  finalize_once db =
      ap (λ d. (ok tt, record db { practice = d })) (finalized_twice pkg.submission_id db.practice)
