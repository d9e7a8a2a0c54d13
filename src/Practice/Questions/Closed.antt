-- ===== src/Practice/Questions/Closed.antt =====
-- apps/api/src/rigor_api/practice.py: `create` and `next_hint` leave the work of a closed session.
use leetcode_platform.Prelude.{
  ℕ, String, ◌≡◌, ◌∙◌, Option, none, some, List, [], ◌∷◌, ◌==◌, ◌+◌, arith, inl, inr, Bool-cases,
  modify, find-modify_ne, find-modify_self, find-append_some, find_key, not,
}
use leetcode_platform.Json.{Fields}
use leetcode_platform.Execution.Store.{Clock}
use leetcode_platform.Execution.Judge.{Python}
use leetcode_platform.Practice.Tables.{SessionRow}
use leetcode_platform.Practice.Finalize.{session_id}
use leetcode_platform.Practice.Sessions.{for_owner, wrong_runtime}
use leetcode_platform.Practice.Sessions.Lifecycle.{
  SameWork, Frozen, Keeps, Keeps-bind, Keeps-get, Keeps-append, Keeps-update, Keeps-fail_if,
}
use leetcode_platform.Practice.Questions.{
  Catalogue, Question, SubmissionRuntime, create_session, create_new, next_hint, insert_session,
  hinted, found_question, runtime_or_fail, hint_or_fail, existing_session, runtime_value,
  same_runtime, question_runtime, question_hints, nth,
}

module _ (py : Python) (catalogue : Catalogue) (k : ℕ) (s : SessionRow) where
  -- An UPDATE that leaves the work of any session as it is.
  workless-Frozen :
      (j : ℕ) (g : SessionRow → SessionRow)
      → ((x : SessionRow) → (g x).id ≡ x.id)
      → ((x : SessionRow) → SameWork x (g x))
      → (rows : List SessionRow) → Frozen k s rows
      → Frozen k s (modify session_id j g rows)
  workless-Frozen j g ids same rows h = elim (Bool-cases (k == j)) [
    | inl hit ↦
        let this : k ≡ j = ground arith in
        let w = same h.now in
        rw (← this) (record {
          now = g h.now;
          there =
              find-modify_self session_id k g rows h.there
                (ids h.now ∙ find_key session_id k rows h.there);
          closed = rw w.same_state h.closed;
          work = record {
            same_state = w.same_state ∙ h.work.same_state;
            same_draft = w.same_draft ∙ h.work.same_draft;
            same_notes = w.same_notes ∙ h.work.same_notes;
            same_elapsed = w.same_elapsed ∙ h.work.same_elapsed;
            same_completion = w.same_completion ∙ h.work.same_completion;
          };
        })
    | inr miss ↦ record {
      now = h.now;
      there = find-modify_ne session_id j k g rows ids (ground arith) ∙ h.there;
      closed = h.closed;
      work = h.work;
    }
  ]

  hinted-SameWork :
      (clock : Clock) (user : Option ℕ) (n : ℕ) (x : SessionRow)
      → SameWork x (for_owner user (hinted py catalogue clock user n) x)
  hinted-SameWork clock user n x = ground arith

  hinted-id :
      (clock : Clock) (user : Option ℕ) (n : ℕ) (x : SessionRow)
      → (for_owner user (hinted py catalogue clock user n) x).id ≡ x.id
  hinted-id clock user n x = ground arith

  insert-Frozen :
      (clock : Clock) (user : Option ℕ) (x : SessionRow)
      → Keeps (Frozen k s) (insert_session py catalogue clock user x)
  unfolding insert_session
  insert-Frozen clock user x = record {
    at = λ d h. record {
      now = h.now;
      there = find-append_some session_id k d.sessions (x ∷ []) h.there;
      closed = h.closed;
      work = h.work;
    };
  }

  module _ (clock : Clock) (user : Option ℕ) where
    found_question-Frozen :
        (o : Option Question) → Keeps (Frozen k s) (found_question py catalogue clock user o)
    found_question-Frozen none = record { at = λ d h. h }
    found_question-Frozen (some q) = record { at = λ d h. h }

    runtime-Frozen :
        (o : Option SubmissionRuntime)
        → Keeps (Frozen k s) (runtime_or_fail py catalogue clock user o)
    runtime-Frozen none = record { at = λ d h. h }
    runtime-Frozen (some q) = record { at = λ d h. h }

    hint-Frozen : (o : Option Fields) → Keeps (Frozen k s) (hint_or_fail py catalogue clock user o)
    hint-Frozen none = record { at = λ d h. h }
    hint-Frozen (some q) = record { at = λ d h. h }

    existing-Frozen :
        (version : ℕ) (runtime : String)
        → Keeps (Frozen k s) (existing_session py catalogue clock user version runtime)
    existing-Frozen version runtime = record { at = λ d h. h }

    create_new-Frozen :
        (j : ℕ) (org : Option ℕ) (slug : String) (q : Question) (r : SubmissionRuntime)
        (o : Option SessionRow)
        → Keeps (Frozen k s) (create_new py catalogue clock user j org slug q r o)
    unfolding create_new
    create_new-Frozen j org slug q r (some x) = Keeps-get clock user x.id
    create_new-Frozen j org slug q r none =
        Keeps-bind _ _ (insert-Frozen clock user _)
          (λ _. Keeps-bind _ _ (Keeps-append clock user j _ _) (λ _. Keeps-get clock user j))

    pub create-Frozen :
        (j : ℕ) (org : Option ℕ) (slug : String) (r : SubmissionRuntime)
        → Keeps (Frozen k s) (create_session py catalogue clock user j org slug r)
    unfolding create_session
    create-Frozen j org slug r =
        Keeps-bind _ _ (found_question-Frozen (catalogue.published slug)) (λ q.
          Keeps-bind _ _ (runtime-Frozen (question_runtime py q.structured_content)) (λ runtime.
            Keeps-bind _ _ (Keeps-fail_if (not (same_runtime r runtime)) wrong_runtime) (λ _.
              Keeps-bind _ _ (existing-Frozen q.question_version_id (runtime_value runtime))
                (λ existing. create_new-Frozen j org slug q runtime existing))))

    pub next_hint-Frozen : (j : ℕ) → Keeps (Frozen k s) (next_hint py catalogue clock user j)
    unfolding next_hint
    next_hint-Frozen j = Keeps-bind _ _ (Keeps-get clock user j) (λ x.
        Keeps-bind _ _
          (found_question-Frozen (catalogue.published (catalogue.slug_of x.question_version_id)))
          (λ q.
            Keeps-bind _ _ (hint-Frozen (nth x.hint_count (question_hints q.structured_content)))
              (λ hint.
                Keeps-bind _ _
                  (Keeps-update clock user j _ (
                    workless-Frozen j
                      (for_owner user (hinted py catalogue clock user (x.hint_count + 1)))
                      (hinted-id clock user (x.hint_count + 1))
                      (hinted-SameWork clock user (x.hint_count + 1))))
                  (λ _.
                    Keeps-bind _ _ (Keeps-append clock user j _ _)
                      (λ _. record { at = λ d h. h })))))
