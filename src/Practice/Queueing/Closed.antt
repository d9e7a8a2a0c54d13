-- ===== src/Practice/Queueing/Closed.antt =====
-- apps/api/src/rigor_api/execution_api.py: a run or a submission that is queued leaves a closed
-- session as it is.
use leetcode_platform.Prelude.{
  ℕ, String, ◌≡◌, ◌≢◌, refl, ◌∙◌, Bool, Option, inl, inr, Bool-cases, Option-cases, find-modify_ne,
}
use leetcode_platform.Json.{str, obj, field, end}
use leetcode_platform.Execution.Store.{Clock}
use leetcode_platform.Practice.Tables.{PracticeDb, SessionRow}
use leetcode_platform.Practice.Finalize.{session_id}
use leetcode_platform.Practice.Queueing.{
  is_closed, update_by_id, run_row, submit_row, queue_run, queue_submit,
}
use leetcode_platform.Practice.Sessions.{
  Method, ◌>>=◌, ◌>>◌, session_of, get_session, is_draft, fail_if, not_executable,
}
use leetcode_platform.Practice.Sessions.Lifecycle.{
  Frozen, IsFar, Keeps, Keeps-bind, Keeps-fail_if, Keeps-append, far-Frozen, not_this, draft_live,
  transition-Frozen,
}

run_row-id : (clock : Clock) (source : String) (x : SessionRow) → (run_row clock source x).id ≡ x.id
unfolding run_row
run_row-id clock source x = refl

submit_row-id :
    (clock : Clock) (source : String) (x : SessionRow) → (submit_row clock source x).id ≡ x.id
unfolding submit_row
submit_row-id clock source x = refl

module _ (user : Option ℕ) (k : ℕ) (s : SessionRow) where
  any-Frozen :
      (j : ℕ) (f : SessionRow → SessionRow)
      → ((x : SessionRow) → (f x).id ≡ x.id)
      → k ≢ j
      → Keeps (Frozen k s) (update_by_id j f)
  unfolding update_by_id
  any-Frozen j f ids ne = record {
    at = λ d h. record {
      now = h.now;
      there = find-modify_ne session_id j k f d.sessions ids ne ∙ h.there;
      closed = h.closed;
      work = h.work;
    };
  }

  -- After the guard of a route that queues an execution: the session is another one.
  guarded-Frozen :
      {A : Type 0} (clock : Clock) (j : ℕ) (rest : Method A)
      → (k ≢ j → Keeps (Frozen k s) rest)
      → Keeps
          (Frozen k s)
          (get_session clock user j >>= λ c. fail_if (is_closed c.state) not_executable >> rest)
  unfolding get_session
  guarded-Frozen clock j rest past = record {
    at = λ d h. elim (Option-cases (session_of user j d)) [
      | inl missing ↦ rw missing h
      | inr (c, found) ↦ elim (Bool-cases (is_closed c.state)) [
        | inl shut ↦ rw (found, shut) h
        | inr live ↦ rw (found, live) ((past (not_this user k s j d c h found live)).at d h)
      ]
    ];
  }

  pub queue_run-Frozen :
      (clock : Clock) (others : PracticeDb → PracticeDb) (j : ℕ)
      (source execution_id runtime : String) (admitted : Bool)
      → IsFar k others
      → Keeps (Frozen k s) (queue_run clock user others j source execution_id runtime admitted)
  unfolding queue_run
  queue_run-Frozen clock others j source execution_id runtime admitted far =
      guarded-Frozen clock j _ (λ other. Keeps-bind _ _ (Keeps-fail_if _ _) λ _.
        Keeps-bind _ _ (far-Frozen user k s others far) λ _.
          Keeps-bind _ _ (any-Frozen j (run_row clock source) (run_row-id clock source) other) λ _.
            Keeps-append clock user j "CODE_RUN_QUEUED"
              (obj (field "execution_id" (str execution_id) (field "runtime" (str runtime) end))))

  pub queue_submit-Frozen :
      (clock : Clock) (others : PracticeDb → PracticeDb) (j : ℕ)
      (source execution_id submission_id runtime : String) (admitted : Bool)
      → IsFar k others
      → Keeps
          (Frozen k s)
          (queue_submit clock user others j source execution_id submission_id runtime admitted)
  unfolding queue_submit
  queue_submit-Frozen clock others j source execution_id submission_id runtime admitted far =
      guarded-Frozen clock j _ (λ other. Keeps-bind _ _ (Keeps-fail_if _ _) λ _.
        Keeps-bind _ _ (transition-Frozen user k s clock others j _ is_draft far draft_live) λ _.
          Keeps-bind _ _ (any-Frozen j (submit_row clock source) (submit_row-id clock source) other)
            λ _. Keeps-append clock user j "SUBMISSION_QUEUED" (
              obj (
                field "execution_id" (str execution_id)
                  (field "submission_id" (str submission_id) (field "runtime" (str runtime) end)))))
