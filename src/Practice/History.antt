-- ===== src/Practice/History.antt =====
-- apps/api/src/rigor_api/practice.py and execution_submission.py: any sequence of calls on the
-- practice sessions, by any candidates and workers.
use mathlib.Core.Bool.{false≢true}
use leetcode_platform.Prelude.{
  ℕ, String, ◌≡◌, ◌≢◌, refl, sym, ◌∙◌, Bool, All, true, false, Option, none, some, List, [], ◌∷◌,
  inl, inr, Bool-cases, find, find-modify_ne,
}
use leetcode_platform.Json.{Json}
use leetcode_platform.Execution.Store.{Clock}
use leetcode_platform.Execution.Judge.{Python}
use leetcode_platform.Execution.Persist.{TrustedExecutionProjection}
use leetcode_platform.Execution.Package.{DispatchPackage}
use leetcode_platform.Practice.Tables.{PracticeDb, PracticeSessionState, SessionRow}
use leetcode_platform.Practice.Finalize.{
  Evaluator, session_id, append_session_event, is_evaluable, is_evaluable_row, completed_session,
  complete_session, store_evaluation, finalized, is_submit, has_result,
}
use leetcode_platform.Practice.Queueing.Closed.{queue_run-Frozen, queue_submit-Frozen}
use leetcode_platform.Practice.Queueing.{is_closed, queue_run, queue_submit}
use leetcode_platform.Practice.Sessions.{
  append_event, SessionPatch, patch, start_session, pause_session, resume_session,
  complete_by_candidate, in_transaction, is_created, is_in_progress, is_paused,
}
use leetcode_platform.Practice.Sessions.Lifecycle.{
  SameWork, Frozen, IsFar, Keeps-in_transaction, Keeps-append, transition-Frozen, patch-Frozen,
}
use leetcode_platform.Practice.Questions.Closed.{create-Frozen, next_hint-Frozen}
use leetcode_platform.Practice.Questions.{Catalogue, SubmissionRuntime, create_session, next_hint}

pub data Call : Type 0 where
  creates : ℕ → Option ℕ → String → SubmissionRuntime → Call
  starts pauses resumes completes hints : ℕ → Call
  patches : ℕ → SessionPatch → Call
  appends : ℕ → String → Json → Call
  runs : ℕ → String → String → String → Bool → Call
  submits : ℕ → String → String → String → String → Bool → Call
  finalizes : Evaluator → DispatchPackage → Option ℕ → TrustedExecutionProjection → Call

-- One call, with its clock, the candidate that makes it, and what others commit while it runs.
pub record Turn : Type 0 where
  pub clock : Clock
  pub user : Option ℕ
  pub others : PracticeDb → PracticeDb
  pub call : Call

module _ (py : Python) (catalogue : Catalogue) where
  -- The tables after a call.
  unfoldable pub called :
      Clock → Option ℕ → (PracticeDb → PracticeDb) → Call → PracticeDb → PracticeDb
  called clock user others (creates k organization_id slug runtime) d =
      (in_transaction (create_session py catalogue clock user k organization_id slug runtime) d).1
  called clock user others (starts k) d = (start_session clock user others k d).1
  called clock user others (pauses k) d = (pause_session clock user others k d).1
  called clock user others (resumes k) d = (resume_session clock user others k d).1
  called clock user others (completes k) d = (complete_by_candidate clock user others k d).1
  called clock user others (hints k) d = (in_transaction (next_hint py catalogue clock user k) d).1
  called clock user others (patches k p) d = (in_transaction (patch clock user others k p) d).1
  called clock user others (appends k t p) d = (in_transaction (append_event clock user k t p) d).1
  called clock user others (runs k source e runtime admitted) d =
      (in_transaction (queue_run clock user others k source e runtime admitted) d).1
  called clock user others (submits k source e o runtime admitted) d =
      (in_transaction (queue_submit clock user others k source e o runtime admitted) d).1
  called clock user others (finalizes ev pkg submission p) d = finalized ev clock pkg submission p d

  unfoldable pub run_calls : List Turn → PracticeDb → PracticeDb
  run_calls [] d = d
  run_calls (t ∷ turns) d = run_calls turns (called t.clock t.user t.others t.call d)

created_live : (t : PracticeSessionState) → is_created t ≡ true → is_closed t ≡ false
created_live PracticeSessionState.created h = refl
created_live _ h = cc

in_progress_live : (t : PracticeSessionState) → is_in_progress t ≡ true → is_closed t ≡ false
in_progress_live PracticeSessionState.in_progress h = refl
in_progress_live _ h = cc

paused_live : (t : PracticeSessionState) → is_paused t ≡ true → is_closed t ≡ false
paused_live PracticeSessionState.paused h = refl
paused_live _ h = cc

evaluable_live : (t : PracticeSessionState) → is_evaluable t ≡ true → is_closed t ≡ false
evaluable_live PracticeSessionState.submitted h = refl
evaluable_live PracticeSessionState.evaluating h = refl
evaluable_live _ h = cc

module _ (py : Python) (catalogue : Catalogue) (k : ℕ) (s : SessionRow) where
  complete_session-Frozen :
      (clock : Clock) (j : ℕ) (payload : Json) (d : PracticeDb)
      → Frozen k s d.sessions
      → Frozen k s (complete_session clock j payload d).sessions
  unfolding complete_session append_session_event
  complete_session-Frozen clock j payload d h =
      elim (Bool-cases (is_evaluable_row (find session_id j d.sessions))) [
        | inr closed ↦ rw closed h
        | inl live ↦ rw live (record {
          now = h.now;
          there =
              find-modify_ne session_id j k (completed_session clock) d.sessions (λ x. refl)
                (other j d h live)
              ∙ h.there;
          closed = h.closed;
          work = h.work;
        })
      ]
    where
      other :
          (j : ℕ) (d : PracticeDb)
          → Frozen k s d.sessions
          → is_evaluable_row (find session_id j d.sessions) ≡ true
          → k ≢ j
      other j d h live same =
          let there : find session_id j d.sessions ≡ some h.now = rw (← same) h.there in
          let now_live : is_evaluable h.now.state ≡ true = rw there at live in
          false≢true (sym (evaluable_live h.now.state now_live) ∙ h.closed)

  finalized-Frozen :
      (ev : Evaluator) (clock : Clock) (pkg : DispatchPackage) (o : Option ℕ)
      (p : TrustedExecutionProjection) (d : PracticeDb)
      → Frozen k s d.sessions
      → Frozen k s (finalized ev clock pkg o p d).sessions
  unfolding store_evaluation
  finalized-Frozen ev clock pkg none p d h = h
  finalized-Frozen ev clock pkg (some j) p d h = elim (Bool-cases (is_submit pkg.execution_type)) [
    | inr other ↦ rw other h
    | inl submitted ↦ elim (Bool-cases (has_result j d.results)) [
      | inl there ↦ rw (submitted, there) h
      | inr first ↦
          rw (submitted, first) (complete_session-Frozen clock pkg.practice_session_id _ _ h)
    ]
  ]

  called-Frozen :
      (clock : Clock) (user : Option ℕ) (others : PracticeDb → PracticeDb) (c : Call)
      (d : PracticeDb)
      → IsFar k others
      → Frozen k s d.sessions
      → Frozen k s (called py catalogue clock user others c d).sessions
  unfolding called start_session pause_session resume_session complete_by_candidate
  called-Frozen clock user others (creates j org slug r) d far =
      (Keeps-in_transaction _ (create-Frozen py catalogue k s clock user j org slug r)).at d
  called-Frozen clock user others (starts j) d far =
      (Keeps-in_transaction _
          (transition-Frozen user k s clock others j _ is_created far created_live)).at
        d
  called-Frozen clock user others (pauses j) d far =
      (Keeps-in_transaction _
          (transition-Frozen user k s clock others j _ is_in_progress far in_progress_live)).at
        d
  called-Frozen clock user others (resumes j) d far =
      (Keeps-in_transaction _
          (transition-Frozen user k s clock others j _ is_paused far paused_live)).at
        d
  called-Frozen clock user others (completes j) d far =
      (Keeps-in_transaction _
          (transition-Frozen user k s clock others j _ is_evaluable far evaluable_live)).at
        d
  called-Frozen clock user others (hints j) d far =
      (Keeps-in_transaction _ (next_hint-Frozen py catalogue k s clock user j)).at d
  called-Frozen clock user others (patches j p) d far =
      (Keeps-in_transaction _ (patch-Frozen user k s clock others j p far)).at d
  called-Frozen clock user others (appends j t p) d far =
      (Keeps-in_transaction {P = Frozen k s} _ (Keeps-append clock user j t p)).at d
  called-Frozen clock user others (runs j source e runtime admitted) d far =
      (Keeps-in_transaction _
          (queue_run-Frozen user k s clock others j source e runtime admitted far)).at
        d
  called-Frozen clock user others (submits j source e o runtime admitted) d far =
      (Keeps-in_transaction _
          (queue_submit-Frozen user k s clock others j source e o runtime admitted far)).at
        d
  called-Frozen clock user others (finalizes ev pkg o p) d far = finalized-Frozen ev clock pkg o p d

  run_calls-Frozen :
      (turns : List Turn) (d : PracticeDb)
      → All (λ t. IsFar k t.others) turns
      → Frozen k s d.sessions
      → Frozen k s (run_calls py catalogue turns d).sessions
  unfolding run_calls
  run_calls-Frozen [] d far h = h
  run_calls-Frozen (t ∷ turns) d far h =
      run_calls-Frozen turns (called py catalogue t.clock t.user t.others t.call d) far.1
        (called-Frozen t.clock t.user t.others t.call d far.0 h)

-- A practice session that was completed or abandoned keeps its state, its draft, its notes, its
-- elapsed time and its time of completion through any sequence of calls that start afterwards, by
-- any candidates, runs and submissions included, if what others commit between the statements of
-- a call leaves the row of this session as it is.
pub closed_session_keeps_work :
    (py : Python) (catalogue : Catalogue) (turns : List Turn) (d : PracticeDb) (k : ℕ)
    (s : SessionRow)
    → find session_id k d.sessions ≡ some s
    → is_closed s.state ≡ true
    → All (λ t. IsFar k t.others) turns
    → (t : SessionRow) × (find session_id k (run_calls py catalogue turns d).sessions ≡ some t)
      × SameWork s t
closed_session_keeps_work py catalogue turns d k s found closed far =
    let start : Frozen k s d.sessions = record {
      now = s;
      there = found;
      closed = closed;
      work = record {
        same_state = refl;
        same_draft = refl;
        same_notes = refl;
        same_elapsed = refl;
        same_completion = refl;
      };
    } in
    let end = run_calls-Frozen py catalogue k s turns d far start in (end.now, end.there, end.work)
