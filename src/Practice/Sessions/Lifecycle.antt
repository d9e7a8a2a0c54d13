-- ===== src/Practice/Sessions/Lifecycle.antt =====
-- apps/api/src/rigor_api/practice.py: a session that was completed or abandoned stays as it is.
use mathlib.Core.Bool.{false≢true}
use leetcode_platform.Prelude.{
  ℕ, String, ◌≡◌, ◌≢◌, refl, sym, ◌∙◌, Bool, true, false, Option, none, some, List, arith, inl, inr,
  Bool-cases, Option-cases, find, modify, find-modify_ne,
}
use leetcode_platform.Json.{Json, str, obj, field, end}
use leetcode_platform.Execution.Store.{Clock}
use leetcode_platform.Practice.Tables.{PracticeDb, PracticeSessionState, SessionRow, session_value}
use leetcode_platform.Practice.Finalize.{session_id, append_session_event}
use leetcode_platform.Practice.Queueing.{is_closed}
use leetcode_platform.Practice.Sessions.{
  Method, Outcome, returns, raises, and_then, ◌>>=◌, rolled_back, in_transaction, found_or_fail,
  owned_by, session_of, for_owner, update_session, get_session, append_event, is_draft,
  session_event_type, commits, SessionPatch, patched, moved_session, patch, transition_session,
  fail_if, SessionError,
}

-- The work that a session records.
pub record SameWork (s t : SessionRow) : Type 0 where
  pub same_state : t.state ≡ s.state
  pub same_draft : t.draft_code ≡ s.draft_code
  pub same_notes : t.notes ≡ s.notes
  pub same_elapsed : t.elapsed_seconds ≡ s.elapsed_seconds
  pub same_completion : t.completed_at ≡ s.completed_at

-- The session `k` is there, closed, with the work that it had.
pub record Frozen (k : ℕ) (s : SessionRow) (rows : List SessionRow) : Type 0 where
  pub now : SessionRow
  pub there : find session_id k rows ≡ some now
  pub closed : is_closed now.state ≡ true
  pub work : SameWork s now

-- `m` keeps a property of the sessions.
pub record Keeps {A : Type 0} (P : List SessionRow → Type 0) (m : Method A) : Type 0 where
  pub at : (d : PracticeDb) → P d.sessions → P (m d).1.sessions

rolled_back-keeps :
    {A : Type 0} (P : List SessionRow → Type 0) (d : PracticeDb) (r : Outcome A × PracticeDb)
    → P d.sessions
    → P r.1.sessions
    → P (rolled_back d r).1.sessions
rolled_back-keeps P d (returns a, d') h h' = h'
rolled_back-keeps P d (raises e, d') h h' = h

found_or_fail-keeps :
    (P : List SessionRow → Type 0) (o : Option SessionRow) (d : PracticeDb)
    → P d.sessions
    → P (found_or_fail o d).1.sessions
found_or_fail-keeps P none d h = h
found_or_fail-keeps P (some s) d h = h

module _ {P : List SessionRow → Type 0} where
  and_then-keeps :
      {A B : Type 0} (r : Outcome A × PracticeDb) (f : A → Method B)
      → P r.1.sessions
      → ((a : A) → Keeps P (f a))
      → P (and_then r f).1.sessions
  and_then-keeps (returns a, d) f h kf = (kf a).at d h
  and_then-keeps (raises e, d) f h kf = h

  pub Keeps-bind :
      {A B : Type 0} (m : Method A) (f : A → Method B)
      → Keeps P m
      → ((a : A) → Keeps P (f a))
      → Keeps P (m >>= f)
  Keeps-bind m f km kf = record { at = λ d h. and_then-keeps (m d) f (km.at d h) kf }

  pub Keeps-in_transaction : {A : Type 0} (m : Method A) → Keeps P m → Keeps P (in_transaction m)
  Keeps-in_transaction m km = record { at = λ d h. rolled_back-keeps P d (m d) h (km.at d h) }

  pub Keeps-fail_if : (b : Bool) (e : SessionError) → Keeps P (fail_if b e)
  Keeps-fail_if true e = record { at = λ d h. h }
  Keeps-fail_if false e = record { at = λ d h. h }

  module _ (clock : Clock) (user : Option ℕ) where
    pub Keeps-get : (k : ℕ) → Keeps P (get_session clock user k)
    unfolding get_session
    Keeps-get k = record { at = λ d h. found_or_fail-keeps P (session_of user k d) d h }

    pub Keeps-append : (k : ℕ) (t : String) (p : Json) → Keeps P (append_event clock user k t p)
    unfolding append_event append_session_event
    Keeps-append k t p = Keeps-bind _ _ (Keeps-get k) (λ _. record { at = λ d h. h })

    pub Keeps-update :
        (k : ℕ) (f : SessionRow → SessionRow)
        → ((rows : List SessionRow) → P rows → P (modify session_id k (for_owner user f) rows))
        → Keeps P (update_session user k f)
    unfolding update_session
    Keeps-update k f h = record { at = λ d. h d.sessions }

for_owner-id :
    (user : Option ℕ) (f : SessionRow → SessionRow) (x : SessionRow)
    → (f x).id ≡ x.id
    → (for_owner user f x).id ≡ x.id
for_owner-id user f x h = ground arith

owned_same : (user : Option ℕ) (x c : SessionRow) → owned_by user (some x) ≡ some c → x ≡ c
owned_same user x c h = ground arith

moved_session-id :
    (clock : Clock) (t : PracticeSessionState) (x : SessionRow)
    → (moved_session clock t x).id ≡ x.id
unfolding moved_session
moved_session-id clock PracticeSessionState.in_progress x = refl
moved_session-id clock PracticeSessionState.paused x = refl
moved_session-id clock _ x = refl

patched-id : (clock : Clock) (p : SessionPatch) (x : SessionRow) → (patched clock p x).id ≡ x.id
unfolding patched
patched-id clock p x = refl

pub draft_live : (t : PracticeSessionState) → is_draft t ≡ true → is_closed t ≡ false
draft_live PracticeSessionState.completed h = cc
draft_live PracticeSessionState.abandoned h = cc
draft_live _ h = refl

-- What others commit during a call leaves the session `k` as it is.
abbrev pub IsFar : ℕ → (PracticeDb → PracticeDb) → Type 0
IsFar k others =
    (d : PracticeDb) → find session_id k (others d).sessions ≡ find session_id k d.sessions

module _ (user : Option ℕ) (k : ℕ) (s : SessionRow) where
  -- An UPDATE of another session.
  other-Frozen :
      (j : ℕ) (f : SessionRow → SessionRow)
      → ((x : SessionRow) → (f x).id ≡ x.id)
      → k ≢ j
      → (rows : List SessionRow) → Frozen k s rows
      → Frozen k s (modify session_id j (for_owner user f) rows)
  other-Frozen j f ids ne rows h = record {
    now = h.now;
    there =
        find-modify_ne session_id j k (for_owner user f) rows (λ x. for_owner-id user f x (ids x))
          ne
        ∙ h.there;
    closed = h.closed;
    work = h.work;
  }

  -- A closed session is not the one that a guard on its state let through.
  pub not_this :
      (j : ℕ) (d : PracticeDb) (c : SessionRow)
      → Frozen k s d.sessions
      → session_of user j d ≡ some c
      → is_closed c.state ≡ false
      → k ≢ j
  not_this j d c h found live same =
      let there : find session_id j d.sessions ≡ some h.now = rw (← same) h.there in
      let it : h.now ≡ c = owned_same user h.now c (rw there at found) in
      let shut : is_closed c.state ≡ true = rw (← it) h.closed in false≢true (sym live ∙ shut)

  pub far-Frozen :
      (others : PracticeDb → PracticeDb) → IsFar k others → Keeps (Frozen k s) (commits others)
  far-Frozen others far = record {
    at = λ d h. record { now = h.now; there = far d ∙ h.there; closed = h.closed; work = h.work };
  }

  -- A method that moves a session out of some states, none of which is closed.
  pub transition-Frozen :
      (clock : Clock) (others : PracticeDb → PracticeDb) (j : ℕ) (target : PracticeSessionState)
      (allowed : PracticeSessionState → Bool)
      → IsFar k others
      → ((t : PracticeSessionState) → allowed t ≡ true → is_closed t ≡ false)
      → Keeps (Frozen k s) (transition_session clock user others j target allowed)
  unfolding transition_session get_session
  transition-Frozen clock others j target allowed far barred = record {
    at = λ d h. elim (Option-cases (session_of user j d)) [
      | inl missing ↦ rw missing h
      | inr (c, found) ↦ elim (Bool-cases (allowed c.state)) [
        | inr refused ↦ rw (found, refused) h
        | inl may ↦
            let other = not_this j d c h found (barred c.state may) in
            rw (found, may)
              ((Keeps-bind _ _ (far-Frozen others far) λ _.
                  Keeps-bind _ _
                    (Keeps-update clock user j (moved_session clock target) (
                      other-Frozen j (moved_session clock target) (moved_session-id clock target)
                        other))
                    (λ _.
                      Keeps-bind _ _
                        (Keeps-append clock user j (session_event_type target) (
                          obj (
                            field "from" (str (session_value c.state))
                              (field "to" (str (session_value target)) end))))
                        (λ _. Keeps-get clock user j))).at
                d h)
      ]
    ];
  }

  pub patch-Frozen :
      (clock : Clock) (others : PracticeDb → PracticeDb) (j : ℕ) (p : SessionPatch)
      → IsFar k others
      → Keeps (Frozen k s) (patch clock user others j p)
  unfolding patch get_session
  patch-Frozen clock others j p far = record {
    at = λ d h. elim (Option-cases (session_of user j d)) [
      | inl missing ↦ rw missing h
      | inr (c, found) ↦ elim (Bool-cases (is_draft c.state)) [
        | inr refused ↦ rw (found, refused) h
        | inl may ↦
            let other = not_this j d c h found (draft_live c.state may) in
            rw (found, may)
              ((Keeps-bind _ _ (far-Frozen others far) λ _.
                  Keeps-bind _ _
                    (Keeps-update clock user j (patched clock p)
                      (other-Frozen j (patched clock p) (patched-id clock p) other))
                    (λ _. Keeps-get clock user j)).at
                d h)
      ]
    ];
  }
