-- ===== src/Practice/Sessions.antt =====
-- apps/api/src/rigor_api/practice.py: `PracticeSessionRepository` and the routes that move a session.
-- The candidate is the session setting `rigor.user_id`; a question is what the catalogue returns for
-- a slug, and its runtime, tests and hints are read off its JSON.
pub mod Lifecycle
use leetcode_platform.Prelude.{
  ℕ, zero, suc, String, Bool, true, false, Option, none, some, List, [], ◌∷◌, ◌++◌, ◌+◌, ◌==◌, ◌&&◌,
  not, null_id_eq, coalesce, leb, str_eq, find, modify, if◌then◌else◌, length,
}
use leetcode_platform.Json.{Json, ℤ, pos, int, str, obj, end, field}
use leetcode_platform.Execution.Store.{Clock}
use leetcode_platform.Practice.Tables.{
  PracticeDb, PracticeSessionState, SessionRow, SessionEvent, session_value,
}
use leetcode_platform.Practice.Finalize.{session_id, append_session_event, is_evaluable}

-- The exceptions of the repository.
pub data SessionError : Type 0 where
  not_found : SessionError
  cannot_transition : PracticeSessionState → PracticeSessionState → SessionError
  immutable : SessionError
  wrong_runtime : SessionError
  no_more_hints : SessionError
  not_executable : SessionError
  not_admitted : SessionError

pub data Outcome (A : Type 0) : Type 0 where
  returns : A → Outcome A
  raises : SessionError → Outcome A

-- A method inside the caller's transaction, which is rolled back where it raises.
abbrev pub Method : Type 0 → Type 0
Method A = PracticeDb → Outcome A × PracticeDb

abbrev pub and_then :
    {A B : Type 0} → Outcome A × PracticeDb → (A → Method B) → Outcome B × PracticeDb
and_then (returns a, d) f = f a d
and_then (raises e, d) f = (raises e, d)

infixl 5 ◌>>=◌ ◌>>◌
abbrev pub ◌>>=◌ : {A B : Type 0} → Method A → (A → Method B) → Method B
◌>>=◌ m f d = and_then (m d) f

abbrev pub ◌>>◌ : {A B : Type 0} → Method A → Method B → Method B
m >> k = m >>= λ _. k

abbrev pub return : {A : Type 0} → A → Method A
return a d = (returns a, d)

abbrev pub fail : {A : Type 0} → SessionError → Method A
fail e d = (raises e, d)

abbrev pub fail_if : Bool → SessionError → Method (Unit {0})
fail_if true e = fail e
fail_if false e = return tt

-- What other transactions commit between two statements of a method, which holds no lock.
abbrev pub commits : (PracticeDb → PracticeDb) → Method (Unit {0})
commits others d = (returns tt, others d)

abbrev pub rolled_back : {A : Type 0} → PracticeDb → Outcome A × PracticeDb → Outcome A × PracticeDb
rolled_back d (returns a, d') = (returns a, d')
rolled_back d (raises e, _) = (raises e, d)

-- `with principal_transaction(…)`
abbrev pub in_transaction : {A : Type 0} → Method A → Method A
in_transaction m d = rolled_back d (m d)

abbrev pub found_or_fail : Option SessionRow → Method SessionRow
found_or_fail none = fail not_found
found_or_fail (some s) = return s

abbrev pub owned_by : Option ℕ → Option SessionRow → Option SessionRow
owned_by user none = none
owned_by user (some s) = if null_id_eq s.candidate_id user then some s else none

abbrev pub session_of : Option ℕ → ℕ → PracticeDb → Option SessionRow
session_of user k d = owned_by user (find session_id k d.sessions)

-- `UPDATE practice_sessions SET f WHERE id = :session_id AND candidate_id = …`
abbrev pub for_owner : Option ℕ → (SessionRow → SessionRow) → SessionRow → SessionRow
for_owner user f s = if null_id_eq s.candidate_id user then f s else s

unfoldable pub update_session : Option ℕ → ℕ → (SessionRow → SessionRow) → Method (Unit {0})
update_session user k f d =
    (returns tt, record d { sessions = modify session_id k (for_owner user f) d.sessions })

abbrev pub is_draft : PracticeSessionState → Bool
is_draft PracticeSessionState.created = true
is_draft PracticeSessionState.in_progress = true
is_draft PracticeSessionState.paused = true
is_draft _ = false

-- The fields that are set, of a `PracticeSessionPatch`; each may be set to null.
pub record SessionPatch : Type 0 where
  pub draft_code : Option (Option String)
  pub notes : Option (Option String)
  pub elapsed_seconds : Option (Option ℕ)

abbrev pub touched : Clock → SessionRow → SessionRow
touched clock s = record s {
  last_activity_at = clock.current_timestamp;
  updated_at = clock.current_timestamp;
}

unfoldable pub patched : Clock → SessionPatch → SessionRow → SessionRow
patched clock p s = record s {
  draft_code = coalesce p.draft_code s.draft_code;
  notes = coalesce p.notes s.notes;
  elapsed_seconds = coalesce p.elapsed_seconds s.elapsed_seconds;
  last_activity_at = clock.current_timestamp;
  updated_at = clock.current_timestamp;
}

-- The timestamp column that the target sets.
unfoldable pub moved_session : Clock → PracticeSessionState → SessionRow → SessionRow
moved_session clock PracticeSessionState.in_progress s = record s {
  state = PracticeSessionState.in_progress;
  started_at = some (coalesce s.started_at clock.current_timestamp);
  last_activity_at = clock.current_timestamp;
  updated_at = clock.current_timestamp;
}
moved_session clock PracticeSessionState.paused s = record s {
  state = PracticeSessionState.paused;
  paused_at = some clock.current_timestamp;
  last_activity_at = clock.current_timestamp;
  updated_at = clock.current_timestamp;
}
moved_session clock PracticeSessionState.submitted s = record s {
  state = PracticeSessionState.submitted;
  submitted_at = some clock.current_timestamp;
  last_activity_at = clock.current_timestamp;
  updated_at = clock.current_timestamp;
}
moved_session clock PracticeSessionState.completed s = record s {
  state = PracticeSessionState.completed;
  completed_at = some clock.current_timestamp;
  last_activity_at = clock.current_timestamp;
  updated_at = clock.current_timestamp;
}
moved_session clock target s = record s {
  state = target;
  last_activity_at = clock.current_timestamp;
  updated_at = clock.current_timestamp;
}

-- f"SESSION_{target.value}"
abbrev pub session_event_type : PracticeSessionState → String
session_event_type PracticeSessionState.created = "SESSION_CREATED"
session_event_type PracticeSessionState.in_progress = "SESSION_IN_PROGRESS"
session_event_type PracticeSessionState.paused = "SESSION_PAUSED"
session_event_type PracticeSessionState.submitted = "SESSION_SUBMITTED"
session_event_type PracticeSessionState.evaluating = "SESSION_EVALUATING"
session_event_type PracticeSessionState.completed = "SESSION_COMPLETED"
session_event_type PracticeSessionState.abandoned = "SESSION_ABANDONED"

abbrev pub is_created : PracticeSessionState → Bool
is_created PracticeSessionState.created = true
is_created _ = false

abbrev pub is_in_progress : PracticeSessionState → Bool
is_in_progress PracticeSessionState.in_progress = true
is_in_progress _ = false

abbrev pub is_paused : PracticeSessionState → Bool
is_paused PracticeSessionState.paused = true
is_paused _ = false

module _ (clock : Clock) (user : Option ℕ) where
  unfoldable pub get_session : ℕ → Method SessionRow
  get_session k d = found_or_fail (session_of user k d) d

  -- `append_event`
  unfoldable pub append_event : ℕ → String → Json → Method (Unit {0})
  append_event k event_type payload = do
    get_session k
    (λ d. (returns tt, append_session_event k event_type payload d))

  unfoldable pub patch : (PracticeDb → PracticeDb) → ℕ → SessionPatch → Method SessionRow
  patch others k p = do
    current ← get_session k
    fail_if (not (is_draft current.state)) immutable
    commits others
    update_session user k (patched clock p)
    get_session k

  unfoldable pub transition_session :
      (PracticeDb → PracticeDb)
      → ℕ
      → PracticeSessionState
      → (PracticeSessionState → Bool)
      → Method SessionRow
  transition_session others k target allowed = do
    current ← get_session k
    fail_if (not (allowed current.state)) (cannot_transition current.state target)
    commits others
    update_session user k (moved_session clock target)
    append_event k (session_event_type target) (
        obj (
          field "from" (str (session_value current.state))
            (field "to" (str (session_value target)) end)))
    get_session k

  -- The routes `start`, `pause`, `resume` and `complete`.
  unfoldable pub start_session : (PracticeDb → PracticeDb) → ℕ → Method SessionRow
  start_session others k =
      in_transaction (transition_session others k PracticeSessionState.in_progress is_created)

  unfoldable pub pause_session : (PracticeDb → PracticeDb) → ℕ → Method SessionRow
  pause_session others k =
      in_transaction (transition_session others k PracticeSessionState.paused is_in_progress)

  unfoldable pub resume_session : (PracticeDb → PracticeDb) → ℕ → Method SessionRow
  resume_session others k =
      in_transaction (transition_session others k PracticeSessionState.in_progress is_paused)

  unfoldable pub complete_by_candidate : (PracticeDb → PracticeDb) → ℕ → Method SessionRow
  complete_by_candidate others k =
      in_transaction (transition_session others k PracticeSessionState.completed is_evaluable)
