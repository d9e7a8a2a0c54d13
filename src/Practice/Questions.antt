-- ===== src/Practice/Questions.antt =====
-- apps/api/src/rigor_api/practice.py: what is read off the JSON of a published question, and the two
-- operations that need one, `create` and `next_hint`.
pub mod Closed
use leetcode_platform.Prelude.{
  ℕ, zero, suc, String, Bool, true, false, Option, none, some, List, [], ◌∷◌, ◌++◌, ◌+◌, ◌==◌, ◌&&◌,
  ◌||◌, not, is_some, null_id_eq, coalesce, leb, str_eq, find, if◌then◌else◌, length,
}
use leetcode_platform.Json.{
  Json, Items, Fields, ℤ, pos, null, int, str, arr, obj, nil, cons, end, field, get,
}
use leetcode_platform.Execution.Store.{Clock}
use leetcode_platform.Execution.Judge.{Python, truthy, text_of}
use leetcode_platform.Practice.Tables.{
  PracticeDb, PracticeSessionState, SessionRow, SessionEvent, session_value,
}
use leetcode_platform.Practice.Finalize.{session_id, append_session_event}
use leetcode_platform.Practice.Sessions.{
  Method, Outcome, returns, raises, ◌>>=◌, ◌>>◌, return, fail, fail_if, not_found, wrong_runtime,
  no_more_hints, get_session, append_event, update_session, in_transaction, is_draft,
}

pub data SubmissionRuntime : Type 0 where
  python postgresql : SubmissionRuntime

abbrev pub runtime_value : SubmissionRuntime → String
runtime_value python = "python"
runtime_value postgresql = "postgresql"

abbrev pub same_runtime : SubmissionRuntime → SubmissionRuntime → Bool
same_runtime python python = true
same_runtime postgresql postgresql = true
same_runtime _ _ = false

-- A row of `published_question_payload`.
pub record Question : Type 0 where
  pub question_version_id : ℕ
  pub structured_content : Json

-- The published questions by their slugs, and the slug of a version's question.
pub record Catalogue : Type 0 where
  pub published : String → Option Question
  pub slug_of : ℕ → String

abbrev pub content_of : Json → Fields
content_of (obj fields) = fields
content_of _ = end

abbrev pub dict_or : Option Json → Fields → Fields
dict_or (some (obj fields)) other = fields
dict_or _ other = other

-- `question_mode`
unfoldable pub question_mode : Json → Fields
question_mode structured =
    dict_or (get "mode_specification" (content_of structured))
      (dict_or (get "type_specification" (content_of structured)) end)

abbrev pub objects_in : Items → List Fields
objects_in nil = []
objects_in (cons (obj fields) rest) = fields ∷ objects_in rest
objects_in (cons _ rest) = objects_in rest

abbrev pub listed : Json → List Fields
listed (arr items) = objects_in items
listed _ = []

-- `question_hints`
unfoldable pub question_hints : Json → List Fields
question_hints structured = listed (coalesce (get "hints" (content_of structured)) (arr nil))

abbrev pub nth : {A : Type 0} → ℕ → List A → Option A
nth n [] = none
nth zero (x ∷ xs) = some x
nth (suc n) (x ∷ xs) = nth n xs

module _ (py : Python) where
  -- `str(mapping.get(key) or "")`
  abbrev pub text_at : String → Fields → String
  text_at k fields = let v = coalesce (get k fields) null in if truthy v then text_of py v else ""

  -- `question_runtime`; none is the `PracticeStateTransitionError`.
  unfoldable pub question_runtime : Json → Option SubmissionRuntime
  question_runtime structured =
      let question_type = text_at "question_type" (content_of structured) in
      let dialect = text_at "dialect" (question_mode structured) in
      let runtime = text_at "runtime" (question_mode structured) in
      if str_eq question_type "sql_coding"
        || (str_eq dialect "postgresql" || str_eq dialect "postgresql18")
      then some postgresql
      else if str_eq question_type "python_coding"
          || (str_eq runtime "3.13" || str_eq runtime "python3.13")
      then some python
      else none

  abbrev pub first_text : String → String → String
  first_text s t = if str_eq s "" then t else s

  -- `starter_source`
  unfoldable pub starter_source : Json → SubmissionRuntime → String
  starter_source structured python = text_at "starter_code" (question_mode structured)
  starter_source structured postgresql =
      first_text (text_at "starter_sql" (question_mode structured)) (
        first_text (text_at "starter_code" (question_mode structured))
          "-- Write your PostgreSQL 18 query here.\n")

  module _ (catalogue : Catalogue) (clock : Clock) (user : Option ℕ) where
    abbrev pub found_question : Option Question → Method Question
    found_question none = fail not_found
    found_question (some q) = return q

    abbrev pub runtime_or_fail : Option SubmissionRuntime → Method SubmissionRuntime
    runtime_or_fail none = fail wrong_runtime
    runtime_or_fail (some r) = return r

    -- A session of the candidate that is still worked on, the last one updated first.
    abbrev pub is_open_for : ℕ → String → SessionRow → Bool
    is_open_for version runtime s =
        null_id_eq s.candidate_id user
        && (s.question_version_id == version && (str_eq s.runtime runtime && is_draft s.state))

    abbrev pub later_of : SessionRow → Option SessionRow → Option SessionRow
    later_of s none = some s
    later_of s (some t) = if leb t.updated_at s.updated_at then some s else some t

    abbrev pub open_session : ℕ → String → List SessionRow → Option SessionRow
    open_session version runtime [] = none
    open_session version runtime (s ∷ sessions) =
        let rest = open_session version runtime sessions in
        if is_open_for version runtime s then later_of s rest else rest

    abbrev pub new_session : ℕ → Option ℕ → ℕ → String → String → SessionRow
    new_session k organization_id version runtime draft = record {
      id = k;
      candidate_id = user;
      organization_id = organization_id;
      question_version_id = version;
      state = PracticeSessionState.in_progress;
      runtime = runtime;
      draft_code = some draft;
      notes = none;
      elapsed_seconds = some 0;
      hint_count = 0;
      run_count = 0;
      submission_count = 0;
      started_at = some clock.current_timestamp;
      paused_at = none;
      submitted_at = none;
      completed_at = none;
      last_activity_at = clock.current_timestamp;
      updated_at = clock.current_timestamp;
    }

    unfoldable pub insert_session : SessionRow → Method (Unit {0})
    insert_session s d = (returns tt, record d { sessions = d.sessions ++ s ∷ [] })

    abbrev pub existing_session : ℕ → String → Method (Option SessionRow)
    existing_session version runtime d = (returns (open_session version runtime d.sessions), d)

    -- What `create` does where no session is open; `k` is the identifier that the database makes.
    unfoldable pub create_new :
        ℕ → Option ℕ → String → Question → SubmissionRuntime → Option SessionRow → Method SessionRow
    create_new k organization_id slug q runtime (some s) = get_session clock user s.id
    create_new k organization_id slug q runtime none = do
      insert_session (
          new_session k organization_id q.question_version_id (runtime_value runtime)
            (starter_source q.structured_content runtime))
      append_event clock user k "SESSION_STARTED" (
          obj
            (field "question_slug" (str slug) (field "runtime" (str (runtime_value runtime)) end)))
      get_session clock user k

    unfoldable pub create_session : ℕ → Option ℕ → String → SubmissionRuntime → Method SessionRow
    create_session k organization_id slug requested = do
      q ← found_question (catalogue.published slug)
      runtime ← runtime_or_fail (question_runtime q.structured_content)
      fail_if (not (same_runtime requested runtime)) wrong_runtime
      existing ← existing_session q.question_version_id (runtime_value runtime)
      create_new k organization_id slug q runtime existing

    abbrev pub hinted : ℕ → SessionRow → SessionRow
    hinted count s = record s {
      hint_count = count;
      last_activity_at = clock.current_timestamp;
      updated_at = clock.current_timestamp;
    }

    abbrev pub hint_or_fail : Option Fields → Method Fields
    hint_or_fail none = fail no_more_hints
    hint_or_fail (some h) = return h

    -- `next_hint`, with the level as the JSON that the hint has; the answer is the hint's text and
    -- the new count.
    unfoldable pub next_hint : ℕ → Method (String × ℕ)
    next_hint k = do
      s ← get_session clock user k
      q ← found_question (catalogue.published (catalogue.slug_of s.question_version_id))
      hint ← hint_or_fail (nth s.hint_count (question_hints q.structured_content))
      update_session user k (hinted (s.hint_count + 1))
      append_event clock user k "HINT_REVEALED" (
          obj (
            field "reveal_level" (coalesce (get "reveal_level" hint) (int (pos (s.hint_count + 1))))
              end))
      return (text_of py (coalesce (get "text" hint) (str "")), s.hint_count + 1)
