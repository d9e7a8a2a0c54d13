-- ===== src/Tutor.antt =====
-- apps/api/src/rigor_api/tutor_domain.py: when the tutor may speak (`decide_intervention`), and the
-- check that no material of the evaluation reaches it (`assert_tutor_context_is_public`).
pub mod Restraint
pub mod Privacy
use leetcode_platform.Prelude.{
  ℕ, String, Bool, true, false, Option, none, some, List, [], ◌∷◌, ◌++◌, suc, ◌==◌, ◌&&◌, ◌||◌, ltb,
  leb, is_some, str_eq, any_of, length, if◌then◌else◌,
}
use leetcode_platform.Json.{
  Json, Items, Fields, null, bool, int, float, str, arr, obj, nil, cons, end, field,
}

pub data TutorMode : Type 0 where
  lesson roadmap practice mock : TutorMode

pub data TutorSurface : Type 0 where
  chat code whiteboard : TutorSurface

pub data CandidateLevel : Type 0 where
  junior mid senior staff manager : CandidateLevel

pub data InterventionKind : Type 0 where
  observe silent concept_check nudge hint complexity_challenge tradeoff_challenge : InterventionKind

-- Shares in hundredths.
pub record TeachingMix : Type 0 where
  pub learn_share : ℕ
  pub practice_share : ℕ

abbrev pub teaching_mix : CandidateLevel → TeachingMix
teaching_mix junior = record { learn_share = 65; practice_share = 35 }
teaching_mix mid = record { learn_share = 50; practice_share = 50 }
teaching_mix senior = record { learn_share = 30; practice_share = 70 }
teaching_mix staff = record { learn_share = 15; practice_share = 85 }
teaching_mix manager = record { learn_share = 20; practice_share = 80 }

-- The counters of `SafeCodeContext`.
pub record SafeCodeContext : Type 0 where
  pub language : String
  pub source : String
  pub public_tests_passed : ℕ
  pub public_tests_total : ℕ

pub record WhiteboardNode : Type 0 where
  pub id : String
  pub label : String

pub record SafeWhiteboardContext : Type 0 where
  pub nodes : List WhiteboardNode
  pub requirements : List String
  pub notes : List String

-- The fields that the decision reads.
pub record TutorContextSnapshot : Type 0 where
  pub mode : TutorMode
  pub surface : TutorSurface
  pub candidate_level : CandidateLevel
  pub code_context : Option SafeCodeContext
  pub whiteboard_context : Option SafeWhiteboardContext
  pub idle_seconds : ℕ
  pub consecutive_failed_runs : ℕ
  pub user_requested_help : Bool

-- `reason` is a text for the log, and left out.
pub record TutorIntervention : Type 0 where
  pub kind : InterventionKind
  pub may_reveal_solution : Bool
  pub should_speak : Bool

abbrev pub speaking : InterventionKind → TutorIntervention
speaking k = record { kind = k; may_reveal_solution = false; should_speak = true }

abbrev pub listening : InterventionKind → TutorIntervention
listening k = record { kind = k; may_reveal_solution = false; should_speak = false }

abbrev pub is_mock : TutorMode → Bool
is_mock mock = true
is_mock _ = false

abbrev pub is_lesson : TutorMode → Bool
is_lesson lesson = true
is_lesson _ = false

abbrev pub is_code : TutorSurface → Bool
is_code code = true
is_code _ = false

abbrev pub is_whiteboard : TutorSurface → Bool
is_whiteboard whiteboard = true
is_whiteboard _ = false

abbrev pub is_experienced : CandidateLevel → Bool
is_experienced senior = true
is_experienced staff = true
is_experienced manager = true
is_experienced _ = false

abbrev pub passes_public : Option SafeCodeContext → Bool
passes_public none = false
passes_public (some c) = ltb 0 c.public_tests_total && c.public_tests_passed == c.public_tests_total

abbrev pub is_drawn : Option SafeWhiteboardContext → Bool
is_drawn none = false
is_drawn (some w) = leb 4 (length w.nodes)

-- The two last tests of the function.
unfoldable pub decide_otherwise : TutorContextSnapshot → TutorIntervention
decide_otherwise s =
    if is_whiteboard s.surface
      && (is_drawn s.whiteboard_context && leb 70 (teaching_mix s.candidate_level).practice_share)
    then speaking tradeoff_challenge
    else if is_lesson s.mode
    then speaking concept_check
    else listening observe

unfoldable pub decide_intervention : TutorContextSnapshot → TutorIntervention
decide_intervention s =
    if s.user_requested_help
    then speaking hint
    else if is_mock s.mode
    then (if ltb s.idle_seconds 90 && ltb s.consecutive_failed_runs 2
        then listening silent
        else speaking nudge)
    else if is_code s.surface && (is_some s.code_context && leb 2 s.consecutive_failed_runs)
    then speaking hint
    else if is_code s.surface && (passes_public s.code_context && is_experienced s.candidate_level)
    then speaking complexity_challenge
    else decide_otherwise s

-- `_FORBIDDEN_CONTEXT_KEYS`
abbrev pub forbidden_keys : List String
forbidden_keys =
    "hidden_test" ∷ "hidden_tests" ∷ "hidden_fixture" ∷ "hidden_fixtures" ∷ "hidden_expected"
    ∷ "reference_solution" ∷ "canonical_solution" ∷ "solution_code" ∷ "interviewer_notes"
    ∷ "answer_key" ∷ "private_evaluation" ∷ []

unfoldable pub is_forbidden : String → Bool
is_forbidden k = any_of (λ f. str_eq k f) forbidden_keys

pub data PathPart : Type 0 where
  key : String → PathPart
  index : ℕ → PathPart

abbrev pub or_else : {A : Type 0} → Option A → Option A → Option A
or_else none o = o
or_else (some a) _ = some a

-- `fold` is `str.strip` and `str.lower`. The path of the first key that is refused, or none.
module _ (fold : String → String) where
  unfoldable mutual
    pub refused_in : Json → List PathPart → Option (List PathPart)
    refused_in (obj fields) path = refused_fields fields path
    refused_in (arr items) path = refused_items items 0 path
    refused_in _ path = none

    pub refused_fields : Fields → List PathPart → Option (List PathPart)
    refused_fields end path = none
    refused_fields (field k v rest) path =
        let child = path ++ key k ∷ [] in
        if is_forbidden (fold k)
        then some child
        else or_else (refused_in v child) (refused_fields rest path)

    pub refused_items : Items → ℕ → List PathPart → Option (List PathPart)
    refused_items nil n path = none
    refused_items (cons v rest) n path =
        or_else (refused_in v (path ++ index n ∷ [])) (refused_items rest (suc n) path)
