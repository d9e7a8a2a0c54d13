-- ===== src/Examples/Coaching.antt =====
-- The theorems about the tutor, at concrete contexts.
use leetcode_platform.Prelude.{◌≡◌, refl, false, none, [], ◌||◌, leb, not}
use leetcode_platform.Json.{Json, str, arr, obj, nil, cons, end, field}
use leetcode_platform.Tutor.{
  TutorContextSnapshot, mock, code, senior, decide_intervention, is_forbidden, refused_in,
}
use leetcode_platform.Tutor.Restraint.{is_quiet, intervention_restrained, mock_speaks}
use leetcode_platform.Tutor.Privacy.{in_obj, this, in_arr, below, first, passed_context_clean}

abbrev interview : TutorContextSnapshot
interview = record {
  mode = mock;
  surface = code;
  candidate_level = senior;
  code_context = none;
  whiteboard_context = none;
  idle_seconds = 90;
  consecutive_failed_runs = 0;
  user_requested_help = false;
}

intervention_restrained_example :
    ((decide_intervention interview).may_reveal_solution ≡ false)
    × ((decide_intervention interview).should_speak
        ≡ not (is_quiet (decide_intervention interview).kind))
intervention_restrained_example = intervention_restrained interview

mock_speaks_example :
    (decide_intervention interview).should_speak ≡ (false || (leb 90 90 || leb 2 0))
mock_speaks_example = mock_speaks interview refl

abbrev context : Json
context = obj (field "tests" (arr (cons (obj (field "name" (str "a") end)) nil)) end)

context_passes : refused_in (λ k. k) context [] ≡ none
unfolding refused_in is_forbidden
context_passes = refl

passed_context_clean_example : is_forbidden "name" ≡ false
passed_context_clean_example =
    passed_context_clean (λ k. k) "name" context [] context_passes
      (in_obj (below (in_arr (first (in_obj this)))))
