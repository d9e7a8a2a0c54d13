-- ===== src/Tutor/Restraint.antt =====
-- apps/api/src/rigor_api/tutor_domain.py: `decide_intervention`.
use leetcode_platform.Prelude.{◌≡◌, refl, Bool, true, false, ◌||◌, leb, arith, not}
use leetcode_platform.Tutor.{
  TutorContextSnapshot, InterventionKind, observe, silent, is_mock, decide_otherwise,
  decide_intervention, mock,
}

abbrev pub is_quiet : InterventionKind → Bool
is_quiet observe = true
is_quiet silent = true
is_quiet _ = false

otherwise_restrained :
    (s : TutorContextSnapshot)
    → ((decide_otherwise s).may_reveal_solution ≡ false)
      × ((decide_otherwise s).should_speak ≡ not (is_quiet (decide_otherwise s).kind))
unfolding decide_otherwise
otherwise_restrained s = ground arith

-- No decision lets the tutor reveal a solution, and it may speak exactly if the decision is another
-- than to observe or to be silent.
pub intervention_restrained :
    (s : TutorContextSnapshot)
    → ((decide_intervention s).may_reveal_solution ≡ false)
      × ((decide_intervention s).should_speak ≡ not (is_quiet (decide_intervention s).kind))
unfolding decide_intervention
intervention_restrained s = ground (arith, otherwise_restrained s)

-- In a mock interview the tutor speaks exactly if it was asked for help, or the candidate was idle
-- for 90 seconds or failed two runs in a row, whatever the surface and the level are.
pub mock_speaks :
    (s : TutorContextSnapshot)
    → s.mode ≡ mock
    → (decide_intervention s).should_speak
      ≡ (s.user_requested_help || (leb 90 s.idle_seconds || leb 2 s.consecutive_failed_runs))
unfolding decide_intervention
mock_speaks s h = let at_mock : is_mock s.mode ≡ true = rw h refl in ground arith
