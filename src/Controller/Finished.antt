-- ===== src/Controller/Finished.antt =====
-- apps/api/src/rigor_api/execution_controller.py: `process_message` and `reconcile_once` come to an
-- end, since `_monitor` stops at its deadline.
pub mod Flows
pub mod Service
use leetcode_platform.Prelude.{
  ℕ, zero, suc, String, ◌≡◌, ◌≤◌, ◌+◌, refl, arith, Bool, true, false, Option, none, some, List, [],
  ◌∷◌, inl, inr, Bool-cases, leb, if◌then◌else◌,
}
use leetcode_platform.Json.{Fields}
use leetcode_platform.Execution.Store.{ExecutionRow}
use leetcode_platform.Execution.Claims.{ExpiredExecutionLease}
use leetcode_platform.Execution.Compare.{SandboxExecutionResult}
use leetcode_platform.Execution.Persist.{TrustedExecutionProjection}
use leetcode_platform.Execution.Package.{DispatchPackage}
use leetcode_platform.DeadLetters.{Message}
use leetcode_platform.Controller.Flow.{
  Outside, SandboxHandle, SandboxObservation, World, Flow, return, hang, ◌>>=◌, monotonic, sleep,
  observe_sandbox, passed,
}
use leetcode_platform.Controller.Flow.Ends.{
  Over, later-Over, Ends, is_hung, bind-Over, Ends-bind, Ends-return, Ends-fail, Ends-call,
  Ends-transact, Ends-observe, Ends-monotonic, ends_rules,
}
use leetcode_platform.Controller.Attempts.{
  ExecutionControllerSettings, renew_execution_lease, persist_projection, persist_timeout,
  persist_infrastructure_failure, expire_attempt, defer_infrastructure_retry, persist_report,
  judge_logs, persist_observation, create_handle, keep_handle, start_sandbox,
}
use leetcode_platform.Controller.Monitor.{
  settle_over, pause_until, extend_message, renew_and, renew_when_due, still_running,
  observed_state, watch, monitor_loop, monitor, renew_after, deadline_ms,
}

-- `m` ends, where `n` milliseconds are enough for the deadline.
record Within {A : Type 0} (deadline n : ℕ) (m : Flow A) : Type 0 where
  pub at : (w : World) → deadline ≤ w.now + n → Over w.now (m w)

module _ {deadline n : ℕ} where
  Within-Ends : {A : Type 0} (m : Flow A) → Ends m → Within deadline n m
  Within-Ends m km = record { at = λ w h. km.at w }

  Within-if :
      {A : Type 0} (b : Bool) (m m' : Flow A)
      → Within deadline n m
      → Within deadline n m'
      → Within deadline n (if b then m else m')
  Within-if true m m' km km' = km
  Within-if false m m' km km' = km'

  Within-bind :
      {A B : Type 0} (m : Flow A) (f : A → Flow B)
      → Ends m
      → ((a : A) → Within deadline n (f a))
      → Within deadline n (m >>= f)
  Within-bind m f km kf = record {
    at = λ w h. bind-Over m f w km (λ a w' le. (kf a).at w' (omega (arith, h, le)));
  }

ruleset within_rules = (Within-if, Within-bind, Within-Ends)

module _ (out : Outside) (settings : ExecutionControllerSettings) where
  renew-Ends : (k : ℕ) → Ends (renew_execution_lease out settings k)
  unfolding renew_execution_lease
  renew-Ends k = search ends_rules

  module _ (pkg : DispatchPackage) where
    timeout-Ends : Ends (persist_timeout out settings pkg)
    unfolding persist_timeout persist_projection
    timeout-Ends = search ends_rules

    pub failure-Ends : (e m : String) → Ends (persist_infrastructure_failure out settings pkg e m)
    unfolding persist_infrastructure_failure persist_projection
    failure-Ends e m = search ends_rules

    defer-Ends :
        (handle : SandboxHandle) (e : String)
        → Ends (defer_infrastructure_retry out settings pkg handle e)
    unfolding defer_infrastructure_retry expire_attempt
    defer-Ends handle e = search (ends_rules, failure-Ends)

    judge_logs-Ends :
        (handle : SandboxHandle) (logs : String) → Ends (judge_logs out settings pkg handle logs)
    unfolding judge_logs persist_report
    judge_logs-Ends handle logs = search (ends_rules, defer-Ends)

    pub observation-Ends :
        (seen : SandboxObservation) (handle : SandboxHandle)
        → Ends (persist_observation out settings pkg seen handle)
    unfolding persist_observation
    observation-Ends seen handle = search (ends_rules, defer-Ends, judge_logs-Ends)

    keep_handle-Ends :
        (handle : SandboxHandle) (b : Bool) → Ends (keep_handle out settings pkg handle b)
    unfolding keep_handle
    keep_handle-Ends handle true = Ends-return (some handle)
    keep_handle-Ends handle false = search ends_rules

    create_handle-Ends : (request : Fields) → Ends (create_handle out settings pkg request)
    unfolding create_handle
    create_handle-Ends request = search ends_rules

    pub start_sandbox-Ends : Ends (start_sandbox out settings pkg)
    unfolding start_sandbox
    start_sandbox-Ends = search (ends_rules, create_handle-Ends, keep_handle-Ends)

    module _ (handle : SandboxHandle) (message : Message) where
      settle_over-Ends :
          (seen : SandboxObservation) → Ends (settle_over out settings pkg handle message seen)
      unfolding settle_over
      settle_over-Ends seen = search (ends_rules, timeout-Ends, observation-Ends)

      -- A pass over the loop that goes on, where `n` milliseconds more are enough.
      module _ (deadline n : ℕ) (next : ℕ → Flow Bool)
          (rest : (due : ℕ) → Within deadline n (next due))
          (poll : 1 ≤ settings.sandbox_poll_ms) where
        pause-Within :
            (due : ℕ)
            → Within deadline (suc n) (pause_until out settings pkg handle message next due)
        unfolding sleep ◌>>=◌
        pause-Within due = record {
          at = λ w h.
              let e = out.elapsed w.tick in
              later-Over w.now (w.now + (settings.sandbox_poll_ms + e)) _ (omega arith) (
                (rest due).at (passed out (settings.sandbox_poll_ms + e) w)
                  (omega (arith, h, poll)));
        }

        extend-Within :
            Within deadline (suc n) (extend_message out settings pkg handle message next)
        unfolding extend_message
        extend-Within = search (within_rules, Ends-call, Ends-monotonic, pause-Within)

        renew_and-Within : Within deadline (suc n) (renew_and out settings pkg handle message next)
        unfolding renew_and
        renew_and-Within = search (within_rules, Ends-return, renew-Ends, extend-Within)

        renew_when_due-Within :
            (due : ℕ)
            → Within deadline (suc n) (renew_when_due out settings pkg handle message next due)
        unfolding renew_when_due
        renew_when_due-Within due =
            search (within_rules, Ends-monotonic, renew_and-Within, pause-Within)

      module _ (deadline n : ℕ) (next : ℕ → Flow Bool)
          (go : (due : ℕ) (w : World)
            → deadline ≤ w.now + n
            → suc w.now ≤ deadline
            → Over w.now (renew_when_due out settings pkg handle message next due w)) where
        still_running-Within :
            (due : ℕ)
            → Within deadline n (still_running out settings pkg handle message deadline next due)
        unfolding still_running monotonic ◌>>=◌
        still_running-Within due = record {
          at = λ w h.
              let e = out.elapsed w.tick in
              let w1 = passed out e w in
              elim (Bool-cases (leb deadline (w.now + e))) [
                | inl over ↦
                    rw over (later-Over w.now (w.now + e) _ (omega arith) (timeout-Ends.at w1))
                | inr before ↦ rw before (
                    later-Over w.now (w.now + e) _ (omega arith)
                      (go due w1 (omega (arith, h)) (ground arith)))
              ];
        }

        watch-Within :
            (due : ℕ) → Within deadline n (watch out settings pkg handle message deadline next due)
        unfolding watch observed_state
        watch-Within due =
            search (within_rules, Ends-observe, settle_over-Ends, defer-Ends, still_running-Within)

      loop-Within :
          (poll : 1 ≤ settings.sandbox_poll_ms) (deadline fuel due : ℕ)
          → Within deadline fuel
              (monitor_loop out settings pkg handle message deadline (suc fuel) due)
      unfolding monitor_loop
      loop-Within poll deadline zero due =
          watch-Within deadline zero (monitor_loop out settings pkg handle message deadline zero)
            (λ d w h lt. absurd (omega (arith, h, lt))) due
      loop-Within poll deadline (suc n) due =
          let next = monitor_loop out settings pkg handle message deadline (suc n) in
          watch-Within deadline (suc n) next
            (λ d w h lt.
              (renew_when_due-Within deadline n next (λ d'. loop-Within poll deadline n d') poll
                  d).at
                w h)
            due

      -- `_monitor` stops at its deadline.
      pub monitor-Ends :
          1 ≤ settings.sandbox_poll_ms → Ends (monitor out settings pkg handle message)
      unfolding monitor monotonic ◌>>=◌
      monitor-Ends poll = record {
        at = λ w.
            let wait = deadline_ms out settings pkg handle message in
            let began = w.now + out.elapsed w.tick in
            let now = began + out.elapsed (suc w.tick) in
            later-Over w.now now _ (omega arith) (
              (loop-Within poll (began + wait) wait (now + renew_after out settings)).at
                (passed out (out.elapsed (suc w.tick)) (passed out (out.elapsed w.tick) w))
                (omega arith));
      }
