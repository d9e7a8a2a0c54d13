-- ===== src/Controller/Monitor.antt =====
-- apps/api/src/rigor_api/execution_controller.py: `_monitor`, the loop that watches a sandbox.
use leetcode_platform.Prelude.{
  ℕ, zero, suc, String, Bool, false, Option, none, some, ◌*◌, ◌+◌, ◌/◌, ◌&&◌, ◌||◌, not, max, leb,
  str_eq, if◌then◌else◌,
}
use leetcode_platform.Execution.Package.{DispatchPackage}
use leetcode_platform.DeadLetters.{Message}
use leetcode_platform.Controller.Flow.{
  Outside, SandboxHandle, SandboxObservation, change_message_visibility, Flow, return, hang, ◌>>=◌,
  ◌>>◌, call, observe_sandbox, monotonic, sleep,
}
use leetcode_platform.Controller.Attempts.{
  ExecutionControllerSettings, positive_limit, has_logs, persist_timeout, persist_observation,
  defer_infrastructure_retry, renew_execution_lease,
}

-- `state in {"SUCCEEDED", "FAILED"}`
abbrev pub is_over : String → Bool
is_over state = str_eq state "SUCCEEDED" || str_eq state "FAILED"

abbrev pub is_deadline_exceeded : Option String → Bool
is_deadline_exceeded none = false
is_deadline_exceeded (some s) = str_eq s "DeadlineExceeded"

module _ (out : Outside) (settings : ExecutionControllerSettings) where
  -- `max(5, lease_seconds // 2)` in milliseconds.
  abbrev pub renew_after : ℕ
  renew_after = max 5 (settings.lease_seconds / 2) * 1000

  module _ (pkg : DispatchPackage) (handle : SandboxHandle) (message : Message) where
    -- `job_deadline_seconds`, and ten seconds more, in milliseconds.
    abbrev pub deadline_ms : ℕ
    deadline_ms = (positive_limit out.parse_int pkg.limits "job_deadline_seconds" 30 + 10) * 1000

    unfoldable pub settle_over : SandboxObservation → Flow Bool
    settle_over seen =
        if is_deadline_exceeded seen.reason && not (has_logs seen.logs)
        then persist_timeout out settings pkg
        else persist_observation out settings pkg seen handle

    -- `next` runs the loop again, where the next renewal is due at its argument.
    abbrev pub pause_until : (ℕ → Flow Bool) → ℕ → Flow Bool
    pause_until next due = do sleep out settings.sandbox_poll_ms; next due

    unfoldable pub extend_message : (ℕ → Flow Bool) → Flow Bool
    extend_message next = do
      call out
          (change_message_visibility message.receipt_handle settings.receive_visibility_seconds)
      now ← monotonic out
      pause_until next (now + renew_after)

    unfoldable pub renew_and : (ℕ → Flow Bool) → Flow Bool
    renew_and next = do
      renewed ← renew_execution_lease out settings pkg.execution_id
      (if renewed then extend_message next else return false)

    unfoldable pub renew_when_due : (ℕ → Flow Bool) → ℕ → Flow Bool
    renew_when_due next due = do
      now ← monotonic out
      (if leb due now then renew_and next else pause_until next due)

    unfoldable pub still_running : ℕ → (ℕ → Flow Bool) → ℕ → Flow Bool
    still_running deadline next due = do
      now ← monotonic out
      (if leb deadline now then persist_timeout out settings pkg else renew_when_due next due)

    unfoldable pub observed_state : ℕ → (ℕ → Flow Bool) → ℕ → SandboxObservation → Flow Bool
    observed_state deadline next due seen =
        if is_over seen.state
        then settle_over seen
        else if str_eq seen.state "MISSING"
        then defer_infrastructure_retry out settings pkg handle "sandbox_missing"
        else still_running deadline next due

    -- The body of the loop.
    unfoldable pub watch : ℕ → (ℕ → Flow Bool) → ℕ → Flow Bool
    watch deadline next due = do
      seen ← observe_sandbox out handle
      observed_state deadline next due seen

    unfoldable pub monitor_loop : ℕ → ℕ → ℕ → Flow Bool
    monitor_loop deadline zero due = hang
    monitor_loop deadline (suc fuel) due = watch deadline (monitor_loop deadline fuel) due

    -- `_monitor`; the loop is run at most once for each millisecond until the deadline.
    unfoldable pub monitor : Flow Bool
    monitor = do
      began ← monotonic out
      now ← monotonic out
      monitor_loop (began + deadline_ms) (suc deadline_ms) (now + renew_after)
