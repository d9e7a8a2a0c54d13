-- ===== src/Controller/Attempts.antt =====
-- apps/api/src/rigor_api/execution_controller.py: the settings, and how an attempt starts and ends.
use leetcode_platform.Prelude.{
  ℕ, String, Bool, true, false, Option, none, some, [], ◌*◌, ◌+◌, ◌&&◌, ◌||◌, leb, ltb, str_eq,
  coalesce, if◌then◌else◌,
}
use leetcode_platform.Json.{Json, Fields, ℤ, pos, int, str}
use leetcode_platform.Execution.Status.{ExecutionStatus, failed, timeout, trusted_result_error}
use leetcode_platform.Execution.Claims.{aware, mark_running, renew_lease}
use leetcode_platform.Execution.Persist.{TrustedExecutionProjection}
use leetcode_platform.Execution.Judge.{Python, truthy, text_of}
use leetcode_platform.Execution.Compare.{SandboxExecutionResult}
use leetcode_platform.Execution.Runner.{get_or_null, parse_runner_result}
use leetcode_platform.Execution.Package.{DispatchPackage, sandbox_request}
use leetcode_platform.Controller.Statements.{expire_lease}
use leetcode_platform.Controller.Transactions.{persist_owned, persist_judged}
use leetcode_platform.Controller.Flow.{
  Outside, SandboxHandle, SandboxObservation, create_execution, cleanup, Flow, return, fail,
  of_result, catch_trusted, ◌>>=◌, ◌>>◌, transact, call, create_sandbox, utc_now,
}

-- The settings that the flows read; `sandbox_poll_ms` is `sandbox_poll_seconds` in milliseconds.
pub record ExecutionControllerSettings : Type 0 where
  pub worker_id : String
  pub lease_seconds : ℕ
  pub reconciliation_limit : ℕ
  pub receive_visibility_seconds : ℕ
  pub sandbox_poll_ms : ℕ
  pub max_attempts : ℕ
  pub stale_queued_seconds : ℕ
  pub outbox_batch_size : ℕ

abbrev pub positive_or : Option ℤ → ℕ → ℕ
positive_or (some (pos n)) default = if ltb 0 n then n else default
positive_or _ default = default

-- `_positive_limit`
abbrev pub limit_of : (String → Option ℤ) → Json → ℕ → ℕ
limit_of parse_int (int z) default = positive_or (some z) default
limit_of parse_int (str s) default = positive_or (parse_int s) default
limit_of parse_int _ default = default

unfoldable pub positive_limit : (String → Option ℤ) → Fields → String → ℕ → ℕ
positive_limit parse_int limits k default = limit_of parse_int (get_or_null k limits) default

-- `error_category in INFRASTRUCTURE_RUNNER_ERRORS`
abbrev pub is_infrastructure : Option String → Bool
is_infrastructure none = false
is_infrastructure (some s) =
    str_eq s "RunnerInputError"
    || (str_eq s "runner_infrastructure_error" || str_eq s "runner_protocol_error")

-- A projection without tests.
abbrev pub empty_outcome : ExecutionStatus → ℕ → ℕ → String → String → TrustedExecutionProjection
empty_outcome status runtime_ms exit_code error_category message = record {
  execution_status = status;
  runtime_ms = runtime_ms;
  exit_code = pos exit_code;
  error_category = some error_category;
  public_results = [];
  hidden_total = 0;
  hidden_passed = 0;
  stdout = "";
  stderr = "";
  candidate_message = message;
}

abbrev pub timed_out : ℕ → TrustedExecutionProjection
timed_out timeout_seconds =
    empty_outcome timeout (timeout_seconds * 1000) 124 "timeout"
      "Execution exceeded the configured time limit."

abbrev pub infrastructure_failed : String → String → TrustedExecutionProjection
infrastructure_failed error_category message = empty_outcome failed 0 1 error_category message

-- `str(limits.get("profile") or default)`
abbrev pub profile_name : Python → Json → String → String
profile_name py v default = if truthy v then text_of py v else default

-- `not observation.logs`
abbrev pub has_logs : Option String → Bool
has_logs none = false
has_logs (some s) = if str_eq s "" then false else true

abbrev pub no_handle : Flow (Option SandboxHandle)
no_handle = return none

module _ (out : Outside) (settings : ExecutionControllerSettings) where
  unfoldable pub renew_execution_lease : ℕ → Flow Bool
  renew_execution_lease k = do
    now ← utc_now out
    transact out
        (λ clock. renew_lease clock k settings.worker_id (aware (now + settings.lease_seconds)))

  module _ (pkg : DispatchPackage) where
    unfoldable pub persist_projection : TrustedExecutionProjection → Flow Bool
    persist_projection p = transact out (λ clock. persist_owned out settings.worker_id clock pkg p)

    unfoldable pub persist_timeout : Flow Bool
    persist_timeout =
        persist_projection
          (timed_out (positive_limit out.parse_int pkg.limits "execution_timeout_seconds" 10))

    unfoldable pub persist_infrastructure_failure : String → String → Flow Bool
    persist_infrastructure_failure error_category message =
        persist_projection (infrastructure_failed error_category message)

    unfoldable pub expire_attempt : SandboxHandle → String → Flow Bool
    expire_attempt handle error_category = do
      call out (cleanup handle)
      expired ← transact out (λ clock.
          expire_lease clock pkg.execution_id settings.worker_id pkg.attempt_count error_category)
      return false

    unfoldable pub defer_infrastructure_retry : SandboxHandle → String → Flow Bool
    defer_infrastructure_retry handle error_category =
        if leb settings.max_attempts pkg.attempt_count
        then persist_infrastructure_failure "execution_attempt_limit"
            "Execution failed after repeated infrastructure errors."
        else expire_attempt handle error_category

    -- The body of the `try`, after the report was read.
    unfoldable pub persist_report : SandboxHandle → SandboxExecutionResult → Flow Bool
    persist_report handle s =
        if str_eq s.status "FAILED" && is_infrastructure s.error_category
        then defer_infrastructure_retry handle
            (coalesce s.error_category "runner_infrastructure_error")
        else transact out (λ clock. persist_judged out settings.worker_id clock pkg s)

    unfoldable pub judge_logs : SandboxHandle → String → Flow Bool
    judge_logs handle logs = do
      s ← of_result (parse_runner_result out.py logs pkg.execution_id (some pkg.attempt_count))
      persist_report handle s

    unfoldable pub persist_observation : SandboxObservation → SandboxHandle → Flow Bool
    persist_observation seen handle =
        if has_logs seen.logs
        then catch_trusted (judge_logs handle (coalesce seen.logs ""))
            (defer_infrastructure_retry handle "trusted_result_validation_failed")
        else defer_infrastructure_retry handle "runner_result_unavailable"

    abbrev pub create_as : String → String → Fields → Flow SandboxHandle
    create_as language default request = create_sandbox out (
        create_execution language pkg.execution_id request
          (profile_name out.py (get_or_null "profile" pkg.limits) default))

    -- `create_python_execution` or `create_sql_execution`
    unfoldable pub create_handle : Fields → Flow SandboxHandle
    create_handle request =
        if str_eq pkg.language "python"
        then create_as "python" "python-small" request
        else if str_eq pkg.language "sql"
        then create_as "sql" "sql-small" request
        else fail trusted_result_error

    unfoldable pub keep_handle : SandboxHandle → Bool → Flow (Option SandboxHandle)
    keep_handle handle true = return (some handle)
    keep_handle handle false = do call out (cleanup handle); no_handle

    unfoldable pub start_sandbox : Flow (Option SandboxHandle)
    start_sandbox = do
      request ← of_result (sandbox_request out.py pkg)
      handle ← create_handle request
      running ← transact out (λ clock.
          mark_running clock pkg.execution_id settings.worker_id handle.namespace handle.job_name)
      keep_handle handle running
