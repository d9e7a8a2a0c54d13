-- ===== src/Execution/Status.antt =====
-- apps/api/src/rigor_api/execution_domain.py: the status enumeration, the legal transitions, and
-- the reading of a stored state. `ExecutionState` is the database enumeration that the state
-- column is declared with (database/migrations); it still has three legacy labels.
use leetcode_platform.Prelude.{
  String, ◌≡◌, refl, Bool, true, false, Option, none, some, str_eq, if◌then◌else◌,
}

pub data ExecutionStatus : Type 0 where
  queued dispatching running completed failed timeout cancelled : ExecutionStatus

pub data ExecutionType : Type 0 where
  run submit : ExecutionType

pub ExecutionStatus-discrete : Discrete ExecutionStatus
ExecutionStatus-discrete = hlevel

-- The values of the `StrEnum`, `status.value`.
abbrev pub value : ExecutionStatus → String
value queued = "QUEUED"
value dispatching = "DISPATCHING"
value running = "RUNNING"
value completed = "COMPLETED"
value failed = "FAILED"
value timeout = "TIMEOUT"
value cancelled = "CANCELLED"

-- The exceptions of this part of the program.
pub data Error : Type 0 where
  transition_error : ExecutionStatus → ExecutionStatus → Error
  cannot_cancel : ExecutionStatus → Error
  not_found : Error
  idempotency_conflict : Error
  runtime_error : Error
  integrity_error : Error
  data_error : Error
  value_error : Error
  trusted_result_error : Error
  transport_error : Error
  overflow_error : Error

-- `status in TERMINAL_EXECUTION_STATUSES`
abbrev pub is_terminal : ExecutionStatus → Bool
is_terminal completed = true
is_terminal failed = true
is_terminal timeout = true
is_terminal cancelled = true
is_terminal _ = false

-- `target in LEGAL_EXECUTION_TRANSITIONS[current]`
abbrev pub is_legal : ExecutionStatus → ExecutionStatus → Bool
is_legal queued dispatching = true
is_legal queued cancelled = true
is_legal dispatching running = true
is_legal dispatching failed = true
is_legal dispatching cancelled = true
is_legal running completed = true
is_legal running failed = true
is_legal running timeout = true
is_legal running cancelled = true
is_legal _ _ = false

-- `ExecutionStatus(value)`; `none` is its `ValueError`.
unfoldable pub parse_status : String → Option ExecutionStatus
parse_status s =
    if str_eq s "QUEUED"
    then some queued
    else if str_eq s "DISPATCHING"
    then some dispatching
    else if str_eq s "RUNNING"
    then some running
    else if str_eq s "COMPLETED"
    then some completed
    else if str_eq s "FAILED"
    then some failed
    else if str_eq s "TIMEOUT"
    then some timeout
    else if str_eq s "CANCELLED"
    then some cancelled
    else none

-- `LEGACY_STATUS_MAP.get(value)`
unfoldable pub legacy_status : String → Option ExecutionStatus
legacy_status s =
    if str_eq s "PASSED"
    then some completed
    else if str_eq s "ERROR"
    then some failed
    else if str_eq s "TIMED_OUT"
    then some timeout
    else none

unfoldable pub normalize_execution_status : String → Option ExecutionStatus
unfolding parse_status legacy_status
normalize_execution_status s = elim (legacy_status s) [
  | some mapped ↦ some mapped
  | none ↦ parse_status s
]

-- `validate_execution_transition`: `none` where it returns, else the exception.
unfoldable pub validate_execution_transition : ExecutionStatus → ExecutionStatus → Option Error
validate_execution_transition current target =
    if is_legal current target then none else some (transition_error current target)

-- The labels of the type `execution_state`.
pub data ExecutionState : Type 0 where
  queued dispatching running completed failed timeout cancelled passed error timed_out :
      ExecutionState

-- `state::text`
abbrev pub state_text : ExecutionState → String
state_text ExecutionState.queued = "QUEUED"
state_text ExecutionState.dispatching = "DISPATCHING"
state_text ExecutionState.running = "RUNNING"
state_text ExecutionState.completed = "COMPLETED"
state_text ExecutionState.failed = "FAILED"
state_text ExecutionState.timeout = "TIMEOUT"
state_text ExecutionState.cancelled = "CANCELLED"
state_text ExecutionState.passed = "PASSED"
state_text ExecutionState.error = "ERROR"
state_text ExecutionState.timed_out = "TIMED_OUT"

-- `CAST(:target AS execution_state)` of a status value.
abbrev pub to_state : ExecutionStatus → ExecutionState
to_state ExecutionStatus.queued = ExecutionState.queued
to_state ExecutionStatus.dispatching = ExecutionState.dispatching
to_state ExecutionStatus.running = ExecutionState.running
to_state ExecutionStatus.completed = ExecutionState.completed
to_state ExecutionStatus.failed = ExecutionState.failed
to_state ExecutionStatus.timeout = ExecutionState.timeout
to_state ExecutionStatus.cancelled = ExecutionState.cancelled

-- The status that each stored label stands for.
abbrev pub status_of : ExecutionState → ExecutionStatus
status_of ExecutionState.queued = ExecutionStatus.queued
status_of ExecutionState.dispatching = ExecutionStatus.dispatching
status_of ExecutionState.running = ExecutionStatus.running
status_of ExecutionState.completed = ExecutionStatus.completed
status_of ExecutionState.failed = ExecutionStatus.failed
status_of ExecutionState.timeout = ExecutionStatus.timeout
status_of ExecutionState.cancelled = ExecutionStatus.cancelled
status_of ExecutionState.passed = ExecutionStatus.completed
status_of ExecutionState.error = ExecutionStatus.failed
status_of ExecutionState.timed_out = ExecutionStatus.timeout

-- Reading a stored label never raises, and the three legacy labels read as their successors.
pub normalize-state_text :
    (s : ExecutionState) → normalize_execution_status (state_text s) ≡ some (status_of s)
unfolding normalize_execution_status
normalize-state_text ExecutionState.queued = refl
normalize-state_text _ = refl

-- Writing a status and reading it back.
pub status_of-to_state : (s : ExecutionStatus) → status_of (to_state s) ≡ s
status_of-to_state ExecutionStatus.queued = refl
status_of-to_state _ = refl
