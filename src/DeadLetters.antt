-- ===== src/DeadLetters.antt =====
-- apps/api/src/rigor_api/execution_dlq.py, with the events of execution_events.py: which dead messages are sent
-- again, dropped or kept. The JSON decoder with the validation of the two event models is a
-- parameter, and so are the two queues.
pub mod Events
pub mod Replay
pub mod Handled
pub mod Discard
use leetcode_platform.Prelude.{
  ℕ, String, Bool, true, false, Option, none, some, List, [], ◌∷◌, ◌++◌, ◌+◌, ◌&&◌, is_some, str_eq,
  if◌then◌else◌,
}
use leetcode_platform.Execution.Status.{
  ExecutionStatus, queued, dispatching, running, cancelled, is_terminal, parse_status, state_text,
  value_error, Error,
}
use leetcode_platform.Execution.Store.{Db, ExecutionRow, find_request}
use leetcode_platform.Execution.Action.{Result, ok, err}
use leetcode_platform.Execution.Claims.Expired.{text_or_none}

pub data DlqDisposition : Type 0 where
  replay discard_terminal hold_in_progress hold_unknown hold_malformed : DlqDisposition

pub record ExecutionRequestedEvent : Type 0 where
  pub execution_id : ℕ
  pub attempt : ℕ
  pub requested_at : ℕ
  pub trace_id : String

pub record ExecutionCancelRequestedEvent : Type 0 where
  pub execution_id : ℕ
  pub requested_at : ℕ
  pub trace_id : String

-- `ExecutionRequestedEvent | ExecutionCancelRequestedEvent`
pub data ExecutionQueueEvent : Type 0 where
  requested : ExecutionRequestedEvent → ExecutionQueueEvent
  cancel_requested : ExecutionCancelRequestedEvent → ExecutionQueueEvent

abbrev pub event_id : ExecutionQueueEvent → ℕ
event_id (requested e) = e.execution_id
event_id (cancel_requested e) = e.execution_id

pub record DurableExecutionState : Type 0 where
  pub status : ExecutionStatus
  pub kubernetes_job_name : Option String

-- `status in {dispatching, running}`
abbrev pub is_in_progress : ExecutionStatus → Bool
is_in_progress dispatching = true
is_in_progress running = true
is_in_progress _ = false

abbrev pub is_status_queued : ExecutionStatus → Bool
is_status_queued queued = true
is_status_queued _ = false

abbrev pub is_status_cancelled : ExecutionStatus → Bool
is_status_cancelled cancelled = true
is_status_cancelled _ = false

-- `status in {queued, dispatching, running}`
abbrev pub is_active : ExecutionStatus → Bool
is_active queued = true
is_active dispatching = true
is_active running = true
is_active _ = false

-- A name is kept by `_load_state` only if it is no empty text.
unfoldable pub classify_event : ExecutionQueueEvent → Option DurableExecutionState → DlqDisposition
classify_event event none = hold_unknown
classify_event (requested _) (some s) =
    if is_status_queued s.status
    then replay
    else if is_in_progress s.status
    then hold_in_progress
    else discard_terminal
classify_event (cancel_requested _) (some s) =
    if is_status_cancelled s.status && is_some (text_or_none s.kubernetes_job_name)
    then replay
    else if is_status_cancelled s.status
    then discard_terminal
    else if is_active s.status
    then hold_in_progress
    else discard_terminal

abbrev pub with_status :
    Option ExecutionStatus → ExecutionRow → Result (Option DurableExecutionState)
with_status none r = err value_error
with_status (some status) r =
    ok (some (record { status = status; kubernetes_job_name = text_or_none r.kubernetes_job_name }))

abbrev pub state_of_row : Option ExecutionRow → Result (Option DurableExecutionState)
state_of_row none = ok none
state_of_row (some r) = with_status (parse_status (state_text r.state)) r

-- `ExecutionStatus(…)` raises on a legacy label.
unfoldable pub load_state : Db → ExecutionQueueEvent → Result (Option DurableExecutionState)
load_state db event = state_of_row (find_request (event_id event) db)

pub record Message : Type 0 where
  pub message_id : String
  pub body : String
  pub receipt_handle : String

-- The parts of `DlqClassification` that the batches use; `reason` and the ids are printed.
pub record DlqClassification : Type 0 where
  pub message_id : String
  pub execution_id : Option ℕ
  pub disposition : DlqDisposition

abbrev pub classified :
    Message → ExecutionQueueEvent → Result (Option DurableExecutionState) → Result DlqClassification
classified m event (err e) = err e
classified m event (ok state) = ok (record {
  message_id = m.message_id;
  execution_id = some (event_id event);
  disposition = classify_event event state;
})

-- What `json.loads` and `parse_execution_queue_event` make of the body, or `none` where they raise.
abbrev pub classify_decoded : Db → Message → Option ExecutionQueueEvent → Result DlqClassification
classify_decoded db m none =
    ok (record { message_id = m.message_id; execution_id = none; disposition = hold_malformed })
classify_decoded db m (some event) = classified m event (load_state db event)

unfoldable pub classify_message :
    (String → Option ExecutionQueueEvent) → Db → Message → Result DlqClassification
classify_message decode db m = classify_decoded db m (decode m.body)

-- The calls of the two queues' clients: the body that is sent, the receipt of the message that is
-- deleted, and the receipt and the timeout in seconds of the one that is made visible.
pub data QueueCall : Type 0 where
  send_message : String → QueueCall
  delete_message : String → QueueCall
  change_message_visibility : String → ℕ → QueueCall

-- A call that was made; one that did not return has raised, with or without an effect.
pub record Made : Type 0 where
  pub call : QueueCall
  pub returned : Bool

-- What a call raises after the calls before it, the latest first, if it raises.
abbrev pub Answers : Type 0
Answers = List Made → QueueCall → Option Error

abbrev pub record_call : QueueCall → List Made → Option Error → Result (Unit {0}) × List Made
record_call c log none = (ok tt, record { call = c; returned = true } ∷ log)
record_call c log (some e) = (err e, record { call = c; returned = false } ∷ log)

abbrev pub perform : Answers → QueueCall → List Made → Result (Unit {0}) × List Made
perform answers c log = record_call c log (answers log c)

-- The statements after a call run if it returned.
abbrev pub and_then :
    {A : Type 0}
    → Result (Unit {0}) × List Made
    → (List Made → Result A × List Made)
    → Result A × List Made
and_then (ok _, log) next = next log
and_then (err e, log) next = (err e, log)

abbrev pub is_replay : DlqDisposition → Bool
is_replay replay = true
is_replay _ = false

abbrev pub is_discard : DlqDisposition → Bool
is_discard discard_terminal = true
is_discard _ = false

abbrev pub one_if : Bool → ℕ
one_if true = 1
one_if false = 0

-- The two branches of one turn of `replay_batch`.
unfoldable pub replay_one : Answers → Message → Bool → List Made → Result (Unit {0}) × List Made
replay_one answers m true log =
    and_then (perform answers (send_message m.body) log)
      (λ sent. perform answers (delete_message m.receipt_handle) sent)
replay_one answers m false log = perform answers (change_message_visibility m.receipt_handle 0) log

unfoldable pub discard_one : Answers → Message → Bool → List Made → Result (Unit {0}) × List Made
discard_one answers m true log = perform answers (delete_message m.receipt_handle) log
discard_one answers m false log = perform answers (change_message_visibility m.receipt_handle 0) log

-- One batch over the received messages: the number that is returned, or the error that ends it, and
-- the calls that were made until then, the latest first.
module _ (decode : String → Option ExecutionQueueEvent) (answers : Answers) (db : Db) where
  unfoldable pub replay_each : List Message → ℕ → List Made → Result ℕ × List Made
  replay_each [] replayed log = (ok replayed, log)
  replay_each (m ∷ messages) replayed log = elim (classify_message decode db m) [
    | err e ↦ (err e, log)
    | ok c ↦
        let again = is_replay c.disposition in
        and_then (replay_one answers m again log)
          (λ later. replay_each messages (replayed + one_if again) later)
  ]

  unfoldable pub replay_batch : List Message → Result ℕ × List Made
  replay_batch messages = replay_each messages 0 []

  unfoldable pub discard_each : List Message → ℕ → List Made → Result ℕ × List Made
  discard_each [] discarded log = (ok discarded, log)
  discard_each (m ∷ messages) discarded log = elim (classify_message decode db m) [
    | err e ↦ (err e, log)
    | ok c ↦
        let over = is_discard c.disposition in
        and_then (discard_one answers m over log)
          (λ later. discard_each messages (discarded + one_if over) later)
  ]

  unfoldable pub discard_terminal_batch : List Message → Result ℕ × List Made
  discard_terminal_batch messages = discard_each messages 0 []
