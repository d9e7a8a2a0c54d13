-- ===== src/DeadLetters/Discard.antt =====
-- apps/api/src/rigor_api/execution_dlq.py: a message that is dropped is of an execution that has
-- ended for good.
use leetcode_platform.Prelude.{
  ℕ, String, ◌≡◌, refl, ap, true, Option, some, inl, inr, Option-cases, eq_of_some,
}
use leetcode_platform.Execution.Status.{
  ExecutionStatus, ExecutionState, is_terminal, parse_status, state_text,
}
use leetcode_platform.Execution.Store.{Db, ExecutionRow, find_request}
use leetcode_platform.Execution.Create.{Digest}
use leetcode_platform.Execution.Evolution.{is_settled}
use leetcode_platform.Execution.Action.{Result, ok}
use leetcode_platform.History.{Reach}
use leetcode_platform.History.Terminal.{terminal_absorbs}
use leetcode_platform.DeadLetters.{
  ExecutionQueueEvent, requested, cancel_requested, ExecutionRequestedEvent,
  ExecutionCancelRequestedEvent, event_id, DurableExecutionState, discard_terminal, classify_event,
  load_state, with_status,
}

requested-terminal :
    (e : ExecutionRequestedEvent) (s : ExecutionStatus) (j : Option String)
    → classify_event (requested e) (some (record { status = s; kubernetes_job_name = j }))
      ≡ discard_terminal
    → is_terminal s ≡ true
unfolding classify_event
requested-terminal e ExecutionStatus.queued j h = cc
requested-terminal e ExecutionStatus.dispatching j h = cc
requested-terminal e ExecutionStatus.running j h = cc
requested-terminal e _ j h = refl

cancel-terminal :
    (e : ExecutionCancelRequestedEvent) (s : ExecutionStatus) (j : Option String)
    → classify_event (cancel_requested e) (some (record { status = s; kubernetes_job_name = j }))
      ≡ discard_terminal
    → is_terminal s ≡ true
unfolding classify_event
cancel-terminal e ExecutionStatus.queued j h = cc
cancel-terminal e ExecutionStatus.dispatching j h = cc
cancel-terminal e ExecutionStatus.running j h = cc
cancel-terminal e _ j h = refl

discard-terminal :
    (event : ExecutionQueueEvent) (s : DurableExecutionState)
    → classify_event event (some s) ≡ discard_terminal
    → is_terminal s.status ≡ true
discard-terminal (requested e) s h = requested-terminal e s.status s.kubernetes_job_name h
discard-terminal (cancel_requested e) s h = cancel-terminal e s.status s.kubernetes_job_name h

abbrev status_in : Result (Option DurableExecutionState) → ExecutionStatus
status_in (ok (some s)) = s.status
status_in _ = ExecutionStatus.queued

parsed-settled :
    (s : ExecutionState) (st : ExecutionStatus)
    → parse_status (state_text s) ≡ some st
    → is_terminal st ≡ true
    → is_settled s ≡ true
unfolding parse_status
parsed-settled ExecutionState.queued st h t =
    let same : ExecutionStatus.queued ≡ st = eq_of_some h in cc (rw (← same) at t)
parsed-settled ExecutionState.dispatching st h t =
    let same : ExecutionStatus.dispatching ≡ st = eq_of_some h in cc (rw (← same) at t)
parsed-settled ExecutionState.running st h t =
    let same : ExecutionStatus.running ≡ st = eq_of_some h in cc (rw (← same) at t)
parsed-settled _ st h t = refl

with_status-settled :
    (r : ExecutionRow) (s : DurableExecutionState)
    → with_status (parse_status (state_text r.state)) r ≡ ok (some s)
    → is_terminal s.status ≡ true
    → is_settled r.state ≡ true
with_status-settled r s h ends = elim (Option-cases (parse_status (state_text r.state))) [
  | inl unknown ↦ absurd (cc (rw unknown at h))
  | inr (st, parsed) ↦
      let same : st ≡ s.status = ap status_in (rw parsed at h) in
      parsed-settled r.state st parsed (rw same ends)
]

-- If a message is classified as one to drop, its execution is there and has ended, and it stays as
-- it ended whatever transactions follow.
pub discard_final :
    {digest : Digest} {limit : ℕ} (a b : Db) (event : ExecutionQueueEvent)
    (s : DurableExecutionState)
    → load_state a event ≡ ok (some s)
    → classify_event event (some s) ≡ discard_terminal
    → Reach digest limit a b
    → (r t : ExecutionRow) × (find_request (event_id event) a ≡ some r)
      × (is_settled r.state ≡ true)
      × (find_request (event_id event) b ≡ some t)
      × (t.state ≡ r.state)
unfolding load_state
discard_final a b event s loaded dropped path =
    elim (Option-cases (find_request (event_id event) a)) [
      | inl missing ↦ absurd (cc (rw missing at loaded))
      | inr (r, found) ↦
          let settled =
            with_status-settled r s (rw found at loaded) (discard-terminal event s dropped) in
          let (t, there, same, _, _) = terminal_absorbs a b (event_id event) r path found settled in
          (r, t, found, settled, there, same)
    ]
