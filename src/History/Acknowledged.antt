-- ===== src/History/Acknowledged.antt =====
-- apps/api/src/rigor_api/execution_controller.py: a message of a requested execution is taken off
-- the queue only when the execution no longer waits for one.
use leetcode_platform.Prelude.{
  ℕ, String, ◌≡◌, ◌≢◌, ◌≤◌, refl, Bool, true, false, Option, none, some, inl, inr, Bool-cases,
  Option-cases, leb, ◌+◌,
}
use leetcode_platform.Execution.Store.{Db, Clock, ExecutionRow, find_request}
use leetcode_platform.Execution.Create.{Digest}
use leetcode_platform.Execution.Repository.{get_execution}
use leetcode_platform.Execution.Action.{ok, pure, attempt, ◌>>=◌}
use leetcode_platform.Execution.Action.Returns.{bind-ok, bind-returned}
use leetcode_platform.Execution.Claims.{ExecutionClaim, aware, is_queued, claim_for_dispatch}
use leetcode_platform.Execution.Claims.Laws.{
  claim-past, claim-missing, claim-refused, claim-taken, claim-granted,
}
use leetcode_platform.Execution.Evolution.{find-Evolves}
use leetcode_platform.History.{Reach, here}
use leetcode_platform.History.Terminal.{Reach-Evolves}
use leetcode_platform.History.Claims.{not_queued}
use leetcode_platform.History.Controlled.{Reach-Kept}
use leetcode_platform.DeadLetters.{Message, ExecutionRequestedEvent, requested}
use leetcode_platform.Controller.Flow.{Outside, World, returns, return, call, utc_now}
use leetcode_platform.Controller.Flow.Yields.{Yields, Yields-any, Yields-bind, Yields-transact}
use leetcode_platform.Controller.Attempts.{ExecutionControllerSettings}
use leetcode_platform.Controller.Messages.{
  dispatch, process_requested, acknowledge, process_event, process_message,
}
use leetcode_platform.Controller.Kept.Messages.{dispatch-FlowKeeps, acknowledge-FlowKeeps}
use leetcode_platform.Controller.Kept.{requested_package-Commits}
use leetcode_platform.Controller.Transactions.{
  Requested, not_claimed, claimed, execution_status, requested_package, claim_package,
}

-- The execution is there and no longer in the queue.
abbrev pub Busy : ℕ → Db → Type 0
Busy k db = (s : ExecutionRow) × (find_request k db ≡ some s) × (is_queued s.state ≡ false)

missing_answer :
    (k : ℕ) (db : Db)
    → find_request k db ≡ none
    → (requested_package k none db).0 ≡ ok (not_claimed false)
unfolding requested_package execution_status get_execution attempt ◌>>=◌ pure
missing_answer k db missing = rw missing refl

module _ (clock : Clock) (k : ℕ) (w : String) (t : ℕ) (db : Db) where
  -- Where nothing was claimed, the row that is there was not in the queue.
  unclaimed_busy :
      (s : ExecutionRow)
      → (claim_for_dispatch clock k w (aware t) db).0 ≡ ok none
      → find_request k (claim_for_dispatch clock k w (aware t) db).1 ≡ some s
      → is_queued s.state ≡ false
  unclaimed_busy s h found = elim (Bool-cases (leb t clock.utc_now)) [
    | inl past ↦ absurd (cc (rw (claim-past clock k w t db past) at h))
    | inr future ↦ elim (Option-cases (find_request k db)) [
      | inl missing ↦
          absurd (cc (rw (claim-missing clock k w t db future missing) at found, missing))
      | inr (r, there) ↦ elim (Bool-cases (is_queued r.state)) [
        | inl queued ↦ absurd (cc (claim-taken clock k w t db future r there queued, h))
        | inr busy ↦
            let now = rw (claim-refused clock k w t db future r there busy) at found in
            cc (now, there, busy)
      ]
    ]
  ]

  answered-Busy :
      (c : Option ExecutionClaim) (found : Requested)
      → (claim_for_dispatch clock k w (aware t) db).0 ≡ ok c
      → (requested_package k c (claim_for_dispatch clock k w (aware t) db).1).0 ≡ ok found
      → found ≢ not_claimed false
      → Busy k (claim_for_dispatch clock k w (aware t) db).1
  answered-Busy (some c) found got last other =
      let (_, s, _, _, there, busy, _, _) = claim-granted clock k w (aware t) db c got in
      (s, there, busy)
  answered-Busy none found got last other =
      let db' = (claim_for_dispatch clock k w (aware t) db).1 in
      elim (Option-cases (find_request k db')) [
        | inl missing ↦ absurd (other (cc (missing_answer k db' missing, last)))
        | inr (s, there) ↦ (s, there, unclaimed_busy s got there)
      ]

  pub claim_package-Busy :
      (found : Requested)
      → (claim_package clock k w t db).0 ≡ ok found
      → found ≢ not_claimed false
      → Busy k (claim_package clock k w t db).1
  unfolding claim_package
  claim_package-Busy found h other =
      let (c, got, last) =
        bind-ok (claim_for_dispatch clock k w (aware t)) (requested_package k) db found h in
      rw (bind-returned (claim_for_dispatch clock k w (aware t)) (requested_package k) db c got) (
        (requested_package-Commits {P = Busy k} k c).at
          (claim_for_dispatch clock k w (aware t) db).1 (answered-Busy c found got last other)
          (rw last refl))

Busy-after :
    {digest : Digest} {limit : ℕ} (k : ℕ) (a b : Db) → Reach digest limit a b → Busy k a → Busy k b
Busy-after k a b path (r, found, busy) =
    let (s, there, p) = find-Evolves a.requests b.requests (Reach-Evolves path) k r found in
    (s, there, not_queued r s p busy)

-- What the first transaction of `_process_requested` leaves.
abbrev Waits : ℕ → Requested → Db → Type 0
Waits k found db = found ≢ not_claimed false → Busy k db

unknown_refused :
    (out : Outside) (settings : ExecutionControllerSettings) (message : Message) (found : Requested)
    (w : World)
    → (dispatch out settings message found w).0 ≡ returns true
    → found ≢ not_claimed false
unfolding dispatch return
unknown_refused out settings message (not_claimed true) w h same = cc
unknown_refused out settings message (not_claimed false) w h same = cc
unknown_refused out settings message (claimed pkg) w h same = cc

acknowledged_alone :
    (out : Outside) (settings : ExecutionControllerSettings) (message : Message) (b : Bool)
    (w : World)
    → (acknowledge out settings message b w).0 ≡ returns true
    → b ≡ true
unfolding acknowledge return
acknowledged_alone out settings message true w h = refl
acknowledged_alone out settings message false w h = cc

module _ {digest : Digest} {limit : ℕ} (out : Outside) (settings : ExecutionControllerSettings)
    (below : settings.max_attempts ≤ limit)
    (others : (n : ℕ) (db : Db) → Reach digest limit db (out.others n db)) where
  dispatched-Busy :
      (k : ℕ) (message : Message) (found : Requested) (w : World) (b : Bool)
      → Waits k found w.db
      → (dispatch out settings message found w).0 ≡ returns b
      → b ≡ true
      → Busy k (dispatch out settings message found w).1.db
  dispatched-Busy k message found w b waits h sure =
      let kept = Reach-Kept w.db out settings.max_attempts below others in
      Busy-after k w.db _ ((dispatch-FlowKeeps kept settings message found).at w here)
        (waits (unknown_refused out settings message found w (rw sure at h)))

  requested-Busy :
      (event : ExecutionRequestedEvent) (message : Message)
      → Yields
          (λ b db. b ≡ true → Busy event.execution_id db)
          (process_requested out settings event message)
  unfolding process_requested
  requested-Busy event message = Yields-bind _ _ _ _ (Yields-any (utc_now out)) (λ now w b _ h.
      (Yields-bind (Waits event.execution_id) (λ b' db. b' ≡ true → Busy event.execution_id db) _ _
          (Yields-transact (Waits event.execution_id) out _ (λ clock db found got.
            claim_package-Busy clock event.execution_id settings.worker_id
              (now + settings.lease_seconds) db found got))
          (λ found w' b' waits h'.
            dispatched-Busy event.execution_id message found w' b' waits h')).at
        w b h)

  acknowledged-Busy :
      (k : ℕ) (message : Message) (b : Bool) (w : World) (c : Bool)
      → (b ≡ true → Busy k w.db)
      → (acknowledge out settings message b w).0 ≡ returns c
      → c ≡ true
      → Busy k (acknowledge out settings message b w).1.db
  acknowledged-Busy k message b w c busy h sure =
      let kept = Reach-Kept w.db out settings.max_attempts below others in
      Busy-after k w.db _ ((acknowledge-FlowKeeps kept settings message b).at w here)
        (busy (acknowledged_alone out settings message b w (rw sure at h)))

  event-Busy :
      (event : ExecutionRequestedEvent) (message : Message)
      → Yields
          (λ b db. b ≡ true → Busy event.execution_id db)
          (process_event out settings message (some (requested event)))
  event-Busy event message = Yields-bind _ _ _ _ (Yields-any (call out _)) (λ _ w b _ h.
      (Yields-bind (λ b' db. b' ≡ true → Busy event.execution_id db)
          (λ b' db. b' ≡ true → Busy event.execution_id db) _ _ (requested-Busy event message)
          (λ b' w' c busy h'. acknowledged-Busy event.execution_id message b' w' c busy h')).at
        w b h)

  -- Where the handling of a message of a requested execution answers that it is acknowledged, the
  -- execution is there and no longer waits in the queue, if what the others commit in between are
  -- transactions of the pipeline: no acknowledged execution is lost.
  pub acknowledged_not_lost :
      (event : ExecutionRequestedEvent) (message : Message) (w : World)
      → out.decode message.body ≡ some (requested event)
      → (process_message out settings message w).0 ≡ returns true
      → (s : ExecutionRow) × (find_request event.execution_id
            (process_message out settings message w).1.db
          ≡ some s)
        × (is_queued s.state ≡ false)
  unfolding process_message
  acknowledged_not_lost event message w decoded h =
      rw decoded ((event-Busy event message).at w true (rw decoded at h) refl)
