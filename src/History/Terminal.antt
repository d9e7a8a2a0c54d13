-- ===== src/History/Terminal.antt =====
-- What any sequence of steps leaves standing of an execution that is there.
use leetcode_platform.Prelude.{ℕ, ◌≡◌, true, some}
use leetcode_platform.Execution.Store.{Db, ExecutionRow, find_request}
use leetcode_platform.Execution.Create.{Digest}
use leetcode_platform.Execution.Action.Keeps.{Keeps-transaction}
use leetcode_platform.Execution.Evolution.{is_settled, Evolves, find-Evolves}
use leetcode_platform.Execution.Since.{Since, Since-refl}
use leetcode_platform.Execution.Since.Claims.{
  claim_for_dispatch-Since, retry_missing_sandbox-Since, mark_running-Since, renew_lease-Since,
}
use leetcode_platform.Execution.Since.Create.{create_queued-Since}
use leetcode_platform.Execution.Since.Repository.{cancel-Since}
use leetcode_platform.Execution.Since.Persist.{persist_terminal_result-Since}
use leetcode_platform.Controller.Since.{
  reacquire-Since, expire_lease-Since, release_cancelled-Since, forget_job-Since,
}
use leetcode_platform.History.{
  Step, Reach, create, claim, retry, start, renew, cancel_step, persist, take_over, defer, release,
  forget, outbox_work, practice_work, here, next,
}

module _ {digest : Digest} {limit : ℕ} {origin : Db} where
  mutual
    Step-Since : {a b : Db} → Step digest limit a b → Since origin a → Since origin b
    Step-Since (create {db = db} clock p q k o r) h =
        (create_queued-Since _ (λ x hx. Reach-Since r h) digest clock p q k o).at db h
    Step-Since (claim {db = db} clock k w d) h =
        (Keeps-transaction _ (claim_for_dispatch-Since clock k w d)).at db h
    Step-Since (retry {db = db} clock k n w d m below) h =
        (Keeps-transaction _ (retry_missing_sandbox-Since clock k n w d m)).at db h
    Step-Since (start {db = db} clock k w ns job) h =
        (Keeps-transaction _ (mark_running-Since clock k w ns job)).at db h
    Step-Since (renew {db = db} clock k w d) h =
        (Keeps-transaction _ (renew_lease-Since clock k w d)).at db h
    Step-Since (cancel_step {db = db} clock k trace o) h =
        (Keeps-transaction _ (cancel-Since clock k trace o)).at db h
    Step-Since (persist {db = db} clock k p ends) h =
        (Keeps-transaction _ (persist_terminal_result-Since clock k p)).at db h
    Step-Since (take_over {db = db} clock k s n w t) h =
        (Keeps-transaction _ (reacquire-Since clock k s n w t)).at db h
    Step-Since (defer {db = db} clock k w n e) h =
        (Keeps-transaction _ (expire_lease-Since clock k w n e)).at db h
    Step-Since (release {db = db} k) h = (Keeps-transaction _ (release_cancelled-Since k)).at db h
    Step-Since (forget {db = db} k) h = (Keeps-transaction _ (forget_job-Since k)).at db h
    Step-Since (outbox_work rows) h = record { rows = h.rows }
    Step-Since (practice_work d) h = record { rows = h.rows }

    Reach-Since : {a b : Db} → Reach digest limit a b → Since origin a → Since origin b
    Reach-Since here h = h
    Reach-Since (next r s) h = Step-Since s (Reach-Since r h)

module _ {digest : Digest} {limit : ℕ} where
  -- No sequence of transactions takes an execution back in its life, or loses it.
  pub Reach-Evolves : {a b : Db} → Reach digest limit a b → Evolves a.requests b.requests
  Reach-Evolves {a} r = (Reach-Since {origin = a} r (Since-refl a)).rows

  -- An execution that has ended stays as it ended, whatever transactions follow.
  pub terminal_absorbs :
      (a b : Db) (k : ℕ) (r : ExecutionRow)
      → Reach digest limit a b
      → find_request k a ≡ some r
      → is_settled r.state ≡ true
      → (s : ExecutionRow) × (find_request k b ≡ some s)
        × (s.state ≡ r.state)
        × (s.completed_at ≡ r.completed_at)
        × (s.attempt_count ≡ r.attempt_count)
  terminal_absorbs a b k r path found settled =
      let (s, e, p) = find-Evolves a.requests b.requests (Reach-Evolves path) k r found in
      (s, e, p.settled_stays settled, p.settled_completion settled, p.settled_attempts settled)
