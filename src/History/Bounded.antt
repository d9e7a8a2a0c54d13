-- ===== src/History/Bounded.antt =====
-- The row invariant over any history.
use leetcode_platform.Prelude.{ℕ, ◌≡◌, some}
use leetcode_platform.Execution.Store.{Db, ExecutionRow, find_request}
use leetcode_platform.Execution.Create.{Digest}
use leetcode_platform.Execution.Action.Keeps.{Keeps-transaction}
use leetcode_platform.Execution.Sound.{SoundDb, IsSound, find-AllSound}
use leetcode_platform.Execution.Sound.Claims.{
  claim_for_dispatch-Sound, retry_missing_sandbox-Sound, mark_running-Sound, renew_lease-Sound,
}
use leetcode_platform.Execution.Sound.Create.{create_queued-Sound}
use leetcode_platform.Execution.Sound.Repository.{cancel-Sound, persist_terminal_result-Sound}
use leetcode_platform.Controller.Sound.{
  reacquire-Sound, expire_lease-Sound, release_cancelled-Sound, forget_job-Sound,
}
use leetcode_platform.History.{
  Step, Reach, create, claim, retry, start, renew, cancel_step, persist, take_over, defer, release,
  forget, outbox_work, practice_work, here, next,
}

module _ {digest : Digest} {limit : ℕ} where
  mutual
    Step-Sound : {a b : Db} → Step digest limit a b → SoundDb limit a → SoundDb limit b
    Step-Sound (create {db = db} clock p q k o r) h =
        (create_queued-Sound limit digest clock p _ (λ x hx. Reach-Sound r h) q k o).at db h
    Step-Sound (claim {db = db} clock k w d) h =
        (Keeps-transaction _ (claim_for_dispatch-Sound limit clock k w d)).at db h
    Step-Sound (retry {db = db} clock k n w d m below) h =
        (Keeps-transaction _ (retry_missing_sandbox-Sound limit clock k n w d m below)).at db h
    Step-Sound (start {db = db} clock k w ns job) h =
        (Keeps-transaction _ (mark_running-Sound limit clock k w ns job)).at db h
    Step-Sound (renew {db = db} clock k w d) h =
        (Keeps-transaction _ (renew_lease-Sound limit clock k w d)).at db h
    Step-Sound (cancel_step {db = db} clock k trace o) h =
        (Keeps-transaction _ (cancel-Sound limit clock k trace o)).at db h
    Step-Sound (persist {db = db} clock k p ends) h =
        (Keeps-transaction _ (persist_terminal_result-Sound limit clock k p ends)).at db h
    Step-Sound (take_over {db = db} clock k s n w t) h =
        (Keeps-transaction _ (reacquire-Sound limit clock k s n w t)).at db h
    Step-Sound (defer {db = db} clock k w n e) h =
        (Keeps-transaction _ (expire_lease-Sound limit clock k w n e)).at db h
    Step-Sound (release {db = db} k) h =
        (Keeps-transaction _ (release_cancelled-Sound limit k)).at db h
    Step-Sound (forget {db = db} k) h = (Keeps-transaction _ (forget_job-Sound limit k)).at db h
    Step-Sound (outbox_work rows) h = record { rows = h.rows }
    Step-Sound (practice_work d) h = record { rows = h.rows }

    Reach-Sound : {a b : Db} → Reach digest limit a b → SoundDb limit a → SoundDb limit b
    Reach-Sound here h = h
    Reach-Sound (next r s) h = Step-Sound s (Reach-Sound r h)

  -- In tables whose requests are sound, every request that is there after any sequence of
  -- transactions was attempted at most as often as the limit allows (a first attempt is always
  -- allowed), not at all while it is queued and at least once while it is in flight; and it has a
  -- time of completion exactly if it has ended.
  pub attempts_bounded :
      (a b : Db) (k : ℕ) (r : ExecutionRow)
      → Reach digest limit a b
      → SoundDb limit a
      → find_request k b ≡ some r
      → IsSound limit r
  attempts_bounded a b k r path h found =
      find-AllSound limit k b.requests r (Reach-Sound path h).rows found
