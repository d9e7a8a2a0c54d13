-- ===== src/History/Claims.antt =====
-- Ownership over any history: an execution is claimed once, and a worker whose attempt was replaced
-- cannot write a result.
use leetcode_platform.Prelude.{ℕ, String, ◌≡◌, ◌≢◌, false, some, arith, inl, inr, Bool-cases}
use leetcode_platform.Execution.Store.{Db, Clock, ExecutionRow}
use leetcode_platform.Execution.Create.{Digest}
use leetcode_platform.Execution.Claims.{
  ExecutionClaim, Deadline, is_queued, claim_for_dispatch, retry_missing_sandbox,
  lock_owned_attempt,
}
use leetcode_platform.Execution.Claims.Laws.{claim-granted, claim-not_queued}
use leetcode_platform.Execution.Claims.Fencing.{lock-other_attempt, retry-granted}
use leetcode_platform.Execution.Action.{ok}
use leetcode_platform.Execution.Evolution.{Progress, find-Evolves}
use leetcode_platform.History.{Reach}
use leetcode_platform.History.Terminal.{Reach-Evolves}

pub not_queued :
    (r s : ExecutionRow) → Progress r s → is_queued r.state ≡ false → is_queued s.state ≡ false
not_queued r s p h = elim (Bool-cases (is_queued s.state)) [
  | inl queued ↦ absurd (cc (p.queued_untouched queued, h))
  | inr busy ↦ busy
]

module _ {digest : Digest} {limit : ℕ} where
  -- Once one worker's claim of an execution is granted, no later claim of it is, by any worker at
  -- any time after any transactions, and the later attempt leaves the tables as they are.
  pub claimed_once :
      (clock clock' : Clock) (k : ℕ) (w w' : String) (d d' : Deadline) (a b : Db)
      (c c' : ExecutionClaim)
      → (claim_for_dispatch clock k w d a).0 ≡ ok (some c)
      → Reach digest limit (claim_for_dispatch clock k w d a).1 b
      → ((claim_for_dispatch clock' k w' d' b).0 ≢ ok (some c'))
        × ((claim_for_dispatch clock' k w' d' b).1 ≡ b)
  claimed_once clock clock' k w w' d d' a b c c' granted path =
      let (r, s, _, _, found, busy, _, _) = claim-granted clock k w d a c granted in
      let (t, here, p) = find-Evolves _ b.requests (Reach-Evolves path) k s found in
      let (refused, same) = claim-not_queued clock' k w' d' b t here (not_queued s t p busy) in
      (refused c', same)

  -- Once the retry of an attempt is granted, no worker gets the lock on the old attempt again,
  -- whatever happens later.
  pub stale_attempt_fenced :
      (clock clock' : Clock) (k n m : ℕ) (w w' : String) (d : Deadline) (a b : Db) (n' : ℕ)
      → (retry_missing_sandbox clock k n w d m a).0 ≡ ok (some n')
      → Reach digest limit (retry_missing_sandbox clock k n w d m a).1 b
      → lock_owned_attempt clock' k w' n b ≡ (ok false, b)
  stale_attempt_fenced clock clock' k n m w w' d a b n' granted path =
      let (r, s, _, _, _, _, up, found, count) = retry-granted clock k n w m d a n' granted in
      let (t, here, p) = find-Evolves _ b.requests (Reach-Evolves path) k s found in
      lock-other_attempt clock' k w' n b t here (omega (arith, p.attempts_grow))
