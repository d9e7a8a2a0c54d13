-- ===== src/Outbox/Counts.antt =====
-- apps/api/src/rigor_api/execution_publisher.py: the counters of `publish_claimed_messages`, and the
-- message that it cannot get past.
use leetcode_platform.Prelude.{ℕ, String, ◌≡◌, ◌≤◌, refl, Bool, some, List, ◌∷◌, length}
use leetcode_platform.Execution.Status.{overflow_error}
use leetcode_platform.Execution.Store.{Db, Clock}
use leetcode_platform.Execution.Action.{ok, err, pure, ◌>>=◌, transaction}
use leetcode_platform.Execution.Action.Returns.{bind-returned, bind-err, transaction-err}
use leetcode_platform.Outbox.{
  OutboxMessage, Outside, PublishBatchResult, claim_batch, mark_failed, deliver, publish_each,
  publish_claimed_messages,
}
use leetcode_platform.Outbox.Delay.{delay-overflow}

abbrev batch_result : List OutboxMessage → ℕ × ℕ → PublishBatchResult
batch_result messages c = record { claimed = length messages; published = c.0; failed = c.1 }

module _ (out : Outside) (clock : Clock) where
  mark_failed-overflow :
      (m : OutboxMessage) (e : String) (db : Db)
      → (out.random m.id).num ≤ (out.random m.id).den
      → 1024 ≤ m.attempt_count
      → (mark_failed out clock m e db).0 ≡ err overflow_error
  unfolding mark_failed ◌>>=◌
  mark_failed-overflow m e db unit large =
      rw (delay-overflow 1 300 m.attempt_count (out.random m.id) unit large) refl

  -- A message that was tried 1024 times or more and is the first of the batch stops the batch if the
  -- transport refuses it once more: the delay cannot be computed, and the transaction ends with
  -- that error and without a change, so neither it nor any other message is marked.
  pub overflow_blocks_batch :
      (locked : ℕ → Bool) (limit : ℕ) (db : Db) (m : OutboxMessage) (ms : List OutboxMessage)
      (e : String)
      → (claim_batch clock locked limit db).0 ≡ ok (m ∷ ms)
      → out.publish m ≡ some e
      → (out.random m.id).num ≤ (out.random m.id).den
      → 1024 ≤ m.attempt_count
      → transaction (publish_claimed_messages out clock locked limit) db ≡ (err overflow_error, db)
  unfolding publish_claimed_messages publish_each deliver
  overflow_blocks_batch locked limit db m ms e claimed refused unit large =
      let db' = (claim_batch clock locked limit db).1 in
      transaction-err (publish_claimed_messages out clock locked limit) db overflow_error (
        rw
          (bind-returned (claim_batch clock locked limit)
            (λ ms. publish_each out clock ms (0, 0) >>= λ c. pure (batch_result ms c)) db (m ∷ ms)
            claimed)
          (bind-err (publish_each out clock (m ∷ ms) (0, 0)) (λ c. pure (batch_result (m ∷ ms) c))
            db' overflow_error
            (bind-err (deliver out clock m (out.publish m) 0 0) (publish_each out clock ms) db'
              overflow_error
              (rw refused (
                bind-err (mark_failed out clock m e) (λ _. pure (0, 1)) db' overflow_error
                  (mark_failed-overflow m e db' unit large))))))
