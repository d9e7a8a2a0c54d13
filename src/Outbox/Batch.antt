-- ===== src/Outbox/Batch.antt =====
-- apps/api/src/rigor_api/outbox.py: `claim_batch`.
use leetcode_platform.Prelude.{
  ◌<◌, ◌⊎◌, none, some, inl, inr, refl, [], ◌∷◌, ◌==◌, find, ◌∙◌, select_rows, select_rows_complete,
  length-map, ℕ, ◌≡◌, ◌≤◌, Bool, true, false, List, arith, ◌&&◌, leb, map, length, count_of,
}
use leetcode_platform.Execution.Store.{Db, Clock, OutboxRow}
use leetcode_platform.Execution.Action.{ok, raise_if, gets, ◌>>=◌}
use leetcode_platform.Outbox.{
  OutboxMessage, oldest_first, is_claimable, select_batch, message_of, claim_batch, outbox_id,
}

-- The message is of the row `k`.
abbrev pub is_message_of : ℕ → OutboxMessage → Bool
is_message_of k message = message.id == k

-- `ORDER BY created_at, id`: the older row first, of two of one time the one with the lower id.
abbrev pub Older : OutboxRow → OutboxRow → Type 0
Older o x = (o.created_at < x.created_at) ⊎ ((o.created_at ≡ x.created_at) × (o.id ≤ x.id))

module _ (clock : Clock) (locked : ℕ → Bool) where
  -- Unpublished, due and not locked by another worker.
  abbrev pub IsDue : OutboxRow → Type 0
  IsDue o =
      (o.published_at ≡ none)
      × (o.next_attempt_at ≤ clock.current_timestamp)
      × (locked o.id ≡ false)

  due-is_claimable : (o : OutboxRow) → IsDue o → is_claimable clock locked o ≡ true
  unfolding is_claimable
  due-is_claimable o (unsent, due, free) = rw (unsent, free) (ground arith)

module _ (clock : Clock) (locked : ℕ → Bool) (limit : ℕ) where
  count_of-messages :
      (k : ℕ) (rows : List OutboxRow)
      → count_of (is_message_of k) (map message_of rows) ≡ count_of (λ o. outbox_id o == k) rows
  count_of-messages k [] = refl
  count_of-messages k (o ∷ rows) = ground (arith, count_of-messages k rows)

  -- For 1 to 100 messages asked for a batch is returned, and leaves no row behind while it has room:
  -- the message of every row that is unpublished, due and not locked is in it, or the batch is as
  -- long as was asked for.
  pub due_claimed :
      (db : Db) (k : ℕ) (o : OutboxRow)
      → 1 ≤ limit
      → limit ≤ 100
      → find outbox_id k db.outbox ≡ some o
      → o.published_at ≡ none
      → o.next_attempt_at ≤ clock.current_timestamp
      → locked o.id ≡ false
      → (messages : List OutboxMessage) × ((claim_batch clock locked limit db).0 ≡ ok messages)
        × ((length messages ≡ limit) ⊎ (1 ≤ count_of (is_message_of k) messages))
  unfolding claim_batch raise_if select_batch gets ◌>>=◌
  due_claimed db k o least most found unsent due free =
      let rows = select_rows oldest_first (is_claimable clock locked) limit db.outbox in
      let inside : (leb 1 limit && leb limit 100) ≡ true = ground arith in
      (
        map message_of rows,
        rw inside refl,
        elim (select_rows_complete oldest_first (is_claimable clock locked) limit outbox_id k
            db.outbox o found (due-is_claimable clock locked o (unsent, due, free))) [
              | inl full ↦ inl (length-map message_of rows ∙ full)
              | inr there ↦ inr (omega (arith, there, count_of-messages k rows))
            ],
      )
