-- ===== src/Examples/Messages.antt =====
-- The theorems about the outbox, the expired leases and the dead letters, at concrete tables.
use leetcode_platform.Prelude.{
  ◌<◌, ◌⊎◌, inl, ℕ, String, Bool, ◌≡◌, refl, true, false, Option, none, some, List, [], ◌∷◌, ◌+◌,
  ◌*◌, ◌^◌, ◌≤◌, min, arith, find, length, count_of, All,
}
use leetcode_platform.Json.{pos}
use leetcode_platform.Execution.Status.{
  overflow_error, transport_error, parse_status, ExecutionStatus,
}
use leetcode_platform.Execution.Store.{Db, ExecutionRow, OutboxRow, find_request}
use leetcode_platform.Execution.Action.{ok, err, transaction, ◌>>=◌}
use leetcode_platform.Execution.Claims.{ExpiredExecutionLease}
use leetcode_platform.Execution.Claims.Expired.{is_lease_of, expired_repaired, expired_leases}
use leetcode_platform.Execution.Evolution.{is_settled}
use leetcode_platform.History.{here}
use leetcode_platform.Outbox.{
  Ratio, Outside, PublishBatchResult, OutboxMessage, message_of, is_claimable, claim_batch,
  select_batch, retry_delay_seconds, jittered, publish_claimed_messages, outbox_id,
}
use leetcode_platform.Outbox.Delay.{delay_bounds}
use leetcode_platform.Outbox.Batch.{is_message_of, due_claimed}
use leetcode_platform.Outbox.Counts.{overflow_blocks_batch}
use leetcode_platform.Outbox.Settled.{published_stays, publish_outbox_only}
use leetcode_platform.DeadLetters.{
  ExecutionQueueEvent, requested, Message, DurableExecutionState, discard_terminal, load_state,
  classify_event, classify_message, replay_batch, replay_each, replay_one, Answers,
}
use leetcode_platform.DeadLetters.Replay.{IsSafe, replay-IsSafe}
use leetcode_platform.DeadLetters.Handled.{IsHandled, sends_again, replay_counts}
use leetcode_platform.DeadLetters.Discard.{discard_final}
use leetcode_platform.Examples.{
  plain_digest, later, queued_row, dispatched_row, completed_row, tables,
}

abbrev waiting : OutboxRow
waiting = record {
  id = 9;
  aggregate_type = "execution";
  aggregate_id = 1;
  event_type = "execution.requested";
  dedupe_key = ("execution.requested", 1);
  payload = [];
  created_at = 10;
  next_attempt_at = 10;
  published_at = none;
  attempt_count = 1024;
  last_error = none;
}

abbrev sent : OutboxRow
sent = record waiting { id = 8; published_at = some 12 }

abbrev mail : Db
mail = record (tables []) { outbox = sent ∷ waiting ∷ [] }

abbrev half : Ratio
half = record { num = 1; den = 2 }

abbrev pub working : Outside
working = record { publish = λ _. none; random = λ _. half; later = λ now _. now + 1 }

abbrev failing : Outside
failing = record {
  publish = λ _. some "TimeoutError";
  random = λ _. half;
  later = λ now _. now + 1;
}

abbrev twenty_four : Ratio
twenty_four = record { num = 24; den = 4 }

delay_works : retry_delay_seconds 1 300 (pos 3) half ≡ ok twenty_four
unfolding retry_delay_seconds jittered
delay_works = refl

delay_bounds_example :
    (twenty_four.den ≡ 2 * half.den)
    × (min 300 (1 * 2 ^ 3) * half.den ≤ twenty_four.num)
    × (twenty_four.num ≤ min 300 (1 * 2 ^ 3) * (2 * half.den))
delay_bounds_example = delay_bounds 1 300 3 half twenty_four delay_works

abbrev free : ℕ → Bool
free _ = false

batch_works : (claim_batch later free 25 mail).0 ≡ ok (message_of waiting ∷ [])
unfolding claim_batch select_batch is_claimable ◌>>=◌
batch_works = refl

due_claimed_example :
    (messages : List OutboxMessage) × ((claim_batch later free 25 mail).0 ≡ ok messages)
    × ((length messages ≡ 25) ⊎ (1 ≤ count_of (is_message_of 9) messages))
due_claimed_example =
    due_claimed later free 25 mail 9 waiting (omega arith) (omega arith) refl refl (omega arith)
      refl

abbrev one_sent : PublishBatchResult
one_sent = record { claimed = 1; published = 1; failed = 0 }

overflow_blocks_batch_example :
    transaction (publish_claimed_messages failing later free 25) mail ≡ (err overflow_error, mail)
overflow_blocks_batch_example =
    overflow_blocks_batch failing later free 25 mail (message_of waiting) [] "TimeoutError"
      batch_works refl (omega arith) (omega arith)

published_stays_example :
    find outbox_id 8 (publish_claimed_messages working later free 25 mail).1.outbox ≡ some sent
published_stays_example = published_stays working later free 25 mail sent refl refl

publish_outbox_only_example :
    (publish_claimed_messages working later free 25 mail).1
    ≡ record mail { outbox = (publish_claimed_messages working later free 25 mail).1.outbox }
publish_outbox_only_example = publish_outbox_only working later free 25 mail

abbrev flying : Db
flying = tables (completed_row ∷ dispatched_row ∷ [])

abbrev abandoned : Db
abandoned = tables (dispatched_row ∷ [])

expired_repaired_example :
    (leases : List ExpiredExecutionLease) × ((expired_leases later free 10 abandoned).0 ≡ ok leases)
    × ((length leases ≡ 10) ⊎ (1 ≤ count_of (is_lease_of 1) leases))
    × All (λ l. l.lease_expires_at < later.current_timestamp) leases
expired_repaired_example =
    expired_repaired later free 10 abandoned 1 dispatched_row 30 (omega arith) (omega arith) refl
      (inl refl) refl (omega arith) refl

abbrev again : ExecutionQueueEvent
again = requested (record { execution_id = 1; attempt = 1; requested_at = 10; trace_id = "trace" })

abbrev ended : DurableExecutionState
ended = record { status = ExecutionStatus.completed; kubernetes_job_name = none }

abbrev archive : Db
archive = tables (completed_row ∷ [])

load_works : load_state archive again ≡ ok (some ended)
unfolding load_state parse_status
load_works = refl

drop_works : classify_event again (some ended) ≡ discard_terminal
unfolding classify_event
drop_works = refl

discard_final_example :
    (r t : ExecutionRow) × (find_request 1 archive ≡ some r)
    × (is_settled r.state ≡ true)
    × (find_request 1 archive ≡ some t)
    × (t.state ≡ r.state)
discard_final_example =
    discard_final {digest = plain_digest} {limit = 3} archive archive again ended load_works
      drop_works here

abbrev letter : Message
letter = record { message_id = "m"; body = "{}"; receipt_handle = "h" }

abbrev decode : String → Option ExecutionQueueEvent
decode _ = some again

-- The queues answer every call, or refuse the second one of a batch.
abbrev answering : Answers
answering _ _ = none

abbrev refusing : Answers
refusing [] _ = none
refusing _ _ = some transport_error

replay-IsSafe_example :
    IsSafe decode
      (tables (queued_row ∷ []))
      (letter ∷ [])
      (replay_batch decode refusing (tables (queued_row ∷ [])) (letter ∷ [])).1
replay-IsSafe_example = replay-IsSafe decode (tables (queued_row ∷ [])) refusing (letter ∷ [])

replay_works : (replay_batch decode answering (tables (queued_row ∷ [])) (letter ∷ [])).0 ≡ ok 1
unfolding replay_batch replay_each replay_one classify_message load_state parse_status
    classify_event
replay_works = refl

replay_counts_example :
    (1
      ≡ count_of
          (λ m. sends_again (classify_message decode (tables (queued_row ∷ [])) m))
          (letter ∷ []))
    × All
        (IsHandled decode answering
          (tables (queued_row ∷ []))
          (replay_batch decode answering (tables (queued_row ∷ [])) (letter ∷ [])).1)
        (letter ∷ [])
    × (length (replay_batch decode answering (tables (queued_row ∷ [])) (letter ∷ [])).1 ≡ 1 + 1)
replay_counts_example =
    replay_counts decode answering (tables (queued_row ∷ [])) (letter ∷ []) 1 replay_works
