-- ===== src/Outbox.antt =====
-- apps/api/src/rigor_api/outbox.py and execution_publisher.py: the durable queue of messages that
-- are still to be sent, and the loop that sends them. The transport, the jitter of each message and
-- `timedelta` are parameters.
pub mod Delay
pub mod Batch
pub mod Counts
pub mod Settled
use leetcode_platform.Prelude.{
  ℕ, zero, suc, String, Bool, true, false, Option, none, some, List, [], ◌∷◌, ◌+◌, ◌*◌, ◌^◌, ◌==◌,
  ◌&&◌, ◌||◌, min, not, is_none, leb, ltb, if◌then◌else◌, length, map, modify, select_rows,
}
use leetcode_platform.Json.{ℤ, pos, negsuc}
use leetcode_platform.Execution.Status.{value_error, overflow_error}
use leetcode_platform.Execution.Store.{Db, Clock, Details, OutboxRow}
use leetcode_platform.Execution.Action.{
  Action, Result, ok, err, pure, raise, gets, ◌>>=◌, ◌>>◌, raise_if, write,
}

pub record OutboxMessage : Type 0 where
  pub id : ℕ
  pub aggregate_type : String
  pub aggregate_id : ℕ
  pub event_type : String
  pub payload : Details
  pub created_at : ℕ
  pub attempt_count : ℕ

-- A float that is not negative, as the fraction that it is; the rounding of the last place is left
-- out.
pub record Ratio : Type 0 where
  pub num : ℕ
  pub den : ℕ

-- `float(2 ** n)` raises `OverflowError` from `n = 1024` on.
abbrev pub float_exponents : ℕ
float_exponents = 1024

-- `min(cap, e * (0.5 + 0.5 * jitter))` for the capped exponential `e`.
unfoldable pub jittered : ℕ → ℕ → Ratio → Ratio
jittered cap e jitter = record {
  num = min (cap * (2 * jitter.den)) (e * (jitter.den + jitter.num));
  den = 2 * jitter.den;
}

-- `base_seconds` and `cap_seconds` are whole here, as their defaults 1.0 and 300.0 are.
unfoldable pub retry_delay_seconds : ℕ → ℕ → ℤ → Ratio → Result Ratio
retry_delay_seconds base cap (negsuc _) jitter = err value_error
retry_delay_seconds base cap (pos n) jitter =
    if ltb jitter.den jitter.num
    then err value_error
    else if leb float_exponents n
    then err overflow_error
    else ok (jittered cap (min cap (base * 2 ^ n)) jitter)

-- `ORDER BY created_at, id`
abbrev pub oldest_first : OutboxRow → OutboxRow → Bool
oldest_first o x = ltb o.created_at x.created_at || (o.created_at == x.created_at && leb o.id x.id)

-- The WHERE clause, and the rows that `SKIP LOCKED` leaves.
unfoldable pub is_claimable : Clock → (ℕ → Bool) → OutboxRow → Bool
is_claimable clock locked o =
    is_none o.published_at && (leb o.next_attempt_at clock.current_timestamp && not (locked o.id))

unfoldable pub select_batch : Clock → (ℕ → Bool) → ℕ → List OutboxRow → List OutboxRow
select_batch clock locked limit rows =
    select_rows oldest_first (is_claimable clock locked) limit rows

abbrev pub message_of : OutboxRow → OutboxMessage
message_of o = record {
  id = o.id;
  aggregate_type = o.aggregate_type;
  aggregate_id = o.aggregate_id;
  event_type = o.event_type;
  payload = o.payload;
  created_at = o.created_at;
  attempt_count = o.attempt_count;
}

unfoldable pub claim_batch : Clock → (ℕ → Bool) → ℕ → Action (List OutboxMessage)
claim_batch clock locked limit = do
  raise_if (not (leb 1 limit && leb limit 100)) value_error
  gets (λ db. map message_of (select_batch clock locked limit db.outbox))

abbrev pub outbox_id : OutboxRow → ℕ
outbox_id o = o.id

-- `UPDATE execution_outbox SET f WHERE id = :message_id AND published_at IS NULL`
unfoldable pub unless_published : (OutboxRow → OutboxRow) → OutboxRow → OutboxRow
unless_published f o = if is_none o.published_at then f o else o

unfoldable pub update_outbox : ℕ → (OutboxRow → OutboxRow) → Db → Db
update_outbox k f db = record db { outbox = modify outbox_id k (unless_published f) db.outbox }

abbrev pub published_row : Clock → OutboxRow → OutboxRow
published_row clock o = record o { published_at = some clock.current_timestamp; last_error = none }

unfoldable pub mark_published : Clock → ℕ → Action (Unit {0})
mark_published clock k = write (update_outbox k (published_row clock))

-- `error[:4000]` is the error itself here: it is the name of a class.
abbrev pub failed_row : ℕ → String → OutboxRow → OutboxRow
failed_row next_attempt_at error o = record o {
  attempt_count = o.attempt_count + 1;
  next_attempt_at = next_attempt_at;
  last_error = some error;
}

-- What the loop calls that is not of this program: `publish`, which returns or raises an exception
-- of some class; `random.random()` for each message; `datetime.now(UTC) + timedelta(seconds=…)`.
pub record Outside : Type 0 where
  pub publish : OutboxMessage → Option String
  pub random : ℕ → Ratio
  pub later : ℕ → Ratio → ℕ

abbrev pub or_error : {A : Type 0} → Result A → Action A
or_error (ok a) = pure a
or_error (err e) = raise e

unfoldable pub mark_failed : Outside → Clock → OutboxMessage → String → Action ℕ
mark_failed out clock m error = do
  delay ← or_error (retry_delay_seconds 1 300 (pos m.attempt_count) (out.random m.id))
  let next_attempt_at = out.later clock.utc_now delay
  write (update_outbox m.id (failed_row next_attempt_at error))
  pure next_attempt_at

pub record PublishBatchResult : Type 0 where
  pub claimed : ℕ
  pub published : ℕ
  pub failed : ℕ

-- One turn of the loop, on the counters `published` and `failed`.
unfoldable pub deliver : Outside → Clock → OutboxMessage → Option String → ℕ → ℕ → Action (ℕ × ℕ)
deliver out clock m none published failed = do
  mark_published clock m.id
  pure (published + 1, failed)
deliver out clock m (some error) published failed = do
  mark_failed out clock m error
  pure (published, failed + 1)

unfoldable pub publish_each : Outside → Clock → List OutboxMessage → ℕ × ℕ → Action (ℕ × ℕ)
publish_each out clock [] (published, failed) = pure (published, failed)
publish_each out clock (m ∷ messages) (published, failed) = do
  counts ← deliver out clock m (out.publish m) published failed
  publish_each out clock messages counts

unfoldable pub publish_claimed_messages :
    Outside → Clock → (ℕ → Bool) → ℕ → Action PublishBatchResult
publish_claimed_messages out clock locked limit = do
  messages ← claim_batch clock locked limit
  counts ← publish_each out clock messages (0, 0)
  pure (record { claimed = length messages; published = counts.0; failed = counts.1 })
