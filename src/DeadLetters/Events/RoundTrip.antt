-- ===== src/DeadLetters/Events/RoundTrip.antt =====
-- apps/api/src/rigor_api/execution_events.py: which events are read back, and what is known of one
-- that was read.
use Prim.Native.String.{count}
use leetcode_platform.Prelude.{
  ℕ, String, ◌≡◌, ◌≤◌, refl, arith, true, Option, none, some, ◌&&◌, leb, coalesce, if◌then◌else◌,
  inl, inr, Bool-cases,
}
use leetcode_platform.Json.{Json, Fields, ℤ, pos, negsuc, null, int, str, obj, get}
use leetcode_platform.Execution.Status.{value_error}
use leetcode_platform.Execution.Action.{ok, err}
use leetcode_platform.Execution.Checked.{continue-ok, or_raise-ok, ok-inj}
use leetcode_platform.Execution.Create.{execution_requested_event}
use leetcode_platform.DeadLetters.{ExecutionRequestedEvent, requested, cancel_requested}
use leetcode_platform.Execution.Runner.{is_text}
use leetcode_platform.DeadLetters.Events.{
  Codec, names_only, requested_names, at_least_one, bounded_text, must, read_with, or_invalid,
  version_one, read_requested, read_cancel_requested, parse_fields, parse_execution_queue_event,
  json_details,
}

-- pydantic reads what `str`, `isoformat` and the literals of the program write.
pub record CodecLaws (codec : Codec) : Type 0 where
  pub uuid_read : (k : ℕ) → codec.read_uuid (str (codec.uuid_text k)) ≡ some k
  pub datetime_read : (t : ℕ) → codec.read_datetime (str (codec.isoformat t)) ≡ some t
  pub int_read : (n : ℕ) → codec.read_int (int (pos n)) ≡ some (pos n)
  pub one_read : codec.is_one (int (pos 1)) ≡ true

module _ (codec : Codec) (laws : CodecLaws codec) where
  -- The event of an execution is read back as it was published where the trace id has 1 to 160
  -- characters; else it is refused.
  pub requested_round_trip :
      (k requested_at attempt : ℕ) (trace_id : String)
      → 1 ≤ attempt
      → parse_execution_queue_event codec
          (obj (json_details codec (execution_requested_event k requested_at trace_id attempt)))
        ≡ (if leb 1 (count trace_id) && leb (count trace_id) 160
            then ok (
                requested (record {
                  execution_id = k;
                  attempt = attempt;
                  requested_at = requested_at;
                  trace_id = trace_id;
                }))
            else err value_error)
  unfolding parse_execution_queue_event parse_fields read_requested execution_requested_event
  requested_round_trip k requested_at attempt trace_id least =
      let first : leb 1 attempt ≡ true = ground arith in
      rw
        (
          laws.uuid_read k,
          laws.datetime_read requested_at,
          laws.int_read attempt,
          laws.one_read,
          first,
        )
        (elim (Bool-cases (leb 1 (count trace_id) && leb (count trace_id) 160)) [
          | inl fits ↦ rw fits refl
          | inr other ↦ rw other refl
        ])

module _ (codec : Codec) where
  attempt_bound : (o : Option ℤ) (n : ℕ) → at_least_one o ≡ some n → 1 ≤ n
  attempt_bound none n h = cc
  attempt_bound (some (pos m)) n h = ground arith
  attempt_bound (some (negsuc m)) n h = cc

  text_bound :
      (o : Option Json) (s : String)
      → read_with bounded_text o ≡ some s
      → (1 ≤ count s) × (count s ≤ 160)
  text_bound none s h = cc
  text_bound (some (str r)) s h = ground arith
  text_bound (some _) s h = cc

  read_bounded :
      (fields : Fields) (e : ExecutionRequestedEvent)
      → read_requested codec fields ≡ ok e
      → (1 ≤ e.attempt) × (1 ≤ count e.trace_id) × (count e.trace_id ≤ 160)
  unfolding read_requested
  read_bounded fields e h =
      let (_, _, h1) = continue-ok (or_invalid (must (names_only requested_names fields))) _ e h in
      let (_, _, h2) =
        continue-ok (or_invalid (read_with (version_one codec) (get "schema_version" fields))) _ e
          h1 in
      let (k, _, h3) =
        continue-ok (or_invalid (read_with codec.read_uuid (get "execution_id" fields))) _ e h2 in
      let (attempt, least, h4) =
        continue-ok (or_invalid (at_least_one (read_with codec.read_int (get "attempt" fields)))) _
          e h3 in
      let (at, _, h5) =
        continue-ok (or_invalid (read_with codec.read_datetime (get "requested_at" fields))) _ e
          h4 in
      let (trace_id, short, h6) =
        continue-ok (or_invalid (read_with bounded_text (get "trace_id" fields))) _ e h5 in
      let one =
        attempt_bound (read_with codec.read_int (get "attempt" fields)) attempt
          (or_raise-ok _ value_error attempt least) in
      let (some_text, at_most) =
        text_bound (get "trace_id" fields) trace_id (or_raise-ok _ value_error trace_id short) in
      rw (← ok-inj _ e h6) (one, some_text, at_most)

  fields_bounded :
      (fields : Fields) (e : ExecutionRequestedEvent)
      → parse_fields codec fields ≡ ok (requested e)
      → (1 ≤ e.attempt) × (1 ≤ count e.trace_id) × (count e.trace_id ≤ 160)
  unfolding parse_fields
  fields_bounded fields e h =
      let event_type = coalesce (get "event_type" fields) null in
      elim (Bool-cases (is_text "execution.requested" event_type)) [
        | inl asked ↦
            let (x, got, last) =
              continue-ok (read_requested codec fields) (λ x. ok (requested x)) (requested e)
                (rw asked at h) in
            let same : x ≡ e = cc in rw (← same) (read_bounded fields x got)
        | inr other ↦ elim (Bool-cases (is_text "execution.cancel_requested" event_type)) [
          | inl cancels ↦
              let (x, _, last) =
                continue-ok (read_cancel_requested codec fields) (λ x. ok (cancel_requested x))
                  (requested e) (rw (other, cancels) at h) in
              absurd (cc last)
          | inr neither ↦ absurd (cc (rw (other, neither) at h))
        ]
      ]

  -- An event of a requested execution that is read has an attempt of at least 1 and a trace id of 1
  -- to 160 characters.
  pub requested_event_bounded :
      (v : Json) (e : ExecutionRequestedEvent)
      → parse_execution_queue_event codec v ≡ ok (requested e)
      → (1 ≤ e.attempt) × (1 ≤ count e.trace_id) × (count e.trace_id ≤ 160)
  unfolding parse_execution_queue_event
  requested_event_bounded (obj fields) e h = fields_bounded fields e h
  requested_event_bounded _ e h = cc
