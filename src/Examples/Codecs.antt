-- ===== src/Examples/Codecs.antt =====
-- The theorems about the queue events, at a codec that writes a number as a tally.
use Prim.Native.String.{count}
use Prim.Native.String.count.{cons as count_cons}
use leetcode_platform.Prelude.{
  ℕ, zero, suc, String, ◌≡◌, ◌≤◌, refl, ap, ◌∙◌, arith, true, Option, none, some, leb, ◌&&◌,
  if◌then◌else◌,
}
use leetcode_platform.Json.{Json, ℤ, int, str, obj}
use leetcode_platform.Execution.Status.{value_error}
use leetcode_platform.Execution.Action.{ok, err}
use leetcode_platform.Execution.Create.{execution_requested_event}
use leetcode_platform.DeadLetters.{ExecutionRequestedEvent, requested}
use leetcode_platform.DeadLetters.Events.{
  Codec, json_details, parse_execution_queue_event, parse_fields, read_requested,
}
use leetcode_platform.DeadLetters.Events.RoundTrip.{
  CodecLaws, requested_round_trip, requested_event_bounded,
}

abbrev tally : ℕ → String
tally zero = ""
tally (suc n) = String.◌∷◌ "i" (tally n)

abbrev counted : Json → Option ℕ
counted (str s) = some (count s)
counted _ = none

abbrev whole : Json → Option ℤ
whole (int z) = some z
whole _ = none

abbrev tallies : Codec
tallies = record {
  read_uuid = counted;
  read_datetime = counted;
  read_int = whole;
  is_one = λ _. true;
  uuid_text = tally;
  isoformat = tally;
}

count-tally : (n : ℕ) → count (tally n) ≡ n
count-tally zero = refl
count-tally (suc n) = count_cons "i" (tally n) ∙ ap suc (count-tally n)

tallies-laws : CodecLaws tallies
tallies-laws = record {
  uuid_read = λ k. ap some (count-tally k);
  datetime_read = λ t. ap some (count-tally t);
  int_read = λ n. refl;
  one_read = refl;
}

requested_round_trip_example :
    parse_execution_queue_event tallies
      (obj (json_details tallies (execution_requested_event 3 7 "trace" 1)))
    ≡ (if leb 1 (count "trace") && leb (count "trace") 160
        then ok (
            requested
              (record { execution_id = 3; attempt = 1; requested_at = 7; trace_id = "trace" }))
        else err value_error)
requested_round_trip_example = requested_round_trip tallies tallies-laws 3 7 1 "trace" (omega arith)

abbrev asked : ExecutionRequestedEvent
asked = record { execution_id = 3; attempt = 1; requested_at = 7; trace_id = "trace" }

parse_works :
    parse_execution_queue_event tallies
      (obj (json_details tallies (execution_requested_event 3 7 "trace" 1)))
    ≡ ok (requested asked)
unfolding parse_execution_queue_event parse_fields read_requested execution_requested_event
parse_works = refl

requested_event_bounded_example :
    (1 ≤ asked.attempt) × (1 ≤ count asked.trace_id) × (count asked.trace_id ≤ 160)
requested_event_bounded_example =
    requested_event_bounded tallies
      (obj (json_details tallies (execution_requested_event 3 7 "trace" 1))) asked parse_works
