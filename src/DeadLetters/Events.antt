-- ===== src/DeadLetters/Events.antt =====
-- apps/api/src/rigor_api/execution_events.py: `parse_execution_queue_event` and the two models of
-- events. What pydantic reads a UUID, a datetime or a number from is a parameter, and so are the
-- texts that `str` and `isoformat` make.
pub mod RoundTrip
use Prim.Native.String.{count}
use leetcode_platform.Prelude.{
  ℕ, String, ◌≡◌, ◌≤◌, ◌+◌, refl, arith, Bool, true, false, Option, none, some, List, [], ◌∷◌, ◌&&◌,
  ◌||◌, not, is_some, leb, str_eq, coalesce, if◌then◌else◌, inl, inr, Bool-cases,
}
use leetcode_platform.Json.{Json, Fields, ℤ, pos, negsuc, null, int, str, obj, end, field, get}
use leetcode_platform.Execution.Status.{value_error}
use leetcode_platform.Execution.Store.{Value, text, number, instant, reference, Details}
use leetcode_platform.Execution.Action.{Result, ok, err}
use leetcode_platform.Execution.Checked.{◌>>=◌, ◌>>◌, or_raise, continue-ok, or_raise-ok, ok-inj}
use leetcode_platform.Execution.Runner.{is_text}
use leetcode_platform.DeadLetters.{
  ExecutionQueueEvent, ExecutionRequestedEvent, ExecutionCancelRequestedEvent, requested,
  cancel_requested,
}

-- The fields of pydantic and the texts of Python.
pub record Codec : Type 0 where
  pub read_uuid : Json → Option ℕ
  pub read_datetime : Json → Option ℕ
  pub read_int : Json → Option ℤ
  pub is_one : Json → Bool
  pub uuid_text : ℕ → String
  pub isoformat : ℕ → String

-- `ConfigDict(extra="forbid")`
abbrev pub is_named : String → List String → Bool
is_named k [] = false
is_named k (name ∷ names) = str_eq k name || is_named k names

abbrev pub names_only : List String → Fields → Bool
names_only names end = true
names_only names (field k v rest) = is_named k names && names_only names rest

abbrev pub cancel_names : List String
cancel_names = "schema_version" ∷ "event_type" ∷ "execution_id" ∷ "requested_at" ∷ "trace_id" ∷ []

abbrev pub requested_names : List String
requested_names = "attempt" ∷ cancel_names

-- `Field(ge=1)`
abbrev pub at_least_one : Option ℤ → Option ℕ
at_least_one (some (pos n)) = if leb 1 n then some n else none
at_least_one _ = none

-- `Field(min_length=1, max_length=160)`
abbrev pub bounded_text : Json → Option String
bounded_text (str s) = if leb 1 (count s) && leb (count s) 160 then some s else none
bounded_text _ = none

abbrev pub must : Bool → Option (Unit {0})
must true = some tt
must false = none

-- A missing field is an error, whatever the type of the field.
abbrev pub read_with : {A : Type 0} → (Json → Option A) → Option Json → Option A
read_with read none = none
read_with read (some v) = read v

abbrev pub or_invalid : {A : Type 0} → Option A → Result A
or_invalid o = or_raise o (err value_error)

module _ (codec : Codec) where
  abbrev pub version_one : Json → Option (Unit {0})
  version_one v = must (codec.is_one v)

  unfoldable pub read_requested : Fields → Result ExecutionRequestedEvent
  read_requested fields = do
    known ← or_invalid (must (names_only requested_names fields))
    version ← or_invalid (read_with version_one (get "schema_version" fields))
    execution_id ← or_invalid (read_with codec.read_uuid (get "execution_id" fields))
    attempt ← or_invalid (at_least_one (read_with codec.read_int (get "attempt" fields)))
    requested_at ← or_invalid (read_with codec.read_datetime (get "requested_at" fields))
    trace_id ← or_invalid (read_with bounded_text (get "trace_id" fields))
    ok (record {
      execution_id = execution_id;
      attempt = attempt;
      requested_at = requested_at;
      trace_id = trace_id;
    })

  unfoldable pub read_cancel_requested : Fields → Result ExecutionCancelRequestedEvent
  read_cancel_requested fields = do
    known ← or_invalid (must (names_only cancel_names fields))
    version ← or_invalid (read_with version_one (get "schema_version" fields))
    execution_id ← or_invalid (read_with codec.read_uuid (get "execution_id" fields))
    requested_at ← or_invalid (read_with codec.read_datetime (get "requested_at" fields))
    trace_id ← or_invalid (read_with bounded_text (get "trace_id" fields))
    ok (record { execution_id = execution_id; requested_at = requested_at; trace_id = trace_id })

  abbrev pub as_requested : Fields → Result ExecutionQueueEvent
  as_requested fields = do e ← read_requested fields; ok (requested e)

  abbrev pub as_cancel_requested : Fields → Result ExecutionQueueEvent
  as_cancel_requested fields = do e ← read_cancel_requested fields; ok (cancel_requested e)

  unfoldable pub parse_fields : Fields → Result ExecutionQueueEvent
  parse_fields fields =
      let event_type = coalesce (get "event_type" fields) null in
      if is_text "execution.requested" event_type
      then as_requested fields
      else if is_text "execution.cancel_requested" event_type
      then as_cancel_requested fields
      else err value_error

  unfoldable pub parse_execution_queue_event : Json → Result ExecutionQueueEvent
  parse_execution_queue_event (obj fields) = parse_fields fields
  parse_execution_queue_event _ = err value_error

  -- The event as the dictionary that is published.
  abbrev pub json_value : Value → Json
  json_value (text s) = str s
  json_value (number n) = int (pos n)
  json_value (instant t) = str (codec.isoformat t)
  json_value (reference k) = str (codec.uuid_text k)

  abbrev pub json_details : Details → Fields
  json_details [] = end
  json_details ((k, v) ∷ details) = field k (json_value v) (json_details details)
