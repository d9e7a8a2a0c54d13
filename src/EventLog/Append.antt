-- ===== src/EventLog/Append.antt =====
-- One more event at the end of the log.
use leetcode_platform.Prelude.{
  ℕ, ◌≡◌, ◌≢◌, true, Option, some, List, [], ◌∷◌, ◌++◌, ◌+◌, ◌==◌, if◌then◌else◌, max, arith,
}
use leetcode_platform.Execution.Status.{ExecutionState}
use leetcode_platform.Execution.Store.{EventRow, next_sequence}
use leetcode_platform.EventLog.{is_numbered, is_path, last_state, events_of, may_come}

module _ (k : ℕ) where
  next_sequence-numbered :
      (n : ℕ) (events : List EventRow)
      → is_numbered k n events ≡ true
      → max n (next_sequence k events) ≡ n + events_of k events
  next_sequence-numbered n [] h = omega arith
  next_sequence-numbered n (e ∷ events) h =
      ground (arith, next_sequence-numbered n events, next_sequence-numbered (n + 1) events)

  module _ (e : EventRow) where
    is_numbered-append :
        (n : ℕ) (events : List EventRow)
        → e.execution_request_id ≡ k
        → is_numbered k n events ≡ true
        → e.sequence_number ≡ n + events_of k events
        → is_numbered k n (events ++ e ∷ []) ≡ true
    is_numbered-append n [] own h s = ground arith
    is_numbered-append n (x ∷ events) own h s =
        ground (arith, is_numbered-append n events own, is_numbered-append (n + 1) events own)

    pub is_numbered-append_ne :
        (n : ℕ) (events : List EventRow)
        → e.execution_request_id ≢ k
        → is_numbered k n (events ++ e ∷ []) ≡ is_numbered k n events
    is_numbered-append_ne n [] other = ground arith
    is_numbered-append_ne n (x ∷ events) other =
        ground
          (arith, is_numbered-append_ne n events other, is_numbered-append_ne (n + 1) events other)

    pub is_path-append :
        (last : Option ExecutionState) (events : List EventRow)
        → e.execution_request_id ≡ k
        → is_path k last events ≡ true
        → may_come (last_state k last events) e.state ≡ true
        → is_path k last (events ++ e ∷ []) ≡ true
    is_path-append last [] own h s = ground arith
    is_path-append last (x ∷ events) own h s =
        ground (arith, is_path-append last events own, is_path-append (some x.state) events own)

    pub is_path-append_ne :
        (last : Option ExecutionState) (events : List EventRow)
        → e.execution_request_id ≢ k
        → is_path k last (events ++ e ∷ []) ≡ is_path k last events
    is_path-append_ne last [] other = ground arith
    is_path-append_ne last (x ∷ events) other =
        ground (
          arith,
          is_path-append_ne last events other,
          is_path-append_ne (some x.state) events other,
        )

    pub last_state-append :
        (last : Option ExecutionState) (events : List EventRow)
        → e.execution_request_id ≡ k
        → last_state k last (events ++ e ∷ []) ≡ some e.state
    last_state-append last [] own = ground arith
    last_state-append last (x ∷ events) own =
        last_state-append (if x.execution_request_id == k then some x.state else last) events own

    pub last_state-append_ne :
        (last : Option ExecutionState) (events : List EventRow)
        → e.execution_request_id ≢ k
        → last_state k last (events ++ e ∷ []) ≡ last_state k last events
    last_state-append_ne last [] other = ground arith
    last_state-append_ne last (x ∷ events) other =
        last_state-append_ne (if x.execution_request_id == k then some x.state else last) events
          other

    -- The number that `_append_event` takes is the next one.
    pub is_numbered-append_next :
        (events : List EventRow)
        → e.execution_request_id ≡ k
        → e.sequence_number ≡ next_sequence k events
        → is_numbered k 0 events ≡ true
        → is_numbered k 0 (events ++ e ∷ []) ≡ true
    is_numbered-append_next events own next h =
        is_numbered-append 0 events own h (omega (arith, next, next_sequence-numbered 0 events h))
