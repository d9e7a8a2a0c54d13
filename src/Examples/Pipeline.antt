-- ===== src/Examples/Pipeline.antt =====
-- The theorems about whole histories and about claims, at concrete tables.
use mathlib.Core.Bool.{false≢true}
use leetcode_platform.Prelude.{
  Bool-cases, ◌==◌, inl, inr, ℕ, ◌<◌, ◌⊎◌, ◌≡◌, ◌≢◌, refl, true, false, none, some, [], ◌∷◌, ◌+◌,
  ◌≤◌, arith, if◌then◌else◌, str_eq,
}
use leetcode_platform.Execution.Status.{idempotency_conflict, ExecutionState}
use leetcode_platform.Execution.Store.{Db, ExecutionRow, find_request, update_request}
use leetcode_platform.Execution.Create.{execution_request_hash, find_owned, create_queued}
use leetcode_platform.Execution.Claims.{
  ExecutionClaim, aware, is_queued, claim_for_dispatch, claim_of, claimed_row,
  retry_missing_sandbox, retry_guard, retried_row, report_claim, report_retry, start_retry,
  validate_lease_deadline, lock_owned_attempt, owns_attempt,
}
use leetcode_platform.Execution.Claims.Laws.{claim-granted}
use leetcode_platform.Execution.Claims.Fencing.{lock-granted}
use leetcode_platform.Execution.Action.{ok, err, transaction, ◌>>=◌}
use leetcode_platform.Execution.Sound.{SoundDb, IsSound}
use leetcode_platform.EventLog.{IsLogged, may_come}
use leetcode_platform.History.{Reach, claim, here, next}
use leetcode_platform.History.Terminal.{terminal_absorbs}
use leetcode_platform.History.Claims.{claimed_once, stale_attempt_fenced}
use leetcode_platform.History.Bounded.{attempts_bounded}
use leetcode_platform.History.Created.{queued_answer, create_replayed}
use leetcode_platform.History.Logged.{log_agrees}
use leetcode_platform.Examples.{
  plain_digest, ten, later, candidate, request, queued_row, dispatched_row, completed_row, tables,
}

abbrev after_claim : Db → Db
after_claim db = (transaction (claim_for_dispatch later 1 "v" (aware 60)) db).1

claim_path : (db : Db) → Reach plain_digest 3 db (after_claim db)
claim_path db = next here (claim later 1 "v" (aware 60))

terminal_absorbs_example :
    (s : ExecutionRow) × (find_request 1 (after_claim (tables (completed_row ∷ []))) ≡ some s)
    × (s.state ≡ ExecutionState.completed)
    × (s.completed_at ≡ some 20)
    × (s.attempt_count ≡ 1)
terminal_absorbs_example =
    terminal_absorbs (tables (completed_row ∷ [])) (after_claim (tables (completed_row ∷ []))) 1
      completed_row (claim_path (tables (completed_row ∷ []))) refl refl

abbrev queue : Db
queue = tables (queued_row ∷ [])

abbrev granted_claim : ExecutionClaim
granted_claim = record {
  execution_id = 1;
  runtime = "python";
  execution_type = queued_row.execution_type;
  language = "python";
  code_reference = queued_row.code_reference;
  input_reference = none;
  attempt_count = 1;
  lease_owner = "w";
  lease_expires_at = 30;
  trace_id = "trace";
}

claim_works : (claim_for_dispatch ten 1 "w" (aware 30) queue).0 ≡ ok (some granted_claim)
unfolding claim_for_dispatch validate_lease_deadline ◌>>=◌ update_request report_claim claim_of
    claimed_row
claim_works = refl

abbrev claimed : Db
claimed = (claim_for_dispatch ten 1 "w" (aware 30) queue).1

claimed_once_example :
    ((claim_for_dispatch later 1 "u" (aware 90) (after_claim claimed)).0 ≢ ok (some granted_claim))
    × ((claim_for_dispatch later 1 "u" (aware 90) (after_claim claimed)).1 ≡ after_claim claimed)
claimed_once_example =
    claimed_once ten later 1 "w" "u" (aware 30) (aware 90) queue (after_claim claimed) granted_claim
      granted_claim claim_works (claim_path claimed)

claim-granted_example :
    (r s : ExecutionRow) × (find_request 1 queue ≡ some r)
    × (is_queued r.state ≡ true)
    × (find_request 1 claimed ≡ some s)
    × (is_queued s.state ≡ false)
    × (s.attempt_count ≡ r.attempt_count + 1)
    × (s.lease_owner ≡ some "w")
claim-granted_example = claim-granted ten 1 "w" (aware 30) queue granted_claim claim_works

abbrev flight : Db
flight = tables (dispatched_row ∷ [])

retry_works : (retry_missing_sandbox later 1 1 "u" (aware 90) 3 flight).0 ≡ ok (some 2)
unfolding retry_missing_sandbox validate_lease_deadline ◌>>=◌ start_retry update_request
    report_retry retry_guard retried_row
retry_works = refl

abbrev retried : Db
retried = (retry_missing_sandbox later 1 1 "u" (aware 90) 3 flight).1

stale_attempt_fenced_example :
    lock_owned_attempt later 1 "w" 1 (after_claim retried) ≡ (ok false, after_claim retried)
stale_attempt_fenced_example =
    stale_attempt_fenced later later 1 1 3 "u" "w" (aware 90) flight (after_claim retried) 2
      retry_works (claim_path retried)

lock_works : (lock_owned_attempt ten 1 "w" 1 flight).0 ≡ ok true
unfolding lock_owned_attempt owns_attempt ◌>>=◌
lock_works = refl

lock-granted_example :
    (r : ExecutionRow) × (find_request 1 flight ≡ some r)
    × (r.attempt_count ≡ 1)
    × (1 ≤ 1)
    × (r.lease_owner ≡ some "w")
    × ((t : ℕ) × (r.lease_expires_at ≡ some t) × (10 < t))
    × ((r.state ≡ ExecutionState.dispatching) ⊎ (r.state ≡ ExecutionState.running))
lock-granted_example = lock-granted ten 1 "w" 1 flight lock_works

sound_start : SoundDb 3 (tables (completed_row ∷ []))
sound_start = record {
  rows = (
    record {
      fresh = λ h. absurd (false≢true h);
      attempted = λ h. absurd (false≢true h);
      bounded = omega arith;
      dispatched = λ h. absurd (false≢true h);
      finished = refl;
    },
    tt,
  );
}

after_found : find_request 1 (after_claim (tables (completed_row ∷ []))) ≡ some completed_row
unfolding transaction claim_for_dispatch validate_lease_deadline ◌>>=◌ update_request report_claim
after_found = refl

attempts_bounded_example : IsSound 3 completed_row
attempts_bounded_example =
    attempts_bounded {digest = plain_digest} (tables (completed_row ∷ []))
      (after_claim (tables (completed_row ∷ []))) 1 completed_row
      (claim_path (tables (completed_row ∷ []))) sound_start after_found

create_replayed_example :
    (s : ExecutionRow) × (find_owned candidate.user_id request.idempotency_key
        (after_claim queue).requests
      ≡ some s)
    × (s.id ≡ 1)
    × (create_queued plain_digest later candidate (λ db. db) request 2 9 (after_claim queue) ≡ (
      if str_eq queued_row.request_hash (execution_request_hash plain_digest request)
          then ok (queued_answer s true)
          else err idempotency_conflict,
      after_claim queue,
    ))
create_replayed_example =
    create_replayed later candidate (λ db. db) request 2 9 queue (after_claim queue) queued_row
      (claim_path queue) refl

abbrev logged_queue : Db
logged_queue = record (tables (queued_row ∷ [])) {
  events =
      record {
        execution_request_id = 1;
        sequence_number = 0;
        state = ExecutionState.queued;
        details = [];
      }
      ∷ [];
}

IsLogged-start : IsLogged logged_queue
unfolding may_come
IsLogged-start = record {
  log = λ k. elim (Bool-cases (1 == k)) [
    | inl hit ↦ record { numbered = rw hit refl; path = rw hit refl; current = rw hit refl }
    | inr miss ↦ record { numbered = rw miss refl; path = rw miss refl; current = rw miss refl }
  ];
}

log_agrees_example : IsLogged (after_claim logged_queue)
log_agrees_example =
    log_agrees logged_queue (after_claim logged_queue) (claim_path logged_queue) IsLogged-start
