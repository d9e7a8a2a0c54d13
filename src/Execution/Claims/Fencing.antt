-- ===== src/Execution/Claims/Fencing.antt =====
-- apps/api/src/rigor_api/execution_claims.py: `retry_missing_sandbox` and `lock_owned_attempt`, the
-- fence between a worker and the attempt that replaced it.
use leetcode_platform.Prelude.{
  ◌⊎◌, null_eq, null_gt, null_eq-some, null_gt-some, ℕ, String, ◌≡◌, ◌≢◌, refl, true, false, Option,
  none, some, arith, ◌+◌, ◌<◌, ◌≤◌, leb, ltb, inl, inr, Bool-cases, Option-cases, find-modify_self,
  find_key, ◌||◌,
}
use leetcode_platform.Execution.Status.{ExecutionState, value_error}
use leetcode_platform.Execution.Store.{
  Db, Clock, ExecutionRow, row_id, find_request, update_request, append_event,
}
use leetcode_platform.Execution.Claims.{
  Deadline, naive, aware, is_in_flight, validate_lease_deadline, retry_guard, retried_row,
  report_retry, start_retry, retry_missing_sandbox, owns_attempt, lock_owned_attempt, owns_lease,
  in_flight_state,
}
use leetcode_platform.Execution.Action.{Result, ok, err, ◌>>=◌}

-- The lock only reads the tables.
pub lock-unchanged :
    (clock : Clock) (k : ℕ) (w : String) (n : ℕ) (db : Db)
    → (lock_owned_attempt clock k w n db).1 ≡ db
unfolding lock_owned_attempt ◌>>=◌
lock-unchanged clock k w n db = ground arith

pub lock-other_attempt :
    (clock : Clock) (k : ℕ) (w : String) (n : ℕ) (db : Db) (r : ExecutionRow)
    → find_request k db ≡ some r
    → n ≢ r.attempt_count
    → lock_owned_attempt clock k w n db ≡ (ok false, db)
unfolding lock_owned_attempt ◌>>=◌ owns_attempt
lock-other_attempt clock k w n db r found other = ground arith

owned_attempt :
    (clock : Clock) (w : String) (n : ℕ) (r : ExecutionRow)
    → owns_attempt clock w n r ≡ true
    → (r.attempt_count ≡ n)
      × (null_eq r.lease_owner w ≡ true)
      × (null_gt r.lease_expires_at clock.current_timestamp ≡ true)
      × (is_in_flight r.state ≡ true)
unfolding owns_attempt owns_lease
owned_attempt clock w n r h = ground arith

-- If the lock on an attempt is granted, the row is there, its current attempt is that one, which is
-- at least the first, its state is dispatching or running, its lease is the worker's, and the lease
-- ends after the time of the transaction.
pub lock-granted :
    (clock : Clock) (k : ℕ) (w : String) (n : ℕ) (db : Db)
    → (lock_owned_attempt clock k w n db).0 ≡ ok true
    → (r : ExecutionRow) × (find_request k db ≡ some r)
      × (r.attempt_count ≡ n)
      × (1 ≤ n)
      × (r.lease_owner ≡ some w)
      × ((t : ℕ) × (r.lease_expires_at ≡ some t) × (clock.current_timestamp < t))
      × ((r.state ≡ ExecutionState.dispatching) ⊎ (r.state ≡ ExecutionState.running))
unfolding lock_owned_attempt ◌>>=◌
lock-granted clock k w n db h = elim (Option-cases (find_request k db)) [
  | inl missing ↦ absurd (ground arith)
  | inr (r, found) ↦
      let (same, owner, lease, flying) = owned_attempt clock w n r (ground arith) in
      (
        r,
        found,
        same,
        ground arith,
        null_eq-some r.lease_owner w owner,
        null_gt-some r.lease_expires_at clock.current_timestamp lease,
        in_flight_state r.state flying,
      )
]

some_ne_err : (n : ℕ) → err value_error ≢ ok (some n)
some_ne_err n h = cc

some_ne_none : (n : ℕ) → ◌≢◌ {A = Result (Option ℕ)} (ok none) (ok (some n))
some_ne_none n h = cc

module _ (clock : Clock) (k n : ℕ) (w : String) (m : ℕ) where
  retry-naive :
      (t : ℕ) (db : Db) → retry_missing_sandbox clock k n w (naive t) m db ≡ (err value_error, db)
  unfolding retry_missing_sandbox validate_lease_deadline ◌>>=◌
  retry-naive t db = refl

  retry-past :
      (t : ℕ) (db : Db)
      → leb t clock.utc_now ≡ true
      → retry_missing_sandbox clock k n w (aware t) m db ≡ (err value_error, db)
  unfolding retry_missing_sandbox validate_lease_deadline ◌>>=◌
  retry-past t db past = rw past

  module _ (t : ℕ) (db : Db) (future : leb t clock.utc_now ≡ false) where
    retry-senseless :
        (ltb n 1 || ltb m 1) ≡ true
        → retry_missing_sandbox clock k n w (aware t) m db ≡ (ok none, db)
    unfolding retry_missing_sandbox validate_lease_deadline ◌>>=◌
    retry-senseless bad = rw (future, bad)

    module _ (sensible : (ltb n 1 || ltb m 1) ≡ false) where
      retry-missing :
          find_request k db ≡ none
          → retry_missing_sandbox clock k n w (aware t) m db ≡ (ok none, db)
      unfolding retry_missing_sandbox validate_lease_deadline ◌>>=◌ start_retry update_request
          report_retry
      retry-missing missing = rw (future, sensible, missing)

      retry-refused :
          (r : ExecutionRow)
          → find_request k db ≡ some r
          → retry_guard clock n m r ≡ false
          → retry_missing_sandbox clock k n w (aware t) m db ≡ (ok none, db)
      unfolding retry_missing_sandbox validate_lease_deadline ◌>>=◌ start_retry update_request
          report_retry
      retry-refused r found unfit = rw (future, sensible, found, unfit)

      retry-taken :
          (r : ExecutionRow)
          → find_request k db ≡ some r
          → retry_guard clock n m r ≡ true
          → ((retry_missing_sandbox clock k n w (aware t) m db).0 ≡ ok (some (r.attempt_count + 1)))
            × (find_request k (retry_missing_sandbox clock k n w (aware t) m db).1
                ≡ some (retried_row w t r))
      unfolding retry_missing_sandbox validate_lease_deadline ◌>>=◌ start_retry update_request
          report_retry append_event retried_row
      retry-taken r found fit =
          rw (future, sensible, found, fit)
            (
              refl,
              find-modify_self row_id k _ db.requests found (find_key row_id k db.requests found),
            )

  guard_facts :
      (r : ExecutionRow)
      → retry_guard clock n m r ≡ true
      → (is_in_flight r.state ≡ true) × (r.attempt_count ≡ n) × (n < m)
  unfolding retry_guard
  guard_facts r h = ground arith

  retried_attempt :
      (t : ℕ) (r : ExecutionRow) → (retried_row w t r).attempt_count ≡ r.attempt_count + 1
  unfolding retried_row
  retried_attempt t r = refl

  -- What a granted retry has done: the attempt that it names was the current one of an execution in
  -- flight, below the limit, and is not the current one any more.
  pub retry-granted :
      (d : Deadline) (db : Db) (n' : ℕ)
      → (retry_missing_sandbox clock k n w d m db).0 ≡ ok (some n')
      → (r s : ExecutionRow) × (find_request k db ≡ some r)
        × (is_in_flight r.state ≡ true)
        × (r.attempt_count ≡ n)
        × (n < m)
        × (n' ≡ n + 1)
        × (find_request k (retry_missing_sandbox clock k n w d m db).1 ≡ some s)
        × (s.attempt_count ≡ n')
  retry-granted (naive t) db n' h = absurd (some_ne_err n' (rw (retry-naive t db) at h))
  retry-granted (aware t) db n' h = elim (Bool-cases (leb t clock.utc_now)) [
    | inl past ↦ absurd (some_ne_err n' (rw (retry-past t db past) at h))
    | inr future ↦ elim (Bool-cases (ltb n 1 || ltb m 1)) [
      | inl bad ↦ absurd (some_ne_none n' (rw (retry-senseless t db future bad) at h))
      | inr good ↦ elim (Option-cases (find_request k db)) [
        | inl missing ↦ absurd (some_ne_none n' (rw (retry-missing t db future good missing) at h))
        | inr (r, found) ↦ elim (Bool-cases (retry_guard clock n m r)) [
          | inr unfit ↦
              absurd (some_ne_none n' (rw (retry-refused t db future good r found unfit) at h))
          | inl fit ↦
              let (flying, same, below) = guard_facts r fit in
              let (answer, after) = retry-taken t db future good r found fit in
              let count : n' ≡ r.attempt_count + 1 = cc (h, answer) in
              (
                r,
                retried_row w t r,
                found,
                flying,
                same,
                below,
                omega arith,
                after,
                omega (arith, retried_attempt t r),
              )
        ]
      ]
    ]
  ]
