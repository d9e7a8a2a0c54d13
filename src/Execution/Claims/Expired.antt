-- ===== src/Execution/Claims/Expired.antt =====
-- apps/api/src/rigor_api/execution_claims.py: `expired_leases`, the batch that the reconciler works
-- on.
use leetcode_platform.Prelude.{
  ◌<◌, ◌⊎◌, inl, inr, [], ◌∷◌, ◌∙◌, All-map, null_lt-some, select_rows_complete, length-map, ℕ,
  String, ◌≡◌, ◌≤◌, Bool, true, false, Option, none, some, List, ◌==◌, ◌&&◌, ◌||◌, not, arith, leb,
  ltb, null_lt, coalesce, str_eq, if◌then◌else◌, map, length, count_of, All, refl, select_rows,
  select_rows-All,
}
use leetcode_platform.Execution.Status.{
  ExecutionState, state_text, status_of, parse_status, value_error,
}
use leetcode_platform.Execution.Store.{Db, Clock, ExecutionRow, row_id, find_request}
use leetcode_platform.Execution.Claims.{ExpiredExecutionLease, is_in_flight, in_flight_state}
use leetcode_platform.Execution.Action.{Action, ok, gets, ◌>>=◌, ◌>>◌, raise_if}

-- `str(value) if value else None`
abbrev pub text_or_none : Option String → Option String
text_or_none none = none
text_or_none (some s) = if str_eq s "" then none else some s

-- The WHERE clause, and the rows that `SKIP LOCKED` leaves.
unfoldable pub is_expired : Clock → (ℕ → Bool) → ExecutionRow → Bool
is_expired clock locked r =
    is_in_flight r.state
    && (null_lt r.lease_expires_at clock.current_timestamp && not (locked r.id))

-- The time of a selected row is no NULL.
abbrev pub expiry : ExecutionRow → ℕ
expiry r = coalesce r.lease_expires_at 0

-- `ORDER BY lease_expires_at, id`
abbrev pub first_expired : ExecutionRow → ExecutionRow → Bool
first_expired r s = ltb (expiry r) (expiry s) || (expiry r == expiry s && leb r.id s.id)

-- The state of a selected row is one of the two that `ExecutionStatus(…)` reads as themselves.
abbrev pub lease_of : ExecutionRow → ExpiredExecutionLease
lease_of r = record {
  execution_id = r.id;
  status = coalesce (parse_status (state_text r.state)) (status_of r.state);
  lease_owner = text_or_none r.lease_owner;
  lease_expires_at = expiry r;
  kubernetes_namespace = text_or_none r.kubernetes_namespace;
  kubernetes_job_name = text_or_none r.kubernetes_job_name;
  attempt_count = r.attempt_count;
}

unfoldable pub expired_leases : Clock → (ℕ → Bool) → ℕ → Action (List ExpiredExecutionLease)
expired_leases clock locked limit = do
  raise_if (not (leb 1 limit && leb limit 500)) value_error
  gets (λ db. map lease_of (select_rows first_expired (is_expired clock locked) limit db.requests))

parse-in_flight :
    (s : ExecutionState) → is_in_flight s ≡ true → parse_status (state_text s) ≡ some (status_of s)
unfolding parse_status
parse-in_flight ExecutionState.dispatching h = refl
parse-in_flight ExecutionState.running h = refl
parse-in_flight _ h = cc

-- `ORDER BY lease_expires_at, id`: the lease that was over first, of two the lower id.
abbrev pub Sooner : ExecutionRow → ExecutionRow → Type 0
Sooner r s = (expiry r < expiry s) ⊎ ((expiry r ≡ expiry s) × (r.id ≤ s.id))

module _ (clock : Clock) (locked : ℕ → Bool) where
  -- In flight under a lease that is over, and not locked by anybody.
  abbrev pub IsOver : ExecutionRow → Type 0
  IsOver r =
      ((r.state ≡ ExecutionState.dispatching) ⊎ (r.state ≡ ExecutionState.running))
      × ((t : ℕ) × (r.lease_expires_at ≡ some t) × (t < clock.current_timestamp))
      × (locked r.id ≡ false)

  pub is_expired-IsOver : (r : ExecutionRow) → is_expired clock locked r ≡ true → IsOver r
  unfolding is_expired
  is_expired-IsOver r h = (
    in_flight_state r.state (ground arith),
    null_lt-some r.lease_expires_at clock.current_timestamp (ground arith),
    ground arith,
  )

  over-is_expired :
      (r : ExecutionRow) (t : ℕ)
      → (r.state ≡ ExecutionState.dispatching) ⊎ (r.state ≡ ExecutionState.running)
      → r.lease_expires_at ≡ some t
      → t < clock.current_timestamp
      → locked r.id ≡ false
      → is_expired clock locked r ≡ true
  unfolding is_expired
  over-is_expired r t (inl state) lease over free = rw (state, lease, free) (ground arith)
  over-is_expired r t (inr state) lease over free = rw (state, lease, free) (ground arith)

-- The lease is of the execution `k`.
abbrev pub is_lease_of : ℕ → ExpiredExecutionLease → Bool
is_lease_of k lease = lease.execution_id == k

count_of-leases :
    (k : ℕ) (rows : List ExecutionRow)
    → count_of (is_lease_of k) (map lease_of rows) ≡ count_of (λ r. row_id r == k) rows
count_of-leases k [] = refl
count_of-leases k (r ∷ rows) = ground (arith, count_of-leases k rows)

module _ (clock : Clock) (locked : ℕ → Bool) (limit : ℕ) where
  over-lease : (r : ExecutionRow) → IsOver clock locked r → expiry r < clock.current_timestamp
  over-lease r (_, (t, lease, over), _) = rw lease over

  -- For 1 to 500 leases asked for a batch is returned, and leaves no abandoned execution behind while
  -- it has room: for every execution that is dispatching or running under a lease that is over, and
  -- whose row nobody has locked, it has a lease, or it is as long as was asked for. All its leases
  -- are over.
  pub expired_repaired :
      (db : Db) (k : ℕ) (r : ExecutionRow) (t : ℕ)
      → 1 ≤ limit
      → limit ≤ 500
      → find_request k db ≡ some r
      → (r.state ≡ ExecutionState.dispatching) ⊎ (r.state ≡ ExecutionState.running)
      → r.lease_expires_at ≡ some t
      → t < clock.current_timestamp
      → locked r.id ≡ false
      → (leases : List ExpiredExecutionLease) × ((expired_leases clock locked limit db).0
          ≡ ok leases)
        × ((length leases ≡ limit) ⊎ (1 ≤ count_of (is_lease_of k) leases))
        × All (λ l. l.lease_expires_at < clock.current_timestamp) leases
  unfolding expired_leases raise_if gets ◌>>=◌
  expired_repaired db k r t least most found state lease over free =
      let inside : (leb 1 limit && leb limit 500) ≡ true = ground arith in
      let rows = select_rows first_expired (is_expired clock locked) limit db.requests in
      (
        map lease_of rows,
        rw inside refl,
        elim (select_rows_complete first_expired (is_expired clock locked) limit row_id k
            db.requests r found (over-is_expired clock locked r t state lease over free)) [
              | inl full ↦ inl (length-map lease_of rows ∙ full)
              | inr there ↦ inr (omega (arith, there, count_of-leases k rows))
            ],
        All-map lease_of (IsOver clock locked) (λ l. l.lease_expires_at < clock.current_timestamp)
            over-lease rows
            (select_rows-All first_expired (is_expired clock locked) limit (IsOver clock locked)
              (is_expired-IsOver clock locked) db.requests),
      )
