-- ===== src/Execution/Claims/Laws.antt =====
-- apps/api/src/rigor_api/execution_claims.py: `claim_for_dispatch` and `retry_missing_sandbox`, branch
-- by branch.
use leetcode_platform.Prelude.{
  ℕ, String, ◌≡◌, ◌≢◌, refl, true, false, Option, none, some, ◌+◌, leb, inl, inr, Bool-cases,
  Option-cases, find-modify_self, find_key,
}
use leetcode_platform.Execution.Status.{value_error}
use leetcode_platform.Execution.Store.{
  Db, Clock, ExecutionRow, row_id, find_request, update_request, append_event,
}
use leetcode_platform.Execution.Claims.{
  ExecutionClaim, Deadline, naive, aware, is_queued, validate_lease_deadline, claimed_row,
  report_claim, claim_of, claim_for_dispatch,
}
use leetcode_platform.Execution.Action.{Result, ok, err, ◌>>=◌}

claimed_state :
    (clock : Clock) (w : String) (t : ℕ) (r : ExecutionRow)
    → is_queued (claimed_row clock w t r).state ≡ false
unfolding claimed_row
claimed_state clock w t r = refl

claimed_attempt :
    (clock : Clock) (w : String) (t : ℕ) (r : ExecutionRow)
    → (claimed_row clock w t r).attempt_count ≡ r.attempt_count + 1
unfolding claimed_row
claimed_attempt clock w t r = refl

claimed_owner :
    (clock : Clock) (w : String) (t : ℕ) (r : ExecutionRow)
    → (claimed_row clock w t r).lease_owner ≡ some w
unfolding claimed_row
claimed_owner clock w t r = refl

module _ (clock : Clock) (k : ℕ) (w : String) where
  -- A deadline without a time zone, or not in the future, is refused before any row is read.
  pub claim-naive :
      (t : ℕ) (db : Db) → claim_for_dispatch clock k w (naive t) db ≡ (err value_error, db)
  unfolding claim_for_dispatch validate_lease_deadline ◌>>=◌
  claim-naive t db = refl

  pub claim-past :
      (t : ℕ) (db : Db)
      → leb t clock.utc_now ≡ true
      → claim_for_dispatch clock k w (aware t) db ≡ (err value_error, db)
  unfolding claim_for_dispatch validate_lease_deadline ◌>>=◌
  claim-past t db past = rw past

  module _ (t : ℕ) (db : Db) (future : leb t clock.utc_now ≡ false) where
    pub claim-missing :
        find_request k db ≡ none → claim_for_dispatch clock k w (aware t) db ≡ (ok none, db)
    unfolding claim_for_dispatch validate_lease_deadline ◌>>=◌ update_request report_claim
    claim-missing missing = rw (future, missing)

    pub claim-refused :
        (r : ExecutionRow)
        → find_request k db ≡ some r
        → is_queued r.state ≡ false
        → claim_for_dispatch clock k w (aware t) db ≡ (ok none, db)
    unfolding claim_for_dispatch validate_lease_deadline ◌>>=◌ update_request report_claim
    claim-refused r found busy = rw (future, found, busy)

    pub claim-taken :
        (r : ExecutionRow)
        → find_request k db ≡ some r
        → is_queued r.state ≡ true
        → (claim_for_dispatch clock k w (aware t) db).0
          ≡ ok (some (claim_of w t (claimed_row clock w t r)))
    unfolding claim_for_dispatch validate_lease_deadline ◌>>=◌ update_request report_claim
    claim-taken r found queued = rw (future, found, queued)

    pub claim-found :
        (r : ExecutionRow)
        → find_request k db ≡ some r
        → is_queued r.state ≡ true
        → find_request k (claim_for_dispatch clock k w (aware t) db).1
          ≡ some (claimed_row clock w t r)
    unfolding claim_for_dispatch validate_lease_deadline ◌>>=◌ update_request report_claim
        append_event claimed_row
    claim-found r found queued =
        rw (future, found, queued)
          (find-modify_self row_id k _ db.requests found (find_key row_id k db.requests found))

  -- A claim that was not granted: no claim comes back.
  abbrev pub NoClaim : Result (Option ExecutionClaim) → Type 0
  NoClaim r = (c : ExecutionClaim) → r ≢ ok (some c)

  err-NoClaim : NoClaim (err value_error)
  err-NoClaim c h = cc

  none-NoClaim : NoClaim (ok none)
  none-NoClaim c h = cc

  -- Out of the queue there is nothing to claim, and the attempt writes nothing.
  pub claim-not_queued :
      (d : Deadline) (db : Db) (r : ExecutionRow)
      → find_request k db ≡ some r
      → is_queued r.state ≡ false
      → NoClaim (claim_for_dispatch clock k w d db).0 × ((claim_for_dispatch clock k w d db).1 ≡ db)
  claim-not_queued (naive t) db r found busy = rw (claim-naive t db) (err-NoClaim, refl)
  claim-not_queued (aware t) db r found busy = elim (Bool-cases (leb t clock.utc_now)) [
    | inl past ↦ rw (claim-past t db past) (err-NoClaim, refl)
    | inr future ↦ rw (claim-refused t db future r found busy) (none-NoClaim, refl)
  ]

  -- A granted claim found the row in the queue and left it out of the queue, with one attempt more
  -- and the worker as its owner.
  pub claim-granted :
      (d : Deadline) (db : Db) (c : ExecutionClaim)
      → (claim_for_dispatch clock k w d db).0 ≡ ok (some c)
      → (r s : ExecutionRow) × (find_request k db ≡ some r)
        × (is_queued r.state ≡ true)
        × (find_request k (claim_for_dispatch clock k w d db).1 ≡ some s)
        × (is_queued s.state ≡ false)
        × (s.attempt_count ≡ r.attempt_count + 1)
        × (s.lease_owner ≡ some w)
  claim-granted (naive t) db c h = absurd (err-NoClaim c (rw (claim-naive t db) at h))
  claim-granted (aware t) db c h = elim (Bool-cases (leb t clock.utc_now)) [
    | inl past ↦ absurd (err-NoClaim c (rw (claim-past t db past) at h))
    | inr future ↦ elim (Option-cases (find_request k db)) [
      | inl missing ↦ absurd (none-NoClaim c (rw (claim-missing t db future missing) at h))
      | inr (r, found) ↦ elim (Bool-cases (is_queued r.state)) [
        | inr busy ↦ absurd (none-NoClaim c (rw (claim-refused t db future r found busy) at h))
        | inl queued ↦ (
          r,
          claimed_row clock w t r,
          found,
          queued,
          claim-found t db future r found queued,
          claimed_state clock w t r,
          claimed_attempt clock w t r,
          claimed_owner clock w t r,
        )
      ]
    ]
  ]
