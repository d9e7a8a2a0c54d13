-- ===== src/History/Created.antt =====
-- Idempotency over any history (execution_domain.py): one key of one candidate names one execution.
use mathlib.Core.Bool.{false≢true}
use leetcode_platform.Prelude.{
  if◌then◌else◌, ℕ, String, ◌≡◌, ◌≢◌, sym, ◌∙◌, Bool, true, some, str_eq, eq_iff, inl, inr,
  Bool-cases,
}
use leetcode_platform.Execution.Status.{idempotency_conflict, normalize-state_text, status_of}
use leetcode_platform.Execution.Store.{Db, Clock, ExecutionRow}
use leetcode_platform.Execution.Create.{
  Digest, Principal, CreateRequest, QueuedExecution, execution_request_hash, find_owned,
  queued_from_row, answer_existing, answer_or_create, create_queued,
}
use leetcode_platform.Execution.Action.{ok, err, ◌>>=◌}
use leetcode_platform.Execution.Evolution.{find_owned-Evolves}
use leetcode_platform.History.{Reach}
use leetcode_platform.History.Terminal.{Reach-Evolves}

-- `_queued_from_row` of a stored row.
abbrev pub queued_answer : ExecutionRow → Bool → QueuedExecution
queued_answer r duplicate = record {
  execution_id = r.id;
  submission_id = r.submission_id;
  status = status_of r.state;
  execution_type = r.execution_type;
  runtime = r.runtime;
  created_at = r.created_at;
  trace_id = r.trace_id;
  duplicate = duplicate;
}

queued_from_row_lem :
    (r : ExecutionRow) (b : Bool) (db : Db) → queued_from_row r b db ≡ (ok (queued_answer r b), db)
unfolding queued_from_row ◌>>=◌
queued_from_row_lem r b db = rw (normalize-state_text r.state)

answer-same :
    (r : ExecutionRow) (h : String) (db : Db)
    → r.request_hash ≡ h
    → answer_existing r h db ≡ (ok (queued_answer r true), db)
unfolding answer_existing ◌>>=◌
answer-same r h db same = rw ((eq_iff r.request_hash h).1 same) (queued_from_row_lem r true db)

answer-different :
    (r : ExecutionRow) (h : String) (db : Db)
    → r.request_hash ≢ h
    → answer_existing r h db ≡ (err idempotency_conflict, db)
unfolding answer_existing ◌>>=◌
answer-different r h db other = elim (Bool-cases (str_eq r.request_hash h)) [
  | inl same ↦ absurd (other ((eq_iff r.request_hash h).0 same))
  | inr differs ↦ rw differs
]

module _ (d : Digest) (clock : Clock) (p : Principal) (others : Db → Db) (q : CreateRequest)
    (k o : ℕ) where
  create-found :
      (db : Db) (r : ExecutionRow)
      → find_owned p.user_id q.idempotency_key db.requests ≡ some r
      → create_queued d clock p others q k o db ≡ answer_existing r (execution_request_hash d q) db
  unfolding create_queued answer_or_create ◌>>=◌
  create-found db r found = rw found

answer_existing_lem :
    (r s : ExecutionRow) (h : String) (db : Db)
    → s.request_hash ≡ r.request_hash
    → answer_existing s h db ≡ (
      if str_eq r.request_hash h then ok (queued_answer s true) else err idempotency_conflict,
      db,
    )
answer_existing_lem r s h db same = elim (Bool-cases (str_eq r.request_hash h)) [
  | inl yes_same ↦ rw yes_same (answer-same s h db (same ∙ (eq_iff r.request_hash h).0 yes_same))
  | inr differs ↦ rw differs (
      answer-different s h db
        (λ e. false≢true (sym differs ∙ (eq_iff r.request_hash h).1 (sym same ∙ e))))
]

-- The key of a request that is in the tables is answered, after any transactions, from that
-- request's row, which the tables still hold under that key, and without a write: if the hash of the
-- new request is the stored one, with the identifier and the present status of the row, as a
-- duplicate; else with the conflict error.
pub create_replayed :
    {digest : Digest} {limit : ℕ} (clock : Clock) (p : Principal) (others : Db → Db)
    (q : CreateRequest) (k o : ℕ) (a b : Db) (r : ExecutionRow)
    → Reach digest limit a b
    → find_owned p.user_id q.idempotency_key a.requests ≡ some r
    → (s : ExecutionRow) × (find_owned p.user_id q.idempotency_key b.requests ≡ some s)
      × (s.id ≡ r.id)
      × (create_queued digest clock p others q k o b ≡ (
        if str_eq r.request_hash (execution_request_hash digest q)
            then ok (queued_answer s true)
            else err idempotency_conflict,
        b,
      ))
create_replayed {digest = d} clock p others q k o a b r path found =
    let (s, here, progress) =
      find_owned-Evolves a.requests b.requests (Reach-Evolves path) p.user_id q.idempotency_key r
        found in
    (
      s,
      here,
      progress.same_id,
      create-found d clock p others q k o b s here
          ∙ answer_existing_lem r s (execution_request_hash d q) b progress.same_hash,
    )
