-- ===== src/Execution/Evolution.antt =====
-- How the row of an execution may change: one relation that every statement of the pipeline
-- respects (execution_domain.py, execution_claims.py, execution_results.py).
use leetcode_platform.Prelude.{
  ℕ, String, Option, ◌≡◌, ◌≤◌, ◌==◌, ◌&&◌, Bool, true, false, some, eq_of_some, List, [], ◌∷◌, ◌++◌,
  inl, inr, arith, Bool-cases, Option-cases, find, modify, null_id_eq, str_eq,
}
use leetcode_platform.Execution.Create.{find_owned}
use leetcode_platform.Execution.Status.{ExecutionState}
use leetcode_platform.Execution.Store.{Db, ExecutionRow, row_id, find_request, update_request}
use leetcode_platform.Execution.Claims.{is_queued}

-- The states that no execution leaves: the terminal ones and their legacy labels.
abbrev pub is_settled : ExecutionState → Bool
is_settled ExecutionState.queued = false
is_settled ExecutionState.dispatching = false
is_settled ExecutionState.running = false
is_settled _ = true

pub record Progress (r s : ExecutionRow) : Type 0 where
  pub same_id : s.id ≡ r.id
  pub same_candidate : s.candidate_id ≡ r.candidate_id
  pub same_key : s.idempotency_key ≡ r.idempotency_key
  pub same_hash : s.request_hash ≡ r.request_hash
  pub attempts_grow : r.attempt_count ≤ s.attempt_count
  pub settled_stays : is_settled r.state ≡ true → s.state ≡ r.state
  pub settled_completion : is_settled r.state ≡ true → s.completed_at ≡ r.completed_at
  pub settled_attempts : is_settled r.state ≡ true → s.attempt_count ≡ r.attempt_count
  pub queued_untouched : is_queued s.state ≡ true → is_queued r.state ≡ true

pub Progress-refl : (r : ExecutionRow) → Progress r r
Progress-refl r = ground arith

pub Progress-trans : {r s t : ExecutionRow} → Progress r s → Progress s t → Progress r t
Progress-trans p q = ground arith

-- Every row of `rows` is there in `rows'`, in its place and further on in its life; new rows stand
-- behind them.
abbrev pub Evolves : List ExecutionRow → List ExecutionRow → Type 0
Evolves [] rows' = Unit
Evolves (r ∷ rows) [] = ⊥
Evolves (r ∷ rows) (s ∷ rows') = Progress r s × Evolves rows rows'

pub Evolves-refl : (rows : List ExecutionRow) → Evolves rows rows
Evolves-refl [] = tt
Evolves-refl (r ∷ rows) = (Progress-refl r, Evolves-refl rows)

pub Evolves-trans : (a b c : List ExecutionRow) → Evolves a b → Evolves b c → Evolves a c
Evolves-trans [] b c ab bc = tt
Evolves-trans (r ∷ a) [] c ab bc = absurd ab
Evolves-trans (r ∷ a) (s ∷ b) [] ab bc = absurd bc
Evolves-trans (r ∷ a) (s ∷ b) (t ∷ c) ab bc =
    (Progress-trans ab.0 bc.0, Evolves-trans a b c ab.1 bc.1)

pub Evolves-append : (rows more : List ExecutionRow) → Evolves rows (rows ++ more)
Evolves-append [] more = tt
Evolves-append (r ∷ rows) more = (Progress-refl r, Evolves-append rows more)

-- An UPDATE by primary key, where the new row is further on than the one it replaces.
pub Evolves-modify :
    (k : ℕ) (f : ExecutionRow → ExecutionRow) (rows : List ExecutionRow) {r : ExecutionRow}
    → find row_id k rows ≡ some r
    → Progress r (f r)
    → Evolves rows (modify row_id k f rows)
Evolves-modify k f [] found p = tt
Evolves-modify k f (x ∷ rows) {r} found p = elim (Bool-cases (x.id == k)) [
  | inl hit ↦
      let this : x ≡ r = eq_of_some (rw hit at found) in rw hit (rw this p, Evolves-refl rows)
  | inr miss ↦ rw miss (Progress-refl x, Evolves-modify k f rows {r = r} (rw miss at found) p)
]

-- A row is found again under its primary key,
pub find-Evolves :
    (a b : List ExecutionRow)
    → Evolves a b
    → (k : ℕ) (r : ExecutionRow) → find row_id k a ≡ some r
    → (s : ExecutionRow) × (find row_id k b ≡ some s) × Progress r s
find-Evolves [] b h k r e = cc
find-Evolves (x ∷ a) [] h k r e = absurd h
find-Evolves (x ∷ a) (y ∷ b) h k r e = elim (Bool-cases (x.id == k)) [
  | inl hit ↦
      let this : x ≡ r = eq_of_some (rw hit at e) in (y, rw (h.0.same_id, hit), rw (← this) h.0)
  | inr miss ↦
      let (s, es, p) = find-Evolves a b h.1 k r (rw miss at e) in (s, rw (h.0.same_id, miss) es, p)
]

-- and under its candidate and idempotency key.
pub find_owned-Evolves :
    (a b : List ExecutionRow)
    → Evolves a b
    → (user : Option ℕ) (key : String) (r : ExecutionRow) → find_owned user key a ≡ some r
    → (s : ExecutionRow) × (find_owned user key b ≡ some s) × Progress r s
find_owned-Evolves [] b h user key r e = cc
find_owned-Evolves (x ∷ a) [] h user key r e = absurd h
find_owned-Evolves (x ∷ a) (y ∷ b) h user key r e =
    elim (Bool-cases (null_id_eq x.candidate_id user && str_eq x.idempotency_key key)) [
      | inl hit ↦
          let this : x ≡ r = eq_of_some (rw hit at e) in
          (y, rw (h.0.same_candidate, h.0.same_key, hit), rw (← this) h.0)
      | inr miss ↦
          let (s, es, p) = find_owned-Evolves a b h.1 user key r (rw miss at e) in
          (s, rw (h.0.same_candidate, h.0.same_key, miss) es, p)
    ]

module _ (k : ℕ) (guard : ExecutionRow → Bool) (f : ExecutionRow → ExecutionRow)
    (advances : (x : ExecutionRow) → guard x ≡ true → Progress x (f x)) where
  pub update_request-Evolves :
      (db : Db) → Evolves db.requests (update_request k guard f db).1.requests
  unfolding update_request
  update_request-Evolves db = elim (Option-cases (find_request k db)) [
    | inl missing ↦ rw (missing, update_request) (Evolves-refl db.requests)
    | inr (r, found) ↦ elim (Bool-cases (guard r)) [
      | inl hit ↦
          rw (found, hit, update_request) (Evolves-modify k f db.requests found (advances r hit))
      | inr miss ↦ rw (found, miss, update_request) (Evolves-refl db.requests)
    ]
  ]
