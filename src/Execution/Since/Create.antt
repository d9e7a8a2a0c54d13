-- ===== src/Execution/Since/Create.antt =====
-- apps/api/src/rigor_api/execution_domain.py: `create_queued` keeps every request that is there,
-- whatever other transactions commit between its look-up and its INSERT.
use leetcode_platform.Prelude.{
  ℕ, String, Bool, Option, none, some, ◌∷◌, [], inl, inr, Bool-cases, is_some,
}
use leetcode_platform.Execution.Store.{Db, Clock, ExecutionRow, find_request}
use leetcode_platform.Execution.Create.{
  Digest, Principal, CreateRequest, queued_from_row, answer_existing, find_owned, insert_payload,
  insert_request, store_created, after_insert, create_absent, create_queued, answer_or_create,
}
use leetcode_platform.Execution.Action.{pure, raise, write}
use leetcode_platform.Execution.Action.Keeps.{Keeps, Keeps-bind, Keeps-write}
use leetcode_platform.Execution.Evolution.{Evolves-append, Evolves-trans}
use leetcode_platform.Execution.Since.{Since, since_rules}

module _ {origin : Db} where
  queued_from_row-Since : (r : ExecutionRow) (b : Bool) → Keeps (Since origin) (queued_from_row r b)
  unfolding queued_from_row
  queued_from_row-Since r b = search since_rules

  answer_existing-Since :
      (r : ExecutionRow) (h : String) → Keeps (Since origin) (answer_existing r h)
  unfolding answer_existing
  answer_existing-Since r h = search (since_rules, queued_from_row-Since)

  insert_request-Since : (r : ExecutionRow) → Keeps (Since origin) (insert_request r)
  unfolding insert_request pure raise
  insert_request-Since r = record {
    at = λ db h.
        elim (Bool-cases (is_some (find_owned r.candidate_id r.idempotency_key db.requests))) [
          | inl conflict ↦ rw conflict h
          | inr free ↦ elim (Bool-cases (is_some (find_request r.id db))) [
            | inl taken ↦ rw (free, taken) h
            | inr fresh ↦
                rw (free, fresh)
                  (record {
                    rows =
                        Evolves-trans origin.requests db.requests _ h.rows
                          (Evolves-append db.requests (r ∷ []));
                  })
          ]
        ];
  }

  insert_payload-Since :
      (q : CreateRequest) (k : ℕ) → Keeps (Since origin) (write (insert_payload q k))
  unfolding insert_payload
  insert_payload-Since q k = Keeps-write _ (λ db h. record { rows = h.rows })

  store_created-Since :
      (clock : Clock) (q : CreateRequest) (k o : ℕ)
      → Keeps (Since origin) (store_created clock q k o)
  unfolding store_created
  store_created-Since clock q k o = search (since_rules, insert_payload-Since)

  after_insert-Since :
      (d : Digest) (clock : Clock) (p : Principal) (q : CreateRequest) (k o : ℕ)
      (row : Option ExecutionRow)
      → Keeps (Since origin) (after_insert d clock p q k o row)
  unfolding after_insert
  after_insert-Since d clock p q k o none = search (since_rules, answer_existing-Since)
  after_insert-Since d clock p q k o (some r) =
      search (since_rules, store_created-Since, queued_from_row-Since)

  module _ (others : Db → Db)
      (commits : (db : Db) → Since origin db → Since origin (others db)) where
    create_absent-Since :
        (d : Digest) (clock : Clock) (p : Principal) (q : CreateRequest) (k o : ℕ)
        → Keeps (Since origin) (create_absent d clock p others q k o)
    unfolding create_absent
    create_absent-Since d clock p q k o =
        Keeps-bind _ _ (Keeps-write others commits)
          λ _. Keeps-bind _ _ (insert_request-Since _) λ row. after_insert-Since d clock p q k o row

    answer_or_create-Since :
        (d : Digest) (clock : Clock) (p : Principal) (q : CreateRequest) (k o : ℕ)
        (existing : Option ExecutionRow)
        → Keeps (Since origin) (answer_or_create d clock p others q k o existing)
    unfolding answer_or_create
    answer_or_create-Since d clock p q k o none = create_absent-Since d clock p q k o
    answer_or_create-Since d clock p q k o (some r) = answer_existing-Since r _

    pub create_queued-Since :
        (d : Digest) (clock : Clock) (p : Principal) (q : CreateRequest) (k o : ℕ)
        → Keeps (Since origin) (create_queued d clock p others q k o)
    unfolding create_queued
    create_queued-Since d clock p q k o = search (since_rules, answer_or_create-Since)
