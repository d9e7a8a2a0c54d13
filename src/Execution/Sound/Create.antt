-- ===== src/Execution/Sound/Create.antt =====
-- The row invariant under `create_queued` (execution_domain.py).
use leetcode_platform.Prelude.{
  ℕ, String, Bool, Option, none, some, arith, inl, inr, Bool-cases, is_some,
}
use leetcode_platform.Execution.Store.{Db, Clock, ExecutionRow, find_request}
use leetcode_platform.Execution.Create.{
  Digest, Principal, CreateRequest, queued_from_row, answer_existing, new_row, find_owned,
  insert_payload, insert_request, store_created, after_insert, create_absent, answer_or_create,
  create_queued,
}
use leetcode_platform.Execution.Action.{write, pure, raise}
use leetcode_platform.Execution.Action.Keeps.{Keeps, Keeps-bind, Keeps-write, Keeps-gets}
use leetcode_platform.Execution.Sound.{IsSound, SoundDb, sound_rules, AllSound-append}

module _ (limit : ℕ) where
  new_row-IsSound :
      (d : Digest) (clock : Clock) (p : Principal) (q : CreateRequest) (k : ℕ)
      → IsSound limit (new_row d clock p q k)
  new_row-IsSound d clock p q k = ground arith

  queued_from_row-Sound :
      (r : ExecutionRow) (b : Bool) → Keeps (SoundDb limit) (queued_from_row r b)
  unfolding queued_from_row
  queued_from_row-Sound r b = search sound_rules

  answer_existing-Sound :
      (r : ExecutionRow) (h : String) → Keeps (SoundDb limit) (answer_existing r h)
  unfolding answer_existing
  answer_existing-Sound r h = search (sound_rules, queued_from_row-Sound)

  insert_request-Sound :
      (r : ExecutionRow) → IsSound limit r → Keeps (SoundDb limit) (insert_request r)
  unfolding insert_request pure raise
  insert_request-Sound r s = record {
    at = λ db h.
        elim (Bool-cases (is_some (find_owned r.candidate_id r.idempotency_key db.requests))) [
          | inl conflict ↦ rw conflict h
          | inr free ↦ elim (Bool-cases (is_some (find_request r.id db))) [
            | inl taken ↦ rw (free, taken) h
            | inr fresh ↦
                rw (free, fresh) (record { rows = AllSound-append limit db.requests r h.rows s })
          ]
        ];
  }

  insert_payload-Sound :
      (q : CreateRequest) (k : ℕ) → Keeps (SoundDb limit) (write (insert_payload q k))
  unfolding insert_payload
  insert_payload-Sound q k = Keeps-write _ (λ db h. record { rows = h.rows })

  store_created-Sound :
      (clock : Clock) (q : CreateRequest) (k o : ℕ)
      → Keeps (SoundDb limit) (store_created clock q k o)
  unfolding store_created
  store_created-Sound clock q k o = search (sound_rules, insert_payload-Sound)

  module _ (d : Digest) (clock : Clock) (p : Principal) where
    after_insert-Sound :
        (q : CreateRequest) (k o : ℕ) (row : Option ExecutionRow)
        → Keeps (SoundDb limit) (after_insert d clock p q k o row)
    unfolding after_insert
    after_insert-Sound q k o none = search (sound_rules, answer_existing-Sound)
    after_insert-Sound q k o (some r) =
        search (sound_rules, store_created-Sound, queued_from_row-Sound)

    module _ (others : Db → Db)
        (commits : (db : Db) → SoundDb limit db → SoundDb limit (others db)) where
      create_absent-Sound :
          (q : CreateRequest) (k o : ℕ)
          → Keeps (SoundDb limit) (create_absent d clock p others q k o)
      unfolding create_absent
      create_absent-Sound q k o = Keeps-bind _ _ (Keeps-write others commits) λ _.
          Keeps-bind _ _ (insert_request-Sound _ (new_row-IsSound d clock p q k))
            λ row. after_insert-Sound q k o row

      answer_or_create-Sound :
          (q : CreateRequest) (k o : ℕ) (existing : Option ExecutionRow)
          → Keeps (SoundDb limit) (answer_or_create d clock p others q k o existing)
      unfolding answer_or_create
      answer_or_create-Sound q k o none = create_absent-Sound q k o
      answer_or_create-Sound q k o (some r) = answer_existing-Sound r _

      pub create_queued-Sound :
          (q : CreateRequest) (k o : ℕ)
          → Keeps (SoundDb limit) (create_queued d clock p others q k o)
      unfolding create_queued
      create_queued-Sound q k o =
          Keeps-bind _ _ (Keeps-gets _) λ existing. answer_or_create-Sound q k o existing
