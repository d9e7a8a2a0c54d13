-- ===== src/EventLog/Create.antt =====
-- The log under `create_queued` (execution_domain.py): a new request comes with its first event.
use leetcode_platform.Prelude.{
  ℕ, String, ◌≡◌, refl, Bool, false, Option, none, some, [], ◌∷◌, ◌++◌, arith, inl, inr, Bool-cases,
  is_some, sym,
}
use leetcode_platform.Execution.Status.{ExecutionState}
use leetcode_platform.Execution.Store.{
  Db, Clock, ExecutionRow, OutboxRow, find_request, append_event, insert_outbox,
}
use leetcode_platform.Execution.Create.{
  Digest, Principal, CreateRequest, queued_from_row, answer_existing, new_row, find_owned,
  insert_payload, insert_request, store_created, after_insert, create_absent, answer_or_create,
  create_queued,
}
use leetcode_platform.Execution.Create.Insert.{insert-conflict, insert-taken, insert-fresh}
use leetcode_platform.Execution.Action.{◌>>=◌}
use leetcode_platform.Execution.Action.Keeps.{
  Keeps, keeps_rules, Keeps-bind, Keeps-write, Keeps-gets, Keeps-then,
}
use leetcode_platform.Execution.Since.{insert_outbox-requests}
use leetcode_platform.EventLog.{IsLogged}
use leetcode_platform.EventLog.Tables.{IsLogged-inserted, IsLogged-same}

absent : (o : Option ExecutionRow) → is_some o ≡ false → o ≡ none
absent o h = ground arith

insert_outbox-events : (o : OutboxRow) (db : Db) → (insert_outbox o db).events ≡ db.events
unfolding insert_outbox
insert_outbox-events o db = ground arith

queued_from_row-IsLogged : (r : ExecutionRow) (b : Bool) → Keeps IsLogged (queued_from_row r b)
unfolding queued_from_row
queued_from_row-IsLogged r b = search keeps_rules

answer_existing-IsLogged : (r : ExecutionRow) (h : String) → Keeps IsLogged (answer_existing r h)
unfolding answer_existing
answer_existing-IsLogged r h = search (keeps_rules, queued_from_row-IsLogged)

store_created-IsLogged :
    (clock : Clock) (q : CreateRequest) (k o : ℕ) (db : Db) (row : ExecutionRow)
    → IsLogged db
    → find_request k db ≡ none
    → row.id ≡ k
    → row.state ≡ ExecutionState.queued
    → IsLogged (store_created clock q k o (record db { requests = db.requests ++ row ∷ [] })).1
unfolding store_created insert_payload append_event ◌>>=◌
store_created-IsLogged clock q k o db row h free own queued =
    IsLogged-same
      (append_event k ExecutionState.queued _ (record db { requests = db.requests ++ row ∷ [] })) _
      (sym (insert_outbox-requests _ _)) (sym (insert_outbox-events _ _))
      (IsLogged-inserted k row _ db h free own queued)

module _ (d : Digest) (clock : Clock) (p : Principal) where
  answer_concurrent-IsLogged :
      (q : CreateRequest) (k o : ℕ) → Keeps IsLogged (after_insert d clock p q k o none)
  unfolding after_insert
  answer_concurrent-IsLogged q k o = search (keeps_rules, answer_existing-IsLogged)

  after_new-IsLogged :
      (q : CreateRequest) (k o : ℕ) (db : Db)
      → IsLogged db
      → find_request k db ≡ none
      → IsLogged
          (after_insert d clock p q k o
            (some (new_row d clock p q k))
            (record db { requests = db.requests ++ new_row d clock p q k ∷ [] })).1
  unfolding after_insert
  after_new-IsLogged q k o db h free =
      Keeps-then (store_created clock q k o) (λ _. queued_from_row (new_row d clock p q k) false) _
        (λ _. queued_from_row-IsLogged (new_row d clock p q k) false)
        (store_created-IsLogged clock q k o db (new_row d clock p q k) h free refl refl)

  insert_and_store-IsLogged :
      (q : CreateRequest) (k o : ℕ)
      → Keeps IsLogged (insert_request (new_row d clock p q k) >>= after_insert d clock p q k o)
  insert_and_store-IsLogged q k o = record {
    at = λ db h.
        let row : ExecutionRow = new_row d clock p q k in
        elim (Bool-cases (is_some (find_owned row.candidate_id row.idempotency_key db.requests))) [
          | inl conflict ↦
              rw (insert-conflict row (after_insert d clock p q k o) db conflict)
                ((answer_concurrent-IsLogged q k o).at db h)
          | inr free ↦ elim (Bool-cases (is_some (find_request row.id db))) [
            | inl taken ↦ rw (insert-taken row (after_insert d clock p q k o) db free taken) h
            | inr fresh ↦
                rw (insert-fresh row (after_insert d clock p q k o) db free fresh)
                  (after_new-IsLogged q k o db h (absent _ fresh))
          ]
        ];
  }

  create_absent-IsLogged :
      (others : Db → Db)
      → ((db : Db) → IsLogged db → IsLogged (others db))
      → (q : CreateRequest) (k o : ℕ) → Keeps IsLogged (create_absent d clock p others q k o)
  unfolding create_absent
  create_absent-IsLogged others commits q k o =
      Keeps-bind _ _ (Keeps-write others commits) λ _. insert_and_store-IsLogged q k o

  answer_or_create-IsLogged :
      (others : Db → Db)
      → ((db : Db) → IsLogged db → IsLogged (others db))
      → (q : CreateRequest) (k o : ℕ) (existing : Option ExecutionRow)
      → Keeps IsLogged (answer_or_create d clock p others q k o existing)
  unfolding answer_or_create
  answer_or_create-IsLogged others commits q k o none = create_absent-IsLogged others commits q k o
  answer_or_create-IsLogged others commits q k o (some r) = answer_existing-IsLogged r _

  pub create_queued-IsLogged :
      (others : Db → Db)
      → ((db : Db) → IsLogged db → IsLogged (others db))
      → (q : CreateRequest) (k o : ℕ) → Keeps IsLogged (create_queued d clock p others q k o)
  unfolding create_queued
  create_queued-IsLogged others commits q k o =
      Keeps-bind _ _ (Keeps-gets _)
        λ existing. answer_or_create-IsLogged others commits q k o existing
