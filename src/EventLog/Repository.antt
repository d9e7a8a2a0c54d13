-- ===== src/EventLog/Repository.antt =====
-- The log under `create_queued`, `transition`, `cancel` (execution_domain.py) and
-- `persist_terminal_result` (execution_results.py).
use leetcode_platform.Prelude.{
  ℕ, String, ◌≡◌, refl, true, Option, arith, inl, inr, Bool-cases, Option-cases,
}
use leetcode_platform.Execution.Status.{
  ExecutionStatus, ExecutionState, Error, is_legal, status_of, to_state,
}
use leetcode_platform.Execution.Store.{
  Clock, Details, PublicResultRow, OutboxRow, find_request, insert_outbox,
}
use leetcode_platform.Execution.Repository.{
  ExecutionSnapshot, get_execution, moved_row, transition, enqueue_cancel, cancel_active, cancel,
}
use leetcode_platform.Execution.Repository.Transition.{
  transition-missing, transition-illegal, transition-legal,
}
use leetcode_platform.Execution.Persist.{
  TrustedExecutionProjection, resulted_row, write_result, store_result, reread_terminal,
  after_transition, persist_active, persist_terminal_result,
}
use leetcode_platform.Execution.Action.{Result, ok, err, write, enqueue}
use leetcode_platform.Execution.Action.Keeps.{
  Keeps, keeps_rules, Keeps-bind, Keeps-raise_if, Keeps-pure, Keeps-write, Keeps-enqueue,
}
use leetcode_platform.EventLog.{IsLogged, may_follow}
use leetcode_platform.EventLog.Tables.{IsLogged-advanced, IsLogged-update, IsLogged-same}

legal_move :
    (s : ExecutionState) (target : ExecutionStatus)
    → is_legal (status_of s) target ≡ true
    → may_follow s (to_state target) ≡ true
unfolding may_follow
legal_move s target h = ground arith

get_execution-IsLogged : (k : ℕ) → Keeps IsLogged (get_execution k)
unfolding get_execution
get_execution-IsLogged k = search keeps_rules

pub transition-IsLogged :
    (clock : Clock) (k : ℕ) (target : ExecutionStatus) (d : Details) (w : Option String)
    (t : Option ℕ)
    → Keeps IsLogged (transition clock k target d w t)
unfolding moved_row
transition-IsLogged clock k target d w t = record {
  at = λ db h. elim (Option-cases (find_request k db)) [
    | inl missing ↦ rw (transition-missing clock k target d w t db missing) h
    | inr (r, found) ↦ elim (Bool-cases (is_legal (status_of r.state) target)) [
      | inl legal ↦ rw (transition-legal clock k target d w t db r found legal) (
          IsLogged-advanced k (moved_row clock target w t) (to_state target) _ (λ x. refl) db r h
            found (legal_move r.state target legal) refl)
      | inr illegal ↦ rw (transition-illegal clock k target d w t db r found illegal) h
    ]
  ];
}

insert_outbox-IsLogged : (o : OutboxRow) → Keeps IsLogged (enqueue o)
unfolding insert_outbox
insert_outbox-IsLogged o =
    Keeps-enqueue o (λ db h. IsLogged-same db (insert_outbox o db) (ground arith) (ground arith) h)

enqueue_cancel-IsLogged :
    (clock : Clock) (k : ℕ) (trace : String) (o : ℕ)
    → Keeps IsLogged (enqueue_cancel clock k trace o)
unfolding enqueue_cancel
enqueue_cancel-IsLogged clock k trace o = insert_outbox-IsLogged _

cancel_active-IsLogged :
    (clock : Clock) (k : ℕ) (trace : String) (o : ℕ)
    → Keeps IsLogged (cancel_active clock k trace o)
unfolding cancel_active
cancel_active-IsLogged clock k trace o =
    search (keeps_rules, transition-IsLogged, enqueue_cancel-IsLogged)

pub cancel-IsLogged :
    (clock : Clock) (k : ℕ) (trace : String) (o : ℕ) → Keeps IsLogged (cancel clock k trace o)
unfolding cancel
cancel-IsLogged clock k trace o =
    search (keeps_rules, get_execution-IsLogged, cancel_active-IsLogged)

write_result-IsLogged : (x : PublicResultRow) → Keeps IsLogged (write (write_result x))
unfolding write_result
write_result-IsLogged x = Keeps-write _ (λ db h. IsLogged-same db _ refl refl h)

store_result-IsLogged : (k : ℕ) (p : TrustedExecutionProjection) → Keeps IsLogged (store_result k p)
unfolding store_result resulted_row
store_result-IsLogged k p = Keeps-bind _ _ (Keeps-raise_if _ _) λ _.
    Keeps-bind _ _ (IsLogged-update k _ _ (λ x. refl) (λ x. refl)) λ _.
      Keeps-bind _ _ (Keeps-raise_if _ _) λ _.
        Keeps-bind _ _ (Keeps-raise_if _ _)
          λ _. Keeps-bind _ _ (write_result-IsLogged _) λ _. Keeps-pure _

reread_terminal-IsLogged : (k : ℕ) (e : Error) → Keeps IsLogged (reread_terminal k e)
unfolding reread_terminal
reread_terminal-IsLogged k e = search (keeps_rules, get_execution-IsLogged)

after_transition-IsLogged :
    (k : ℕ) (p : TrustedExecutionProjection) (r : Result ExecutionSnapshot)
    → Keeps IsLogged (after_transition k p r)
unfolding after_transition
after_transition-IsLogged k p (ok s) = store_result-IsLogged k p
after_transition-IsLogged k p (err e) = search (keeps_rules, reread_terminal-IsLogged)

persist_active-IsLogged :
    (clock : Clock) (k : ℕ) (p : TrustedExecutionProjection)
    → Keeps IsLogged (persist_active clock k p)
unfolding persist_active
persist_active-IsLogged clock k p =
    search (keeps_rules, transition-IsLogged, after_transition-IsLogged)

pub persist_terminal_result-IsLogged :
    (clock : Clock) (k : ℕ) (p : TrustedExecutionProjection)
    → Keeps IsLogged (persist_terminal_result clock k p)
unfolding persist_terminal_result
persist_terminal_result-IsLogged clock k p =
    search (keeps_rules, get_execution-IsLogged, persist_active-IsLogged)
