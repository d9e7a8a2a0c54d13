-- ===== src/Execution/Repository/Transition.antt =====
-- apps/api/src/rigor_api/execution_domain.py: `ExecutionRepository.transition`, on each of its
-- branches.
use leetcode_platform.Prelude.{
  ℕ, String, ◌≡◌, true, false, Option, none, some, [], ◌∷◌, ap, ◌∙◌, find-modify_self, find_key,
  modify,
}
use leetcode_platform.Execution.Status.{
  ExecutionStatus, is_legal, status_of, to_state, value, normalize-state_text, status_of-to_state,
  validate_execution_transition, not_found, transition_error,
}
use leetcode_platform.Execution.Store.{
  Db, Clock, text, Details, ExecutionRow, row_id, find_request, update_request, append_event,
}
use leetcode_platform.Execution.Repository.{
  snapshot_of, get_execution, moved_row, dict_update, transition,
}
use leetcode_platform.Execution.Action.{ok, err, ◌>>=◌}

-- `{"from": current, "to": target, **details}`
abbrev pub transition_details : ExecutionStatus → ExecutionStatus → Details → Details
transition_details current target details =
    dict_update (("from", text (value current)) ∷ ("to", text (value target)) ∷ []) details

module _ (clock : Clock) (k : ℕ) (target : ExecutionStatus) (details : Details) (w : Option String)
    (t : Option ℕ) where
  -- The tables after a legal transition of the request `r`.
  abbrev pub moved_db : ExecutionRow → Db → Db
  moved_db r db =
      append_event k (to_state target) (transition_details (status_of r.state) target details)
        (record db { requests = modify row_id k (moved_row clock target w t) db.requests })

  pub get_execution-found :
      (db : Db) (r : ExecutionRow)
      → find_request k db ≡ some r
      → get_execution k db ≡ (ok (snapshot_of r (status_of r.state)), db)
  unfolding get_execution ◌>>=◌
  get_execution-found db r found = rw (found, normalize-state_text r.state)

  pub get_execution-missing :
      (db : Db) → find_request k db ≡ none → get_execution k db ≡ (err not_found, db)
  unfolding get_execution ◌>>=◌
  get_execution-missing db missing = rw missing

  pub transition-missing :
      (db : Db)
      → find_request k db ≡ none
      → transition clock k target details w t db ≡ (err not_found, db)
  unfolding transition ◌>>=◌
  transition-missing db missing = rw missing

  pub transition-illegal :
      (db : Db) (r : ExecutionRow)
      → find_request k db ≡ some r
      → is_legal (status_of r.state) target ≡ false
      → transition clock k target details w t db
        ≡ (err (transition_error (status_of r.state) target), db)
  unfolding transition validate_execution_transition ◌>>=◌
  transition-illegal db r found illegal = rw (found, normalize-state_text r.state, illegal)

  moved-status : (r : ExecutionRow) → status_of (moved_row clock target w t r).state ≡ target
  unfolding moved_row
  moved-status r = status_of-to_state target

  moved-found :
      (db : Db) (r : ExecutionRow)
      → find_request k db ≡ some r
      → find_request k (moved_db r db) ≡ some (moved_row clock target w t r)
  unfolding append_event moved_row
  moved-found db r found =
      find-modify_self row_id k _ db.requests found (find_key row_id k db.requests found)

  pub transition-legal :
      (db : Db) (r : ExecutionRow)
      → find_request k db ≡ some r
      → is_legal (status_of r.state) target ≡ true
      → transition clock k target details w t db
        ≡ (ok (snapshot_of (moved_row clock target w t r) target), moved_db r db)
  unfolding transition validate_execution_transition ◌>>=◌ update_request
  transition-legal db r found legal =
      rw (found, normalize-state_text r.state, legal, found)
        (get_execution-found (moved_db r db) (moved_row clock target w t r) (moved-found db r found)
          ∙ ap (λ s. (ok (snapshot_of (moved_row clock target w t r) s), moved_db r db))
              (moved-status r))
