-- ===== src/Execution/Persist/Stored.antt =====
-- apps/api/src/rigor_api/execution_results.py: `persist_terminal_result`, on each of its branches.
use leetcode_platform.Prelude.{
  List, [], ◌∷◌, find, ℕ, ◌≡◌, refl, true, false, none, some, ◌≤◌, arith, ltb, find-modify_self,
  find_key,
}
use leetcode_platform.Execution.Status.{
  ExecutionStatus, ExecutionState, is_terminal, is_legal, status_of,
}
use leetcode_platform.Execution.Store.{
  PublicResultRow, Db, Clock, ExecutionRow, row_id, find_request, update_request, append_event,
}
use leetcode_platform.Execution.Repository.{snapshot_of, moved_row}
use leetcode_platform.Execution.Repository.Transition.{
  moved_db, transition-legal, get_execution-found,
}
use leetcode_platform.Execution.Persist.{
  TrustedExecutionProjection, result_details, resulted_row, store_result, after_transition,
  persist_active, persist_terminal_result, write_result, fits_request, fits_result, result_row,
  upsert_result,
}
use leetcode_platform.Execution.Action.{ok, raise_if, ◌>>=◌}

running-legal :
    (s : ExecutionStatus) → is_terminal s ≡ true → is_legal ExecutionStatus.running s ≡ true
running-legal ExecutionStatus.queued h = cc
running-legal ExecutionStatus.dispatching h = cc
running-legal ExecutionStatus.running h = cc
running-legal _ h = refl

abbrev pub result_id : PublicResultRow → ℕ
result_id x = x.execution_request_id

find-upsert_result :
    (x : PublicResultRow) (rows : List PublicResultRow)
    → find result_id (result_id x) (upsert_result x rows) ≡ some x
find-upsert_result x [] = ground arith
find-upsert_result x (y ∷ rows) = ground (arith, find-upsert_result x rows)

module _ (clock : Clock) (k : ℕ) (p : TrustedExecutionProjection) where
  store_result-shown :
      (db : Db) (r : ExecutionRow)
      → find_request k db ≡ some r
      → p.hidden_passed ≤ p.hidden_total
      → fits_request p ≡ true
      → fits_result (result_row k p) ≡ true
      → find result_id k (store_result k p db).1.public_results ≡ some (result_row k p)
  unfolding store_result raise_if ◌>>=◌ update_request write_result
  store_result-shown db r found fits takes takes_result =
      let no_excess : ltb p.hidden_total p.hidden_passed ≡ false = ground arith in
      rw (takes, takes_result, found, update_request, no_excess)
        (find-upsert_result (result_row k p) db.public_results)

  store_result-found :
      (db : Db) (r : ExecutionRow)
      → find_request k db ≡ some r
      → p.hidden_passed ≤ p.hidden_total
      → fits_request p ≡ true
      → fits_result (result_row k p) ≡ true
      → ((store_result k p db).0 ≡ ok p.execution_status)
        × (find_request k (store_result k p db).1 ≡ some (resulted_row k p r))
  unfolding store_result raise_if ◌>>=◌ update_request write_result resulted_row
  store_result-found db r found fits takes takes_result =
      let no_excess : ltb p.hidden_total p.hidden_passed ≡ false = ground arith in
      rw (takes, takes_result, found, update_request, no_excess)
        (
          refl,
          find-modify_self row_id k (resulted_row k p) db.requests found
              (find_key row_id k db.requests found),
        )

  moved_db-found :
      (db : Db) (r : ExecutionRow)
      → find_request k db ≡ some r
      → find_request k (moved_db clock k p.execution_status (result_details p) none none r db)
        ≡ some (moved_row clock p.execution_status none none r)
  unfolding append_event moved_row
  moved_db-found db r found =
      find-modify_self row_id k (moved_row clock p.execution_status none none) db.requests found
        (find_key row_id k db.requests found)

  persist-legal :
      (db : Db) (r : ExecutionRow)
      → find_request k db ≡ some r
      → is_terminal (status_of r.state) ≡ false
      → is_legal (status_of r.state) p.execution_status ≡ true
      → persist_terminal_result clock k p db
        ≡ store_result k p (moved_db clock k p.execution_status (result_details p) none none r db)
  unfolding persist_terminal_result persist_active ◌>>=◌ snapshot_of after_transition
  persist-legal db r found active legal =
      rw
        (
          get_execution-found clock k p.execution_status (result_details p) none none db r found,
          active,
          transition-legal clock k p.execution_status (result_details p) none none db r found legal,
        )
        refl

  -- The result of a running execution is stored: where the projection's status is terminal and it
  -- has no more hidden passes than hidden tests, and the columns take its values, its status is
  -- returned, and the row is the old one with the transition to that status and then the figures of the projection applied.
  pub persist-running :
      (db : Db) (r : ExecutionRow)
      → find_request k db ≡ some r
      → r.state ≡ ExecutionState.running
      → is_terminal p.execution_status ≡ true
      → p.hidden_passed ≤ p.hidden_total
      → fits_request p ≡ true
      → fits_result (result_row k p) ≡ true
      → ((persist_terminal_result clock k p db).0 ≡ ok p.execution_status)
        × (find_request k (persist_terminal_result clock k p db).1
            ≡ some (resulted_row k p (moved_row clock p.execution_status none none r)))
  persist-running db r found running ends fits takes takes_result =
      let active : is_terminal (status_of r.state) ≡ false = rw running refl in
      let legal : is_legal (status_of r.state) p.execution_status ≡ true =
        rw running (running-legal p.execution_status ends) in
      rw (persist-legal db r found active legal) (
        store_result-found (moved_db clock k p.execution_status (result_details p) none none r db)
          (moved_row clock p.execution_status none none r) (moved_db-found db r found) fits takes
          takes_result)

  -- Then the result that the candidate sees is stored as well, in place of an earlier one.
  pub persist-shown :
      (db : Db) (r : ExecutionRow)
      → find_request k db ≡ some r
      → r.state ≡ ExecutionState.running
      → is_terminal p.execution_status ≡ true
      → p.hidden_passed ≤ p.hidden_total
      → fits_request p ≡ true
      → fits_result (result_row k p) ≡ true
      → find result_id k (persist_terminal_result clock k p db).1.public_results
        ≡ some (result_row k p)
  persist-shown db r found running ends fits takes takes_result =
      let active : is_terminal (status_of r.state) ≡ false = rw running refl in
      let legal : is_legal (status_of r.state) p.execution_status ≡ true =
        rw running (running-legal p.execution_status ends) in
      rw (persist-legal db r found active legal) (
        store_result-shown (moved_db clock k p.execution_status (result_details p) none none r db)
          (moved_row clock p.execution_status none none r) (moved_db-found db r found) fits takes
          takes_result)
