-- ===== src/Execution/Since/Persist.antt =====
-- apps/api/src/rigor_api/execution_results.py: persisting a result never takes a row back in its
-- life.
use leetcode_platform.Prelude.{ℕ, true, arith}
use leetcode_platform.Execution.Status.{Error}
use leetcode_platform.Execution.Store.{Clock, Db, ExecutionRow, PublicResultRow}
use leetcode_platform.Execution.Repository.{ExecutionSnapshot}
use leetcode_platform.Execution.Persist.{
  TrustedExecutionProjection, resulted_row, write_result, store_result, reread_terminal,
  after_transition, persist_active, persist_terminal_result,
}
use leetcode_platform.Execution.Action.{Result, ok, err, update, write}
use leetcode_platform.Execution.Action.Keeps.{
  Keeps, Keeps-write, Keeps-bind, Keeps-raise_if, Keeps-pure,
}
use leetcode_platform.Execution.Evolution.{Progress}
use leetcode_platform.Execution.Since.{Since, Since-update, since_rules}
use leetcode_platform.Execution.Since.Repository.{get_execution-Since, transition-Since}

resulted_row-Progress :
    (k : ℕ) (p : TrustedExecutionProjection) (r : ExecutionRow) → Progress r (resulted_row k p r)
unfolding resulted_row
resulted_row-Progress k p r = ground arith

module _ {origin : Db} where
  update_result-Since :
      (k : ℕ) (p : TrustedExecutionProjection)
      → Keeps (Since origin) (update k (λ _. true) (resulted_row k p))
  unfolding resulted_row
  update_result-Since k p = Since-update k _ _ (λ x h. resulted_row-Progress k p x)

  write_result-Since : (x : PublicResultRow) → Keeps (Since origin) (write (write_result x))
  unfolding write_result
  write_result-Since x = Keeps-write _ (λ db h. record { rows = h.rows })

  store_result-Since :
      (k : ℕ) (p : TrustedExecutionProjection) → Keeps (Since origin) (store_result k p)
  unfolding store_result
  store_result-Since k p = Keeps-bind _ _ (Keeps-raise_if _ _) λ _.
      Keeps-bind _ _ (update_result-Since k p) λ _. Keeps-bind _ _ (Keeps-raise_if _ _) λ _.
        Keeps-bind _ _ (Keeps-raise_if _ _)
          λ _. Keeps-bind _ _ (write_result-Since _) λ _. Keeps-pure _

  reread_terminal-Since : (k : ℕ) (e : Error) → Keeps (Since origin) (reread_terminal k e)
  unfolding reread_terminal
  reread_terminal-Since k e = search (since_rules, get_execution-Since)

  after_transition-Since :
      (k : ℕ) (p : TrustedExecutionProjection) (r : Result ExecutionSnapshot)
      → Keeps (Since origin) (after_transition k p r)
  unfolding after_transition
  after_transition-Since k p (ok s) = store_result-Since k p
  after_transition-Since k p (err e) = search (since_rules, reread_terminal-Since)

  persist_active-Since :
      (clock : Clock) (k : ℕ) (p : TrustedExecutionProjection)
      → Keeps (Since origin) (persist_active clock k p)
  unfolding persist_active
  persist_active-Since clock k p = search (since_rules, transition-Since, after_transition-Since)

  pub persist_terminal_result-Since :
      (clock : Clock) (k : ℕ) (p : TrustedExecutionProjection)
      → Keeps (Since origin) (persist_terminal_result clock k p)
  unfolding persist_terminal_result
  persist_terminal_result-Since clock k p =
      search (since_rules, get_execution-Since, persist_active-Since)
