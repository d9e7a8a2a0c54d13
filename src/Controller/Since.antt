-- ===== src/Controller/Since.antt =====
-- apps/api/src/rigor_api/execution_controller.py: the controller's own statements move no row back
-- in its life.
use leetcode_platform.Prelude.{ℕ, String, arith}
use leetcode_platform.Execution.Status.{ExecutionStatus}
use leetcode_platform.Execution.Store.{Clock, Db, ExecutionRow}
use leetcode_platform.Execution.Action.{update}
use leetcode_platform.Execution.Action.Keeps.{Keeps}
use leetcode_platform.Execution.Evolution.{Progress}
use leetcode_platform.Execution.Since.{Since, Since-update, since_rules}
use leetcode_platform.Controller.Statements.{
  reacquire_guard, leased_row, reacquire, defer_guard, deferred_row, expire_lease, released_row,
  release_cancelled, is_state_terminal, jobless_row, forget_job,
}

leased_row-Progress : (w : String) (t : ℕ) (r : ExecutionRow) → Progress r (leased_row w t r)
unfolding leased_row
leased_row-Progress w t r = ground arith

deferred_row-Progress :
    (clock : Clock) (e : String) (r : ExecutionRow) → Progress r (deferred_row clock e r)
unfolding deferred_row
deferred_row-Progress clock e r = ground arith

released_row-Progress : (r : ExecutionRow) → Progress r (released_row r)
unfolding released_row
released_row-Progress r = ground arith

jobless_row-Progress : (r : ExecutionRow) → Progress r (jobless_row r)
unfolding jobless_row
jobless_row-Progress r = ground arith

module _ {origin : Db} where
  update_leased-Since :
      (clock : Clock) (k : ℕ) (s : ExecutionStatus) (n : ℕ) (w : String) (t : ℕ)
      → Keeps (Since origin) (update k (reacquire_guard clock s n) (leased_row w t))
  unfolding leased_row
  update_leased-Since clock k s n w t = Since-update k _ _ (λ x h. leased_row-Progress w t x)

  pub reacquire-Since :
      (clock : Clock) (k : ℕ) (s : ExecutionStatus) (n : ℕ) (w : String) (t : ℕ)
      → Keeps (Since origin) (reacquire clock k s n w t)
  unfolding reacquire
  reacquire-Since clock k s n w t = search (since_rules, update_leased-Since clock k s n w t)

  update_deferred-Since :
      (clock : Clock) (k : ℕ) (w : String) (n : ℕ) (e : String)
      → Keeps (Since origin) (update k (defer_guard w n) (deferred_row clock e))
  unfolding deferred_row
  update_deferred-Since clock k w n e = Since-update k _ _ (λ x h. deferred_row-Progress clock e x)

  pub expire_lease-Since :
      (clock : Clock) (k : ℕ) (w : String) (n : ℕ) (e : String)
      → Keeps (Since origin) (expire_lease clock k w n e)
  unfolding expire_lease
  expire_lease-Since clock k w n e = search (since_rules, update_deferred-Since clock k w n e)

  pub release_cancelled-Since : (k : ℕ) → Keeps (Since origin) (release_cancelled k)
  unfolding release_cancelled released_row
  release_cancelled-Since k = Since-update k _ _ (λ x h. released_row-Progress x)

  update_jobless-Since :
      (k : ℕ) → Keeps (Since origin) (update k (λ r. is_state_terminal r.state) jobless_row)
  unfolding jobless_row
  update_jobless-Since k = Since-update k _ _ (λ x h. jobless_row-Progress x)

  pub forget_job-Since : (k : ℕ) → Keeps (Since origin) (forget_job k)
  unfolding forget_job
  forget_job-Since k = search (since_rules, update_jobless-Since k)
