-- ===== src/Controller/Sound.antt =====
-- The row invariant under the controller's own statements (execution_controller.py).
use leetcode_platform.Prelude.{ℕ, String, arith}
use leetcode_platform.Execution.Status.{ExecutionStatus}
use leetcode_platform.Execution.Store.{Clock, ExecutionRow}
use leetcode_platform.Execution.Action.Keeps.{Keeps, Keeps-bind, Keeps-pure}
use leetcode_platform.Execution.Sound.{IsSound, SoundDb, Sound-update}
use leetcode_platform.Controller.Statements.{
  leased_row, reacquire, deferred_row, expire_lease, released_row, release_cancelled, jobless_row,
  forget_job,
}

module _ (limit : ℕ) where
  leased_row-IsSound :
      (w : String) (t : ℕ) (r : ExecutionRow) → IsSound limit r → IsSound limit (leased_row w t r)
  unfolding leased_row
  leased_row-IsSound w t r s = ground arith

  deferred_row-IsSound :
      (clock : Clock) (e : String) (r : ExecutionRow)
      → IsSound limit r
      → IsSound limit (deferred_row clock e r)
  unfolding deferred_row
  deferred_row-IsSound clock e r s = ground arith

  released_row-IsSound : (r : ExecutionRow) → IsSound limit r → IsSound limit (released_row r)
  unfolding released_row
  released_row-IsSound r s = ground arith

  jobless_row-IsSound : (r : ExecutionRow) → IsSound limit r → IsSound limit (jobless_row r)
  unfolding jobless_row
  jobless_row-IsSound r s = ground arith

  pub reacquire-Sound :
      (clock : Clock) (k : ℕ) (s : ExecutionStatus) (n : ℕ) (w : String) (t : ℕ)
      → Keeps (SoundDb limit) (reacquire clock k s n w t)
  unfolding reacquire
  reacquire-Sound clock k s n w t =
      Keeps-bind _ _ (Sound-update limit k _ _ (λ x h v. leased_row-IsSound w t x v))
        λ _. Keeps-pure _

  pub expire_lease-Sound :
      (clock : Clock) (k : ℕ) (w : String) (n : ℕ) (e : String)
      → Keeps (SoundDb limit) (expire_lease clock k w n e)
  unfolding expire_lease
  expire_lease-Sound clock k w n e =
      Keeps-bind _ _ (Sound-update limit k _ _ (λ x h v. deferred_row-IsSound clock e x v))
        λ _. Keeps-pure _

  pub release_cancelled-Sound : (k : ℕ) → Keeps (SoundDb limit) (release_cancelled k)
  unfolding release_cancelled
  release_cancelled-Sound k = Sound-update limit k _ _ (λ x h v. released_row-IsSound x v)

  pub forget_job-Sound : (k : ℕ) → Keeps (SoundDb limit) (forget_job k)
  unfolding forget_job
  forget_job-Sound k =
      Keeps-bind _ _ (Sound-update limit k _ _ (λ x h v. jobless_row-IsSound x v)) λ _. Keeps-pure _
