-- ===== src/EventLog/Controller.antt =====
-- The log under the controller's own statements (execution_controller.py): none changes a state.
use leetcode_platform.Prelude.{ℕ, String, refl}
use leetcode_platform.Execution.Status.{ExecutionStatus}
use leetcode_platform.Execution.Store.{Clock}
use leetcode_platform.Execution.Action.Keeps.{Keeps, Keeps-bind, Keeps-pure}
use leetcode_platform.Controller.Statements.{
  leased_row, reacquire, deferred_row, expire_lease, released_row, release_cancelled, jobless_row,
  forget_job,
}
use leetcode_platform.EventLog.{IsLogged}
use leetcode_platform.EventLog.Tables.{IsLogged-update}

pub reacquire-IsLogged :
    (clock : Clock) (k : ℕ) (s : ExecutionStatus) (n : ℕ) (w : String) (t : ℕ)
    → Keeps IsLogged (reacquire clock k s n w t)
unfolding reacquire leased_row
reacquire-IsLogged clock k s n w t =
    Keeps-bind _ _ (IsLogged-update k _ _ (λ x. refl) (λ x. refl)) λ _. Keeps-pure _

pub expire_lease-IsLogged :
    (clock : Clock) (k : ℕ) (w : String) (n : ℕ) (e : String)
    → Keeps IsLogged (expire_lease clock k w n e)
unfolding expire_lease deferred_row
expire_lease-IsLogged clock k w n e =
    Keeps-bind _ _ (IsLogged-update k _ _ (λ x. refl) (λ x. refl)) λ _. Keeps-pure _

pub release_cancelled-IsLogged : (k : ℕ) → Keeps IsLogged (release_cancelled k)
unfolding release_cancelled released_row
release_cancelled-IsLogged k = IsLogged-update k _ _ (λ x. refl) (λ x. refl)

pub forget_job-IsLogged : (k : ℕ) → Keeps IsLogged (forget_job k)
unfolding forget_job jobless_row
forget_job-IsLogged k =
    Keeps-bind _ _ (IsLogged-update k _ _ (λ x. refl) (λ x. refl)) λ _. Keeps-pure _
