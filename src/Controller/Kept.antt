-- ===== src/Controller/Kept.antt =====
-- apps/api/src/rigor_api/execution_controller.py: the interface between the flows of the controller
-- and the statements that they send, and the transactions of several statements.
pub mod Attempts
pub mod Messages
pub mod Reconciliation
pub mod Service
use leetcode_platform.Prelude.{
  ℕ, String, ◌≡◌, Bool, true, false, Option, none, some, List, [], ◌∷◌, refl, inl, inr, Bool-cases,
  ◌&&◌, not, str_eq, if◌then◌else◌,
}
use leetcode_platform.Execution.Status.{ExecutionStatus, is_terminal}
use leetcode_platform.Execution.Store.{Db, Clock}
use leetcode_platform.Execution.Repository.{get_execution}
use leetcode_platform.Execution.Action.{Action, Result, ok, err, gets, lift, attempt, ◌>>=◌}
use leetcode_platform.Execution.Action.Keeps.{Keeps, keeps_rules}
use leetcode_platform.Execution.Action.Commits.{
  Commits, Commits-keeps, Commits-pure, Commits-lift, Commits-lift_then, Commits-bind,
}
use leetcode_platform.Execution.Claims.{
  ExecutionClaim, ExpiredExecutionLease, Deadline, claim_for_dispatch, retry_missing_sandbox,
  mark_running, renew_lease, lock_owned_attempt,
}
use leetcode_platform.Execution.Persist.{TrustedExecutionProjection, persist_terminal_result}
use leetcode_platform.Execution.Judge.{Python}
use leetcode_platform.Execution.Compare.{
  SandboxExecutionResult, ExpectedTest, trusted_compare, reports_unknown, reports_omit, judge_tests,
  projection_of, terminal_of, is_completed,
}
use leetcode_platform.Execution.Compare.Hidden.{terminal-is_terminal}
use leetcode_platform.Execution.Checked.{continue-ok, ok-inj}
use leetcode_platform.Execution.Package.{DispatchPackage}
use leetcode_platform.Practice.Finalize.{Evaluator, finalize_submission}
use leetcode_platform.Controller.Statements.{
  reacquire, expire_lease, release_cancelled, forget_job, requeue_stale_queued,
}
use leetcode_platform.Outbox.{publish_claimed_messages}
use leetcode_platform.Controller.Flow.{Outside}
use leetcode_platform.Controller.Transactions.{
  execution_status, terminal_or_lost, requested_package, claim_package, retried_package,
  retry_package, start_reacquired, reacquired_package, reacquire_package, store_outcome,
  store_owned, persist_owned, judge_owned, persist_judged, finalize_if, same_status,
}

-- `P` is kept by every statement that the controller sends, and by what the others commit. The
-- controller retries up to `attempts`.
pub record Kept (out : Outside) (attempts : ℕ) (P : Db → Type 0) : Type 0 where
  pub others : (n : ℕ) (db : Db) → P db → P (out.others n db)
  pub claim :
      (clock : Clock) (k : ℕ) (w : String) (d : Deadline)
      → Commits P (claim_for_dispatch clock k w d)
  pub retry :
      (clock : Clock) (k n : ℕ) (w : String) (d : Deadline)
      → Commits P (retry_missing_sandbox clock k n w d attempts)
  pub start :
      (clock : Clock) (k : ℕ) (w namespace job : String)
      → Commits P (mark_running clock k w namespace job)
  pub renew :
      (clock : Clock) (k : ℕ) (w : String) (d : Deadline) → Commits P (renew_lease clock k w d)
  pub persist :
      (clock : Clock) (k : ℕ) (p : TrustedExecutionProjection)
      → is_terminal p.execution_status ≡ true
      → Commits P (persist_terminal_result clock k p)
  pub take_over :
      (clock : Clock) (k : ℕ) (s : ExecutionStatus) (n : ℕ) (w : String) (t : ℕ)
      → Commits P (reacquire clock k s n w t)
  pub defer :
      (clock : Clock) (k : ℕ) (w : String) (n : ℕ) (e : String)
      → Commits P (expire_lease clock k w n e)
  pub release : (k : ℕ) → Commits P (release_cancelled k)
  pub forget : (k : ℕ) → Commits P (forget_job k)
  pub requeue : (clock : Clock) (seconds : ℕ) → Commits P (requeue_stale_queued clock seconds)
  pub publish :
      (clock : Clock) (locked : ℕ → Bool) (limit : ℕ)
      → Commits P (publish_claimed_messages out.outbox clock locked limit)
  pub finalize :
      (ev : Evaluator) (clock : Clock) (pkg : DispatchPackage) (p : TrustedExecutionProjection)
      → Commits P (finalize_submission ev clock pkg p)

-- What `trusted_compare` returns is of a terminal status.
compared-is_terminal :
    (py : Python) (s : SandboxExecutionResult) (expected : List ExpectedTest)
    (p : TrustedExecutionProjection)
    → trusted_compare py s expected ≡ ok p
    → is_terminal p.execution_status ≡ true
unfolding trusted_compare
compared-is_terminal py s expected p h = elim (Bool-cases (reports_unknown s.tests expected)) [
  | inl unknown ↦ absurd (cc (rw unknown at h))
  | inr fine ↦
      elim (Bool-cases (is_completed (terminal_of s.status) && reports_omit s.tests expected)) [
        | inl omitted ↦ absurd (cc (rw (fine, omitted) at h))
        | inr full ↦
            let (c, _, last) =
              continue-ok (judge_tests py expected s.tests ([], 0))
                (λ c. ok (projection_of py s expected c)) p (rw (fine, full) at h) in
            rw (← ok-inj (projection_of py s expected c) p last) (terminal-is_terminal s.status)
      ]
]

module _ {P : Db → Type 0} where
  pub get_execution-Keeps : (k : ℕ) → Keeps P (get_execution k)
  unfolding get_execution
  get_execution-Keeps k = search keeps_rules

  execution_status-Commits : (k : ℕ) → Commits P (execution_status k)
  unfolding execution_status
  execution_status-Commits k = Commits-keeps _ (search (keeps_rules, get_execution-Keeps))

  terminal_or_lost-Commits : (k : ℕ) → Commits P (terminal_or_lost k)
  unfolding terminal_or_lost
  terminal_or_lost-Commits k = Commits-bind _ _ (execution_status-Commits k) (λ s. Commits-pure _)

  gets-Commits : {A : Type 0} (f : Db → A) → Commits P (gets f)
  gets-Commits f = Commits-keeps _ (search keeps_rules)

  pub requested_package-Commits :
      (k : ℕ) (c : Option ExecutionClaim) → Commits P (requested_package k c)
  unfolding requested_package
  requested_package-Commits k none =
      Commits-bind _ _ (execution_status-Commits k) (λ s. Commits-pure _)
  requested_package-Commits k (some c) =
      Commits-bind _ _ (gets-Commits _)
        (λ loaded. Commits-bind _ _ (Commits-lift loaded) (λ pkg. Commits-pure _))

  retried_package-Commits : (k : ℕ) (n : Option ℕ) → Commits P (retried_package k n)
  unfolding retried_package
  retried_package-Commits k none = Commits-pure none
  retried_package-Commits k (some n) = Commits-bind _ _ (gets-Commits _) (λ loaded.
      Commits-bind _ _ (Commits-lift loaded)
        (λ pkg. Commits-bind _ _ (Commits-keeps _ (search keeps_rules)) (λ _. Commits-pure _)))

  lock-Commits :
      (clock : Clock) (k : ℕ) (w : String) (n : ℕ) → Commits P (lock_owned_attempt clock k w n)
  unfolding lock_owned_attempt
  lock-Commits clock k w n = Commits-keeps _ (search keeps_rules)

module _ {out : Outside} {attempts : ℕ} {P : Db → Type 0} (kept : Kept out attempts P) where
  pub claim_package-Commits :
      (clock : Clock) (k : ℕ) (w : String) (until : ℕ) → Commits P (claim_package clock k w until)
  unfolding claim_package
  claim_package-Commits clock k w until =
      Commits-bind _ _ (kept.claim clock k w _) (λ c. requested_package-Commits k c)

  pub retry_package-Commits :
      (clock : Clock) (lease : ExpiredExecutionLease) (w : String) (until : ℕ)
      → Commits P (retry_package clock lease w until attempts)
  unfolding retry_package
  retry_package-Commits clock lease w until =
      Commits-bind _ _ (kept.retry clock lease.execution_id lease.attempt_count w _)
        (λ n. retried_package-Commits lease.execution_id n)

  start_reacquired-Commits :
      (clock : Clock) (k : ℕ) (w ns job : String) (starts : Bool) (pkg : DispatchPackage)
      → Commits P (start_reacquired clock k w ns job starts pkg)
  unfolding start_reacquired
  start_reacquired-Commits clock k w ns job false pkg = Commits-pure (some pkg)
  start_reacquired-Commits clock k w ns job true pkg =
      Commits-bind _ _ (kept.start clock k w ns job) (λ b. Commits-pure _)

  reacquired_package-Commits :
      (clock : Clock) (k : ℕ) (w ns job : String) (starts got : Bool)
      → Commits P (reacquired_package clock k w ns job starts got)
  unfolding reacquired_package
  reacquired_package-Commits clock k w ns job starts false = Commits-pure none
  reacquired_package-Commits clock k w ns job starts true =
      Commits-bind _ _ (gets-Commits _) (λ loaded.
        Commits-bind _ _ (Commits-lift loaded)
          (λ pkg. start_reacquired-Commits clock k w ns job starts pkg))

  pub reacquire_package-Commits :
      (clock : Clock) (lease : ExpiredExecutionLease) (missing : Bool) (w : String) (until : ℕ)
      (ns job : String)
      → Commits P (reacquire_package clock lease missing w until ns job)
  unfolding reacquire_package
  reacquire_package-Commits clock lease missing w until ns job =
      Commits-bind _ _
        (kept.take_over clock lease.execution_id lease.status lease.attempt_count w until)
        (λ got. reacquired_package-Commits clock lease.execution_id w ns job _ got)

  module _ (w : String) (clock : Clock) (pkg : DispatchPackage) where
    finalize_if-Commits :
        (b : Bool) (p : TrustedExecutionProjection) → Commits P (finalize_if out w clock pkg b p)
    finalize_if-Commits true p = kept.finalize out.evaluator clock pkg p
    finalize_if-Commits false p = Commits-pure tt

    store_outcome-Commits :
        (p : TrustedExecutionProjection)
        → is_terminal p.execution_status ≡ true
        → Commits P (store_outcome out w clock pkg p)
    unfolding store_outcome
    store_outcome-Commits p ends =
        Commits-bind _ _ (kept.persist clock pkg.execution_id p ends)
          (λ t. Commits-bind _ _ (finalize_if-Commits _ p) (λ _. Commits-pure true))

    store_owned-Commits :
        (owns : Bool) (p : TrustedExecutionProjection)
        → is_terminal p.execution_status ≡ true
        → Commits P (store_owned out w clock pkg owns p)
    unfolding store_owned
    store_owned-Commits false p ends = terminal_or_lost-Commits pkg.execution_id
    store_owned-Commits true p ends = store_outcome-Commits p ends

    pub persist_owned-Commits :
        (p : TrustedExecutionProjection)
        → is_terminal p.execution_status ≡ true
        → Commits P (persist_owned out w clock pkg p)
    unfolding persist_owned
    persist_owned-Commits p ends =
        Commits-bind _ _ (lock-Commits clock pkg.execution_id w pkg.attempt_count)
          (λ owns. store_owned-Commits owns p ends)

    judge_owned-Commits :
        (owns : Bool) (s : SandboxExecutionResult) → Commits P (judge_owned out w clock pkg owns s)
    unfolding judge_owned
    judge_owned-Commits false s = terminal_or_lost-Commits pkg.execution_id
    judge_owned-Commits true s = Commits-bind _ _ (Commits-lift _) (λ expected.
        Commits-lift_then (trusted_compare out.py s expected) _
          (λ p same. store_outcome-Commits p (compared-is_terminal out.py s expected p same)))

    pub persist_judged-Commits :
        (s : SandboxExecutionResult) → Commits P (persist_judged out w clock pkg s)
    unfolding persist_judged
    persist_judged-Commits s =
        Commits-bind _ _ (lock-Commits clock pkg.execution_id w pkg.attempt_count)
          (λ owns. judge_owned-Commits owns s)
