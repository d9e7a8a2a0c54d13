-- ===== src/History/Logged.antt =====
-- The event log over any history.
use leetcode_platform.Prelude.{ℕ, refl}
use leetcode_platform.Execution.Store.{Db}
use leetcode_platform.Execution.Create.{Digest}
use leetcode_platform.Execution.Action.Keeps.{Keeps-transaction}
use leetcode_platform.EventLog.{IsLogged}
use leetcode_platform.EventLog.Tables.{IsLogged-same}
use leetcode_platform.EventLog.Claims.{
  claim_for_dispatch-IsLogged, retry_missing_sandbox-IsLogged, mark_running-IsLogged,
  renew_lease-IsLogged,
}
use leetcode_platform.EventLog.Create.{create_queued-IsLogged}
use leetcode_platform.EventLog.Repository.{cancel-IsLogged, persist_terminal_result-IsLogged}
use leetcode_platform.EventLog.Controller.{
  reacquire-IsLogged, expire_lease-IsLogged, release_cancelled-IsLogged, forget_job-IsLogged,
}
use leetcode_platform.History.{
  Step, Reach, create, claim, retry, start, renew, cancel_step, persist, take_over, defer, release,
  forget, outbox_work, practice_work, here, next,
}

module _ {digest : Digest} {limit : ℕ} where
  mutual
    Step-IsLogged : {a b : Db} → Step digest limit a b → IsLogged a → IsLogged b
    Step-IsLogged (create {db = db} clock p q k o r) h =
        (create_queued-IsLogged digest clock p _ (λ x hx. Reach-IsLogged r h) q k o).at db h
    Step-IsLogged (claim {db = db} clock k w d) h =
        (Keeps-transaction _ (claim_for_dispatch-IsLogged clock k w d)).at db h
    Step-IsLogged (retry {db = db} clock k n w d m below) h =
        (Keeps-transaction _ (retry_missing_sandbox-IsLogged clock k n w d m)).at db h
    Step-IsLogged (start {db = db} clock k w ns job) h =
        (Keeps-transaction _ (mark_running-IsLogged clock k w ns job)).at db h
    Step-IsLogged (renew {db = db} clock k w d) h =
        (Keeps-transaction _ (renew_lease-IsLogged clock k w d)).at db h
    Step-IsLogged (cancel_step {db = db} clock k trace o) h =
        (Keeps-transaction _ (cancel-IsLogged clock k trace o)).at db h
    Step-IsLogged (persist {db = db} clock k p ends) h =
        (Keeps-transaction _ (persist_terminal_result-IsLogged clock k p)).at db h
    Step-IsLogged (take_over {db = db} clock k s n w t) h =
        (Keeps-transaction _ (reacquire-IsLogged clock k s n w t)).at db h
    Step-IsLogged (defer {db = db} clock k w n e) h =
        (Keeps-transaction _ (expire_lease-IsLogged clock k w n e)).at db h
    Step-IsLogged (release {db = db} k) h =
        (Keeps-transaction _ (release_cancelled-IsLogged k)).at db h
    Step-IsLogged (forget {db = db} k) h = (Keeps-transaction _ (forget_job-IsLogged k)).at db h
    Step-IsLogged (outbox_work {db = db} rows) h = IsLogged-same db _ refl refl h
    Step-IsLogged (practice_work {db = db} d) h = IsLogged-same db _ refl refl h

    Reach-IsLogged : {a b : Db} → Reach digest limit a b → IsLogged a → IsLogged b
    Reach-IsLogged here h = h
    Reach-IsLogged (next r s) h = Step-IsLogged s (Reach-IsLogged r h)

  -- If the log agrees with the requests, it does so after any sequence of transactions: for each
  -- execution the events are numbered 0, 1, 2, … without a gap in the order of their insertion,
  -- each is a legal transition from the one before, or of the state DISPATCHING after DISPATCHING or
  -- RUNNING (a new attempt, which the table of legal transitions does not list), the first is of the
  -- queue, and the last is the state of the request (there are none for an execution that is not
  -- there).
  pub log_agrees : (a b : Db) → Reach digest limit a b → IsLogged a → IsLogged b
  log_agrees a b r h = Reach-IsLogged r h
