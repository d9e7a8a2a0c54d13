-- ===== src/History.antt =====
-- Every transaction of the pipeline as a step on the tables, and what any interleaving of them,
-- by any number of workers and candidates, leaves standing.
pub mod Controlled
pub mod Acknowledged
pub mod Terminal
pub mod Bounded
pub mod Created
pub mod Logged
pub mod Claims
use leetcode_platform.Prelude.{ℕ, String, Option, List, ◌≤◌, ◌≡◌, true}
use leetcode_platform.Execution.Status.{ExecutionStatus, is_terminal}
use leetcode_platform.Execution.Store.{Db, Clock, OutboxRow}
use leetcode_platform.Execution.Create.{Digest, Principal, CreateRequest, create_queued}
use leetcode_platform.Execution.Repository.{cancel}
use leetcode_platform.Execution.Claims.{
  Deadline, claim_for_dispatch, retry_missing_sandbox, mark_running, renew_lease,
}
use leetcode_platform.Execution.Persist.{TrustedExecutionProjection, persist_terminal_result}
use leetcode_platform.Execution.Action.{transaction}
use leetcode_platform.Practice.Tables.{PracticeDb}
use leetcode_platform.Controller.Statements.{reacquire, expire_lease, release_cancelled, forget_job}

-- `limit` is the largest `max_attempts` of any controller; every projection that is persisted is of
-- a terminal status. A step is one committed or rolled-back transaction. `create` reads, lets other transactions
-- commit, and then inserts; its own errors come before it has written anything. The outbox
-- publisher, its retries and the requeueing write the outbox alone; the practice sessions and the
-- submissions stand in tables of their own.
mutual
  pub data Step (digest : Digest) (limit : ℕ) : Db → Db → Type 0 where
    create :
        {db other : Db} (clock : Clock) (p : Principal) (q : CreateRequest) (k o : ℕ)
        → Reach digest limit db other
        → Step digest limit db (create_queued digest clock p (λ _. other) q k o db).1
    claim :
        {db : Db} (clock : Clock) (k : ℕ) (w : String) (d : Deadline)
        → Step digest limit db (transaction (claim_for_dispatch clock k w d) db).1
    retry :
        {db : Db} (clock : Clock) (k n : ℕ) (w : String) (d : Deadline) (m : ℕ)
        → m ≤ limit
        → Step digest limit db (transaction (retry_missing_sandbox clock k n w d m) db).1
    start :
        {db : Db} (clock : Clock) (k : ℕ) (w ns job : String)
        → Step digest limit db (transaction (mark_running clock k w ns job) db).1
    renew :
        {db : Db} (clock : Clock) (k : ℕ) (w : String) (d : Deadline)
        → Step digest limit db (transaction (renew_lease clock k w d) db).1
    cancel_step :
        {db : Db} (clock : Clock) (k : ℕ) (trace : String) (o : ℕ)
        → Step digest limit db (transaction (cancel clock k trace o) db).1
    persist :
        {db : Db} (clock : Clock) (k : ℕ) (p : TrustedExecutionProjection)
        → is_terminal p.execution_status ≡ true
        → Step digest limit db (transaction (persist_terminal_result clock k p) db).1
    take_over :
        {db : Db} (clock : Clock) (k : ℕ) (s : ExecutionStatus) (n : ℕ) (w : String) (t : ℕ)
        → Step digest limit db (transaction (reacquire clock k s n w t) db).1
    defer :
        {db : Db} (clock : Clock) (k : ℕ) (w : String) (n : ℕ) (e : String)
        → Step digest limit db (transaction (expire_lease clock k w n e) db).1
    release : {db : Db} (k : ℕ) → Step digest limit db (transaction (release_cancelled k) db).1
    forget : {db : Db} (k : ℕ) → Step digest limit db (transaction (forget_job k) db).1
    outbox_work :
        {db : Db} (rows : List OutboxRow) → Step digest limit db (record db { outbox = rows })
    practice_work : {db : Db} (d : PracticeDb) → Step digest limit db (record db { practice = d })

  pub data Reach (digest : Digest) (limit : ℕ) : Db → Db → Type 0 where
    here : {db : Db} → Reach digest limit db db
    next : {a b c : Db} → Reach digest limit a b → Step digest limit b c → Reach digest limit a c
