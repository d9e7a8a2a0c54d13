-- ===== src/Lib.antt =====
-- rigor: the execution pipeline of the interview platform (apps/api/src/rigor_api).
--
-- A candidate's program is admitted by `ExecutionRepository.create_queued`, which writes a request,
-- its payload, a first event and a queue event in the outbox. The outbox is published to a queue; a
-- controller takes an execution by a compare-and-set (`claim_for_dispatch`), starts a sandbox and
-- marks it running, renews its lease, and stores the result that it trusts
-- (`persist_terminal_result`). Leases that expired are taken over or retried, a candidate may
-- cancel, and each change of state leaves an event in `execution_events`.
--
-- The tables are one record of lists in the order of insertion (Execution/Store); an SQL statement
-- is a function on it, and a repository method an action that returns a value or raises
-- (Execution/Action), with `transaction` for `engine.begin()`. Times are numbers on the clock of
-- the database or of the process, both arguments. UUIDs are numbers. `sha256` and `json.dumps` are
-- parameters, as are the transport of the queue and the rows that SKIP LOCKED hides. A flow of the
-- controller runs in a world of the tables, a monotonic clock in milliseconds and the calls made so
-- far; the record `Outside` gives what the sandbox, the queue and the clocks answer at each tick, and
-- what others commit before each transaction. The one loop with fuel is the watching of a sandbox:
-- it gets a pass for each millisecond until its deadline, which is enough where it waits at least
-- one in each.
--
--   Prelude     shared names, Boolean tests, tables with a primary key
--   Json        JSON values
--   Execution   Status, Store, Create, Repository (execution_domain.py), Claims
--               (execution_claims.py), Package (what a sandbox gets), Runner (what it reports),
--               Expected (the trusted tests), Judge and Compare, Persist
--               (execution_results.py), Columns (which values the columns of a result take), and
--               the relations that every statement respects: Evolution, Since, Sound
--   Outbox      outbox.py and execution_publisher.py
--   DeadLetters execution_dlq.py; Events: execution_events.py, with pydantic's fields as parameters
--   Tutor       tutor_domain.py: when the tutor may speak, and what it may see
--   Practice    practice.py (Sessions, Questions), what execution_api.py does to a session
--               (Queueing), and execution_submission.py (Finalize); History is any sequence of calls
--               on the practice sessions, with what others commit between the statements of a call
--   Controller  execution_controller.py: Statements and Transactions, and the flows over them
--               (Attempts, Monitor, Messages, Reconciliation, Service) in the monad of Flow
--   EventLog    the table `execution_events`
--   History     every transaction as a step, and what any sequence of steps leaves standing
--   Examples    concrete tables at which the theorems are applied
--
-- Not modelled: the HTTP routes, the adapters to Kubernetes, Vercel and SQS, logging, metrics, and
-- the access policies of the database; the scores that `_evaluation` computes, which are a
-- parameter; and the checks of the question, the key and the queue before a run or a submission is
-- queued, which are an argument of Queueing. A number of the clock stands for a timestamp, so arithmetic of intervals counts in
-- whole seconds. What Python does with a JSON value (equality, `str`, `float`, `json.dumps`,
-- `json.loads`) is the record `Python`, a parameter.
pub mod Prelude
pub mod Json
pub mod Execution
pub mod Controller
pub mod Outbox
pub mod DeadLetters
pub mod Practice
pub mod Tutor
pub mod History
pub mod EventLog
pub mod Examples
