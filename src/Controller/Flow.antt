-- ===== src/Controller/Flow.antt =====
-- apps/api/src/rigor_api/execution_controller.py: the outside of the controller. A flow is code that
-- calls the sandbox and the queue, reads the clock, and commits transactions, between which other
-- workers and candidates commit theirs.
pub mod Keeps
pub mod Ends
pub mod Yields
use leetcode_platform.Prelude.{
  ℕ, suc, String, Bool, true, false, Option, none, some, List, [], ◌∷◌, ◌++◌, ◌+◌, if◌then◌else◌,
}
use leetcode_platform.Json.{Fields, Json, ℤ}
use leetcode_platform.Execution.Status.{Error, trusted_result_error}
use leetcode_platform.Execution.Store.{Db, Clock}
use leetcode_platform.Execution.Action.{Action, Result, ok, err, transaction}
use leetcode_platform.Execution.Judge.{Python}
use leetcode_platform.Practice.Finalize.{Evaluator}
use leetcode_platform.DeadLetters.{ExecutionQueueEvent, Message}
use leetcode_platform.Outbox.{Outside as OutboxOutside}

pub record SandboxHandle : Type 0 where
  pub execution_id : ℕ
  pub namespace : String
  pub job_name : String
  pub input_secret_name : String

pub record SandboxObservation : Type 0 where
  pub state : String
  pub logs : Option String
  pub reason : Option String

-- What the controller asks of the sandbox and the queue.
pub data Call : Type 0 where
  create_execution : String → ℕ → Fields → String → Call
  observe cleanup : SandboxHandle → Call
  change_message_visibility : String → ℕ → Call
  delete_message : String → Call
  receive_messages : ℕ → Call

-- How the outside answers at each tick, in milliseconds for what passes; none is no error.
-- `locked` are the rows that SKIP LOCKED leaves out at a time, `content` is the structured content of a
-- question's version, `parse_int` is `int` on a text, and `decode` is `json.loads` with
-- `parse_execution_queue_event`.
pub record Outside : Type 0 where
  pub clock : ℕ → Clock
  pub elapsed : ℕ → ℕ
  pub others : ℕ → Db → Db
  pub database_error : ℕ → Option Error
  pub call_error : ℕ → Call → Option Error
  pub created : ℕ → Call → SandboxHandle
  pub observed : ℕ → SandboxHandle → SandboxObservation
  pub received : ℕ → List Message
  pub locked : ℕ → ℕ → Bool
  pub namespace : String
  pub content : ℕ → Json
  pub decode : String → Option ExecutionQueueEvent
  pub parse_int : String → Option ℤ
  pub py : Python
  pub evaluator : Evaluator
  pub outbox : OutboxOutside

-- `now` is `time.monotonic()` in milliseconds, and `calls` are the calls made so far.
pub record World : Type 0 where
  pub db : Db
  pub calls : List Call
  pub tick : ℕ
  pub now : ℕ

-- A loop whose fuel is out `hangs`.
pub data Ended (A : Type 0) : Type 0 where
  returns : A → Ended A
  raises : Error → Ended A
  hangs : Ended A

abbrev pub Flow : Type 0 → Type 0
Flow A = World → Ended A × World

abbrev pub is_trusted_result_error : Error → Bool
is_trusted_result_error trusted_result_error = true
is_trusted_result_error _ = false

module _ {A : Type 0} where
  unfoldable pub return : A → Flow A
  return a w = (returns a, w)

  unfoldable pub fail : Error → Flow A
  fail e w = (raises e, w)

  unfoldable pub hang : Flow A
  hang w = (hangs, w)

  abbrev pub of_result : Result A → Flow A
  of_result (ok a) = return a
  of_result (err e) = fail e

  abbrev pub caught : (Error → Bool) → Ended A × World → Flow A → Ended A × World
  caught which (returns a, w) h = (returns a, w)
  caught which (raises e, w) h = if which e then h w else (raises e, w)
  caught which (hangs, w) h = (hangs, w)

  -- `try: m`, where `h` is the `except` block for some of the exceptions.
  unfoldable pub catch : (Error → Bool) → Flow A → Flow A → Flow A
  catch which m h w = caught which (m w) h

  -- `except Exception`
  abbrev pub catch_any : Flow A → Flow A → Flow A
  catch_any m h = catch (λ _. true) m h

  -- `except TrustedResultError`
  abbrev pub catch_trusted : Flow A → Flow A → Flow A
  catch_trusted m h = catch is_trusted_result_error m h

  abbrev pub committed : World → Result A × Db → Ended A × World
  committed w (ok a, db) = (returns a, record w { db = db; tick = suc w.tick })
  committed w (err e, db) = (raises e, record w { db = db; tick = suc w.tick })

module _ {A B : Type 0} where
  abbrev pub continue : Ended A × World → (A → Flow B) → Ended B × World
  continue (returns a, w) f = f a w
  continue (raises e, w) f = (raises e, w)
  continue (hangs, w) f = (hangs, w)

  infixl 5 ◌>>=◌ ◌>>◌
  unfoldable pub ◌>>=◌ : Flow A → (A → Flow B) → Flow B
  ◌>>=◌ m f w = continue (m w) f

  abbrev pub ◌>>◌ : Flow A → Flow B → Flow B
  m >> k = m >>= λ _. k

abbrev pub answered : {A : Type 0} → Option Error → A → Ended A
answered none a = returns a
answered (some e) a = raises e

module _ (out : Outside) where
  abbrev pub begun : {A : Type 0} → Option Error → (Clock → Action A) → World → Ended A × World
  begun (some e) body w = (raises e, record w { db = out.others w.tick w.db; tick = suc w.tick })
  begun none body w = committed w (transaction (body (out.clock w.tick)) (out.others w.tick w.db))

  -- `with self.engine.begin() as connection`
  unfoldable pub transact : {A : Type 0} → (Clock → Action A) → Flow A
  transact body w = begun (out.database_error w.tick) body w

  abbrev pub called : Call → World → World
  called c w = record w { calls = w.calls ++ c ∷ []; tick = suc w.tick }

  -- A call of which only the errors matter.
  unfoldable pub call : Call → Flow (Unit {0})
  call c w = (answered (out.call_error w.tick c) tt, called c w)

  unfoldable pub create_sandbox : Call → Flow SandboxHandle
  create_sandbox c w = (answered (out.call_error w.tick c) (out.created w.tick c), called c w)

  unfoldable pub observe_sandbox : SandboxHandle → Flow SandboxObservation
  observe_sandbox h w =
      (answered (out.call_error w.tick (observe h)) (out.observed w.tick h), called (observe h) w)

  unfoldable pub receive : ℕ → Flow (List Message)
  receive maximum w =
      let c = receive_messages maximum in
      (answered (out.call_error w.tick c) (out.received w.tick), called c w)

  abbrev pub passed : ℕ → World → World
  passed ms w = record w { now = w.now + ms; tick = suc w.tick }

  -- `time.monotonic()`
  unfoldable pub monotonic : Flow ℕ
  monotonic w = (returns (w.now + out.elapsed w.tick), passed (out.elapsed w.tick) w)

  -- `time.sleep` lasts at least as long as it is asked to.
  unfoldable pub sleep : ℕ → Flow (Unit {0})
  sleep ms w = (returns tt, passed (ms + out.elapsed w.tick) w)

  -- `datetime.now(UTC)`
  unfoldable pub utc_now : Flow ℕ
  utc_now w = (returns (out.clock w.tick).utc_now, record w { tick = suc w.tick })
