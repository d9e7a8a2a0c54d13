-- ===== src/Controller/Flow/Keeps.antt =====
-- apps/api/src/rigor_api/execution_controller.py: a property of the tables that holds through a
-- flow, whether it returns, raises or hangs.
use leetcode_platform.Prelude.{
  ℕ, Bool, true, false, Option, none, some, inl, inr, Bool-cases, if◌then◌else◌,
}
use leetcode_platform.Execution.Status.{Error}
use leetcode_platform.Execution.Store.{Db, Clock}
use leetcode_platform.Execution.Action.{Action, Result, ok, err, transaction}
use leetcode_platform.Execution.Action.Commits.{Commits, Commits-transaction}
use leetcode_platform.Controller.Flow.{
  Outside, SandboxHandle, Call, World, Ended, returns, raises, hangs, Flow, return, fail, hang,
  of_result, caught, catch, receive, committed, continue, ◌>>=◌, begun, transact, call,
  create_sandbox, observe_sandbox, monotonic, sleep, utc_now,
}

pub record FlowKeeps {A : Type 0} (P : Db → Type 0) (m : Flow A) : Type 0 where
  pub at : (w : World) → P w.db → P (m w).1.db

committed-db :
    {A : Type 0} (P : Db → Type 0) (w : World) (r : Result A × Db) → P r.1 → P (committed w r).1.db
committed-db P w (ok a, db) h = h
committed-db P w (err e, db) h = h

module _ {A : Type 0} {P : Db → Type 0} where
  pub FlowKeeps-return : (a : A) → FlowKeeps P (return a)
  unfolding return
  FlowKeeps-return a = record { at = λ w h. h }

  pub FlowKeeps-fail : (e : Error) → FlowKeeps P (fail {A = A} e)
  unfolding fail
  FlowKeeps-fail e = record { at = λ w h. h }

  pub FlowKeeps-hang : FlowKeeps P (hang {A = A})
  unfolding hang
  FlowKeeps-hang = record { at = λ w h. h }

  pub FlowKeeps-of_result : (r : Result A) → FlowKeeps P (of_result r)
  FlowKeeps-of_result (ok a) = FlowKeeps-return a
  FlowKeeps-of_result (err e) = FlowKeeps-fail e

  pub FlowKeeps-if :
      (b : Bool) (m n : Flow A) → FlowKeeps P m → FlowKeeps P n → FlowKeeps P (if b then m else n)
  FlowKeeps-if true m n km kn = km
  FlowKeeps-if false m n km kn = kn

  caught-db :
      (which : Error → Bool) (r : Ended A × World) (n : Flow A)
      → FlowKeeps P n
      → P r.1.db
      → P (caught which r n).1.db
  caught-db which (returns a, w) n kn h = h
  caught-db which (raises e, w) n kn h = elim (Bool-cases (which e)) [
    | inl handled ↦ rw handled (kn.at w h)
    | inr other ↦ rw other h
  ]
  caught-db which (hangs, w) n kn h = h

  pub FlowKeeps-catch :
      (which : Error → Bool) (m n : Flow A)
      → FlowKeeps P m
      → FlowKeeps P n
      → FlowKeeps P (catch which m n)
  unfolding catch
  FlowKeeps-catch which m n km kn = record { at = λ w h. caught-db which (m w) n kn (km.at w h) }

module _ {A B : Type 0} {P : Db → Type 0} where
  continue-db :
      (r : Ended A × World) (f : A → Flow B)
      → ((a : A) → FlowKeeps P (f a))
      → P r.1.db
      → P (continue r f).1.db
  continue-db (returns a, w) f kf h = (kf a).at w h
  continue-db (raises e, w) f kf h = h
  continue-db (hangs, w) f kf h = h

  pub FlowKeeps-bind :
      (m : Flow A) (f : A → Flow B)
      → FlowKeeps P m
      → ((a : A) → FlowKeeps P (f a))
      → FlowKeeps P (m >>= f)
  unfolding ◌>>=◌
  FlowKeeps-bind m f km kf = record { at = λ w h. continue-db (m w) f kf (km.at w h) }

module _ {P : Db → Type 0} (out : Outside) where
  pub FlowKeeps-call : (c : Call) → FlowKeeps P (call out c)
  unfolding call
  FlowKeeps-call c = record { at = λ w h. h }

  pub FlowKeeps-create : (c : Call) → FlowKeeps P (create_sandbox out c)
  unfolding create_sandbox
  FlowKeeps-create c = record { at = λ w h. h }

  pub FlowKeeps-observe : (s : SandboxHandle) → FlowKeeps P (observe_sandbox out s)
  unfolding observe_sandbox
  FlowKeeps-observe s = record { at = λ w h. h }

  pub FlowKeeps-receive : (n : ℕ) → FlowKeeps P (receive out n)
  unfolding receive
  FlowKeeps-receive n = record { at = λ w h. h }

  pub FlowKeeps-monotonic : FlowKeeps P (monotonic out)
  unfolding monotonic
  FlowKeeps-monotonic = record { at = λ w h. h }

  pub FlowKeeps-sleep : (ms : ℕ) → FlowKeeps P (sleep out ms)
  unfolding sleep
  FlowKeeps-sleep ms = record { at = λ w h. h }

  pub FlowKeeps-utc_now : FlowKeeps P (utc_now out)
  unfolding utc_now
  FlowKeeps-utc_now = record { at = λ w h. h }

  module _ {A : Type 0} (others : (n : ℕ) (db : Db) → P db → P (out.others n db)) where
    begun-db :
        (e : Option Error) (body : Clock → Action A) (w : World)
        → ((clock : Clock) → Commits P (body clock))
        → P w.db
        → P (begun out e body w).1.db
    begun-db (some e) body w kb h = others w.tick w.db h
    begun-db none body w kb h =
        committed-db P w (transaction (body (out.clock w.tick)) (out.others w.tick w.db)) (
          Commits-transaction (body (out.clock w.tick)) (kb (out.clock w.tick)) _
            (others w.tick w.db h))

    pub FlowKeeps-transact :
        (body : Clock → Action A)
        → ((clock : Clock) → Commits P (body clock))
        → FlowKeeps P (transact out body)
    unfolding transact
    FlowKeeps-transact body kb = record {
      at = λ w h. begun-db (out.database_error w.tick) body w kb h;
    }

pub ruleset flow_rules = (
  FlowKeeps-return, FlowKeeps-fail, FlowKeeps-of_result, FlowKeeps-if, FlowKeeps-catch,
  FlowKeeps-bind, FlowKeeps-call, FlowKeeps-create, FlowKeeps-observe, FlowKeeps-receive,
  FlowKeeps-monotonic, FlowKeeps-sleep, FlowKeeps-utc_now,
)
