-- ===== src/Controller/Flow/Ends.antt =====
-- apps/api/src/rigor_api/execution_controller.py: flows that come to an end, by returning or by
-- raising, and during which `time.monotonic()` does not go back.
use leetcode_platform.Prelude.{
  ℕ, ◌≡◌, ◌≤◌, refl, arith, Bool, true, false, Option, none, some, inl, inr, Bool-cases,
  if◌then◌else◌,
}
use leetcode_platform.Execution.Status.{Error}
use leetcode_platform.Execution.Store.{Db, Clock}
use leetcode_platform.Execution.Action.{Action, Result, ok, err}
use leetcode_platform.Controller.Flow.{
  Outside, SandboxHandle, Call, World, Ended, returns, raises, hangs, Flow, return, fail, of_result,
  caught, catch, receive, committed, continue, ◌>>=◌, begun, transact, call, create_sandbox,
  observe_sandbox, monotonic, sleep, utc_now, answered,
}

abbrev pub is_hung : {A : Type 0} → Ended A → Bool
is_hung (returns a) = false
is_hung (raises e) = false
is_hung hangs = true

-- How a flow ends that started at the time `t`.
pub record Over {A : Type 0} (t : ℕ) (r : Ended A × World) : Type 0 where
  pub ended : is_hung r.0 ≡ false
  pub later : t ≤ r.1.now

pub record Ends {A : Type 0} (m : Flow A) : Type 0 where
  pub at : (w : World) → Over w.now (m w)

module _ {A : Type 0} where
  pub Ends-return : (a : A) → Ends (return a)
  unfolding return
  Ends-return a = record { at = λ w. record { ended = refl; later = omega arith } }

  pub Ends-fail : (e : Error) → Ends (fail {A = A} e)
  unfolding fail
  Ends-fail e = record { at = λ w. record { ended = refl; later = omega arith } }

  pub Ends-of_result : (r : Result A) → Ends (of_result r)
  Ends-of_result (ok a) = Ends-return a
  Ends-of_result (err e) = Ends-fail e

  pub Ends-if : (b : Bool) (m n : Flow A) → Ends m → Ends n → Ends (if b then m else n)
  Ends-if true m n km kn = km
  Ends-if false m n km kn = kn

  pub later-Over : (t u : ℕ) (r : Ended A × World) → t ≤ u → Over u r → Over t r
  later-Over t u r le h = record { ended = h.ended; later = omega (arith, le, h.later) }

  caught-Over :
      (which : Error → Bool) (t : ℕ) (r : Ended A × World) (n : Flow A)
      → Ends n
      → Over t r
      → Over t (caught which r n)
  caught-Over which t (returns a, w) n kn h = h
  caught-Over which t (raises e, w) n kn h = elim (Bool-cases (which e)) [
    | inl handled ↦ rw handled (later-Over t w.now _ h.later (kn.at w))
    | inr other ↦ rw other h
  ]
  caught-Over which t (hangs, w) n kn h = cc

  pub Ends-catch : (which : Error → Bool) (m n : Flow A) → Ends m → Ends n → Ends (catch which m n)
  unfolding catch
  Ends-catch which m n km kn = record { at = λ w. caught-Over which w.now (m w) n kn (km.at w) }

module _ {A B : Type 0} where
  pub continue-Over :
      (t : ℕ) (r : Ended A × World) (f : A → Flow B)
      → ((a : A) (w : World) → t ≤ w.now → Over t (f a w))
      → Over t r
      → Over t (continue r f)
  continue-Over t (returns a, w) f kf h = kf a w h.later
  continue-Over t (raises e, w) f kf h = record { ended = refl; later = h.later }
  continue-Over t (hangs, w) f kf h = cc

  -- A flow that goes on after one that ends.
  pub bind-Over :
      (m : Flow A) (f : A → Flow B) (w : World)
      → Ends m
      → ((a : A) (w' : World) → w.now ≤ w'.now → Over w'.now (f a w'))
      → Over w.now ((m >>= f) w)
  unfolding ◌>>=◌
  bind-Over m f w km kf =
      continue-Over w.now (m w) f (λ a w' le. later-Over w.now w'.now _ le (kf a w' le)) (km.at w)

  pub Ends-bind : (m : Flow A) (f : A → Flow B) → Ends m → ((a : A) → Ends (f a)) → Ends (m >>= f)
  Ends-bind m f km kf = record { at = λ w. bind-Over m f w km (λ a w' le. (kf a).at w') }

answered-ended : {A : Type 0} (o : Option Error) (a : A) → is_hung (answered o a) ≡ false
answered-ended none a = refl
answered-ended (some e) a = refl

committed-Over : {A : Type 0} (w : World) (r : Result A × Db) → Over w.now (committed w r)
committed-Over w (ok a, db) = record { ended = refl; later = omega arith }
committed-Over w (err e, db) = record { ended = refl; later = omega arith }

module _ (out : Outside) where
  pub Ends-call : (c : Call) → Ends (call out c)
  unfolding call
  Ends-call c = record {
    at = λ w. record { ended = answered-ended (out.call_error w.tick c) tt; later = omega arith };
  }

  pub Ends-create : (c : Call) → Ends (create_sandbox out c)
  unfolding create_sandbox
  Ends-create c = record {
    at = λ w. record {
      ended = answered-ended (out.call_error w.tick c) (out.created w.tick c);
      later = omega arith;
    };
  }

  pub Ends-observe : (s : SandboxHandle) → Ends (observe_sandbox out s)
  unfolding observe_sandbox
  Ends-observe s = record {
    at = λ w. record {
      ended = answered-ended (out.call_error w.tick (Call.observe s)) (out.observed w.tick s);
      later = omega arith;
    };
  }

  pub Ends-receive : (n : ℕ) → Ends (receive out n)
  unfolding receive
  Ends-receive n = record {
    at = λ w. record {
      ended =
          answered-ended (out.call_error w.tick (Call.receive_messages n)) (out.received w.tick);
      later = omega arith;
    };
  }

  pub Ends-monotonic : Ends (monotonic out)
  unfolding monotonic
  Ends-monotonic = record { at = λ w. record { ended = refl; later = omega arith } }

  pub Ends-sleep : (ms : ℕ) → Ends (sleep out ms)
  unfolding sleep
  Ends-sleep ms = record { at = λ w. record { ended = refl; later = omega arith } }

  pub Ends-utc_now : Ends (utc_now out)
  unfolding utc_now
  Ends-utc_now = record { at = λ w. record { ended = refl; later = omega arith } }

  begun-Over :
      {A : Type 0} (o : Option Error) (body : Clock → Action A) (w : World)
      → Over w.now (begun out o body w)
  begun-Over (some e) body w = record { ended = refl; later = omega arith }
  begun-Over none body w = committed-Over w _

  pub Ends-transact : {A : Type 0} (body : Clock → Action A) → Ends (transact out body)
  unfolding transact
  Ends-transact body = record { at = λ w. begun-Over (out.database_error w.tick) body w }

pub ruleset ends_rules = (
  Ends-return, Ends-fail, Ends-of_result, Ends-if, Ends-catch, Ends-bind, Ends-call, Ends-create,
  Ends-observe, Ends-receive, Ends-monotonic, Ends-sleep, Ends-utc_now, Ends-transact,
)
