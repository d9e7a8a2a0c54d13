-- ===== src/Controller/Finished/Service.antt =====
-- apps/api/src/rigor_api/execution_controller.py: no answer from outside stops the controller.
use leetcode_platform.Prelude.{
  ℕ, zero, suc, ◌≡◌, ◌≤◌, refl, Bool, true, false, Option, none, some, List, [], ◌∷◌,
}
use leetcode_platform.DeadLetters.{Message}
use leetcode_platform.Controller.Flow.{
  Outside, World, Ended, returns, raises, hangs, Flow, return, caught, catch, catch_any, continue,
  ◌>>=◌, sleep,
}
use leetcode_platform.Controller.Flow.Ends.{
  Ends, is_hung, Ends-bind, Ends-catch, Ends-return, Ends-monotonic, Ends-if, ends_rules,
}
use leetcode_platform.Controller.Finished.Flows.{process_message-Ends, reconcile_once-Ends}
use leetcode_platform.Controller.Attempts.{ExecutionControllerSettings}
use leetcode_platform.Controller.Service.{
  publish_outbox_once, reconcile_at, publish_and_reconcile, process_each, receive_and_process,
  begin_pass, pause_after_error, end_pass, iteration, run_for,
}

abbrev pub has_returned : {A : Type 0} → Ended A → Bool
has_returned (returns a) = true
has_returned (raises e) = false
has_returned hangs = false

-- A flow that neither raises nor hangs.
record Returns {A : Type 0} (m : Flow A) : Type 0 where
  pub at : (w : World) → has_returned (m w).0 ≡ true

module _ {A : Type 0} where
  Returns-return : (a : A) → Returns (return a)
  unfolding return
  Returns-return a = record { at = λ w. refl }

  caught-returned :
      (r : Ended A × World) (h : Flow A)
      → is_hung r.0 ≡ false
      → Returns h
      → has_returned (caught (λ _. true) r h).0 ≡ true
  caught-returned (returns a, w) h ended kh = refl
  caught-returned (raises e, w) h ended kh = kh.at w
  caught-returned (hangs, w) h ended kh = cc

  -- `except Exception` stops every exception of a flow that ends.
  Returns-catch : (m h : Flow A) → Ends m → Returns h → Returns (catch_any m h)
  unfolding catch
  Returns-catch m h km kh = record { at = λ w. caught-returned (m w) h (km.at w).ended kh }

module _ {A B : Type 0} where
  continue-returned :
      (r : Ended A × World) (f : A → Flow B)
      → has_returned r.0 ≡ true
      → ((a : A) → Returns (f a))
      → has_returned (continue r f).0 ≡ true
  continue-returned (returns a, w) f h kf = (kf a).at w
  continue-returned (raises e, w) f h kf = cc
  continue-returned (hangs, w) f h kf = cc

  Returns-bind :
      (m : Flow A) (f : A → Flow B) → Returns m → ((a : A) → Returns (f a)) → Returns (m >>= f)
  unfolding ◌>>=◌
  Returns-bind m f km kf = record { at = λ w. continue-returned (m w) f (km.at w) kf }

module _ (out : Outside) (settings : ExecutionControllerSettings) where
  pause-Returns : {A : Type 0} (a : A) → Returns (pause_after_error out settings a)
  unfolding pause_after_error sleep ◌>>=◌ return
  pause-Returns a = record { at = λ w. refl }

  publish-Ends : Ends (publish_outbox_once out settings)
  unfolding publish_outbox_once
  publish-Ends = search ends_rules

  module _ (poll : 1 ≤ settings.sandbox_poll_ms) where
    reconcile_at-Ends : (now : ℕ) → Ends (reconcile_at out settings now)
    unfolding reconcile_at
    reconcile_at-Ends now = Ends-bind _ _ (reconcile_once-Ends out settings) (λ _. Ends-return now)

    begin_pass-Ends : (last : ℕ) → Ends (begin_pass out settings last)
    unfolding begin_pass publish_and_reconcile
    begin_pass-Ends last =
        Ends-bind _ _
          (Ends-bind _ _ publish-Ends (λ _.
            Ends-bind _ _ (Ends-monotonic out)
              (λ now. Ends-if _ _ _ (reconcile_at-Ends now) (Ends-return last))))
          (λ done. Ends-return (some done))

    process_each-Ends : (messages : List Message) → Ends (process_each out settings messages)
    unfolding process_each
    process_each-Ends [] = Ends-return tt
    process_each-Ends (message ∷ messages) =
        Ends-bind _ _
          (Ends-catch _ _ _ (process_message-Ends out settings poll message) (Ends-return false))
          (λ _. process_each-Ends messages)

    receive_and_process-Ends : Ends (receive_and_process out settings)
    unfolding receive_and_process
    receive_and_process-Ends = search (ends_rules, process_each-Ends)

    end_pass-Returns : (last : ℕ) (o : Option ℕ) → Returns (end_pass out settings last o)
    unfolding end_pass
    end_pass-Returns last none = Returns-return last
    end_pass-Returns last (some done) =
        Returns-bind _ _ (Returns-catch _ _ receive_and_process-Ends (pause-Returns tt))
          (λ _. Returns-return done)

    iteration-Returns : (last : ℕ) → Returns (iteration out settings last)
    unfolding iteration
    iteration-Returns last =
        Returns-bind _ _ (Returns-catch _ _ (begin_pass-Ends last) (pause-Returns none))
          (λ done. end_pass-Returns last done)

    run_for-Returns : (passes last : ℕ) → Returns (run_for out settings passes last)
    unfolding run_for
    run_for-Returns zero last = Returns-return last
    run_for-Returns (suc n) last =
        Returns-bind _ _ (iteration-Returns last) (λ done. run_for-Returns n done)

    -- Where the watching of a sandbox waits at least a millisecond between two looks, every pass
    -- over the controller's loop comes to its end and none lets an exception through, whatever the
    -- sandbox, the queue and the database answer or raise.
    pub controller_survives :
        (passes last : ℕ) (w : World) → has_returned (run_for out settings passes last w).0 ≡ true
    controller_survives passes last w = (run_for-Returns passes last).at w
