-- ===== src/DeadLetters/Replay.antt =====
-- apps/api/src/rigor_api/execution_dlq.py: the calls that `replay_batch` makes, whatever the queues
-- answer.
use leetcode_platform.Prelude.{
  ℕ, String, ◌≡◌, ◌⊎◌, refl, sym, ap, true, false, Option, List, [], ◌∷◌, ◌+◌, inl, inr, Bool-cases,
  Option-cases,
}
use leetcode_platform.Execution.Status.{Error}
use leetcode_platform.Execution.Store.{Db}
use leetcode_platform.Execution.Action.{Result, ok, err}
use leetcode_platform.Execution.Checked.{Result-cases}
use leetcode_platform.DeadLetters.{
  ExecutionQueueEvent, Message, DlqClassification, DlqDisposition, replay, QueueCall, Made, Answers,
  send_message, delete_message, change_message_visibility, perform, and_then, classify_message,
  is_replay, one_if, replay_one, replay_each, replay_batch,
}

-- The element is one of the list.
abbrev pub Among : {A : Type 0} → A → List A → Type 0
Among x [] = ⊥
Among x (y ∷ ys) = (x ≡ y) ⊎ Among x ys

abbrev pub returned_call : QueueCall → Made
returned_call c = record { call = c; returned = true }

abbrev pub raised_call : QueueCall → Made
raised_call c = record { call = c; returned = false }

-- If a chain of calls returned, so did its first part.
pub and_then-ok :
    {A : Type 0} (x : Result (Unit {0}) × List Made) (next : List Made → Result A × List Made)
    (a : A)
    → (and_then x next).0 ≡ ok a
    → (l : List Made) × (x ≡ (ok tt, l)) × (and_then x next ≡ next l)
and_then-ok (ok tt, l) next a h = (l, refl, refl)
and_then-ok (err e, l) next a h = cc

module _ (answers : Answers) (c : QueueCall) (log : List Made) where
  pub perform-ok : (l : List Made) → perform answers c log ≡ (ok tt, l) → l ≡ returned_call c ∷ log
  perform-ok l h = elim (Option-cases (answers log c)) [
    | inl fine ↦ sym (ap (λ x. x.1) (rw fine at h))
    | inr (e, raised) ↦ absurd (cc (ap (λ x. x.0) (rw raised at h)))
  ]

module _ (decode : String → Option ExecutionQueueEvent) (db : Db) where
  -- A call to delete stands right after the returned call that sent the body of a message which has
  -- that receipt, is one of the batch, and is classified as one to send again.
  abbrev pub IsBacked : List Message → QueueCall → List Made → Type 0
  IsBacked messages (delete_message receipt) [] = ⊥
  IsBacked messages (delete_message receipt) (before ∷ _) =
      (m : Message) × Among m messages
      × (m.receipt_handle ≡ receipt)
      × (c : DlqClassification) × (classify_message decode db m ≡ ok c)
      × (c.disposition ≡ replay)
      × (before ≡ returned_call (send_message m.body))
  IsBacked messages _ _ = Unit

  -- So stands every call to delete, whether it returned or raised.
  abbrev pub IsSafe : List Message → List Made → Type 0
  IsSafe messages [] = Unit
  IsSafe messages (x ∷ log) = IsBacked messages x.call log × IsSafe messages log

  module _ (answers : Answers) (all : List Message) where
    perform-IsSafe :
        (c : QueueCall) (log : List Made)
        → IsBacked all c log
        → IsSafe all log
        → IsSafe all (perform answers c log).1
    perform-IsSafe c log backed safe = elim (Option-cases (answers log c)) [
      | inl fine ↦ rw fine (backed, safe)
      | inr (e, raised) ↦ rw raised (backed, safe)
    ]

    and_then-IsSafe :
        {A : Type 0} (x : Result (Unit {0}) × List Made) (next : List Made → Result A × List Made)
        → IsSafe all x.1
        → ((l : List Made) → x ≡ (ok tt, l) → IsSafe all l → IsSafe all (next l).1)
        → IsSafe all (and_then x next).1
    and_then-IsSafe (ok tt, l) next safe further = further l refl safe
    and_then-IsSafe (err e, l) next safe further = safe

    pub replayed : (d : DlqDisposition) → is_replay d ≡ true → d ≡ replay
    replayed replay h = refl
    replayed _ h = cc

    replay_one-IsSafe :
        (m : Message) (c : DlqClassification) (log : List Made)
        → Among m all
        → classify_message decode db m ≡ ok c
        → IsSafe all log
        → IsSafe all (replay_one answers m (is_replay c.disposition) log).1
    unfolding replay_one
    replay_one-IsSafe m c log there is safe = elim (Bool-cases (is_replay c.disposition)) [
      | inl again ↦ rw again (
          and_then-IsSafe (perform answers (send_message m.body) log)
            (λ sent. perform answers (delete_message m.receipt_handle) sent)
            (perform-IsSafe (send_message m.body) log tt safe)
            (λ l sent safe_l.
              let same = perform-ok answers (send_message m.body) log l sent in
              perform-IsSafe (delete_message m.receipt_handle) l
                (rw same (m, there, refl, c, is, replayed c.disposition again, refl)) safe_l))
      | inr kept ↦
          rw kept (perform-IsSafe (change_message_visibility m.receipt_handle 0) log tt safe)
    ]

    pub each-err :
        (m : Message) (ms : List Message) (n : ℕ) (log : List Made) (e : Error)
        → classify_message decode db m ≡ err e
        → replay_each decode answers db (m ∷ ms) n log ≡ (err e, log)
    unfolding replay_each
    each-err m ms n log e failed = rw (failed, replay_each) refl

    pub each-ok :
        (m : Message) (ms : List Message) (n : ℕ) (log : List Made) (c : DlqClassification)
        → classify_message decode db m ≡ ok c
        → replay_each decode answers db (m ∷ ms) n log
          ≡ and_then (replay_one answers m (is_replay c.disposition) log) (λ later.
            replay_each decode answers db ms (n + one_if (is_replay c.disposition)) later)
    unfolding replay_each
    each-ok m ms n log c done = rw (done, replay_each) refl

    replay_each-IsSafe :
        (messages : List Message) (n : ℕ) (log : List Made)
        → ((m : Message) → Among m messages → Among m all)
        → IsSafe all log
        → IsSafe all (replay_each decode answers db messages n log).1
    unfolding replay_each
    replay_each-IsSafe [] n log within safe = safe
    replay_each-IsSafe (m ∷ ms) n log within safe =
        elim (Result-cases (classify_message decode db m)) [
          | inl (e, failed) ↦ rw (each-err m ms n log e failed) safe
          | inr (c, done) ↦ rw (each-ok m ms n log c done) (
              and_then-IsSafe (replay_one answers m (is_replay c.disposition) log)
                (λ later.
                  replay_each decode answers db ms (n + one_if (is_replay c.disposition)) later)
                (replay_one-IsSafe m c log (within m (inl refl)) done safe)
                (λ l _ safe_l.
                  replay_each-IsSafe ms (n + one_if (is_replay c.disposition)) l
                    (λ x there. within x (inr there)) safe_l))
        ]

  -- Whatever the queues answer, and whether the batch comes to its end or an error ends it, it asks
  -- to delete a dead letter only right after it sent the body of that message again, without an
  -- error, and only if the message is classified as one to send again.
  pub replay-IsSafe :
      (answers : Answers) (messages : List Message)
      → IsSafe messages (replay_batch decode answers db messages).1
  unfolding replay_batch
  replay-IsSafe answers messages =
      replay_each-IsSafe answers messages messages 0 [] (λ m there. there) tt
