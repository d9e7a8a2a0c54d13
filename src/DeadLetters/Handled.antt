-- ===== src/DeadLetters/Handled.antt =====
-- apps/api/src/rigor_api/execution_dlq.py: what a `replay_batch` that comes to its end has done with
-- each message.
use leetcode_platform.Prelude.{
  suc, if◌then◌else◌, ℕ, String, ◌≡◌, ◌≢◌, ◌⊎◌, refl, sym, ap, ◌∙◌, Bool, true, false, Option, List,
  [], ◌∷◌, ◌+◌, arith, inl, inr, Bool-cases, length, count_of, All,
}
use leetcode_platform.Execution.Store.{Db}
use leetcode_platform.Execution.Action.{Result, ok, err}
use leetcode_platform.Execution.Checked.{Result-cases}
use leetcode_platform.DeadLetters.{
  ExecutionQueueEvent, Message, DlqClassification, DlqDisposition, replay, Made, Answers,
  send_message, delete_message, change_message_visibility, perform, classify_message, is_replay,
  one_if, replay_one, replay_each, replay_batch,
}
use leetcode_platform.DeadLetters.Replay.{
  Among, returned_call, and_then-ok, perform-ok, replayed, each-err, each-ok,
}

not_replay : (d : DlqDisposition) → is_replay d ≡ false → d ≢ replay
not_replay replay h e = cc
not_replay _ h e = cc

-- The calls after the turn of a message that came to its end, the latest first.
abbrev grown : Message → Bool → List Made → List Made
grown m true log =
    returned_call (delete_message m.receipt_handle) ∷ returned_call (send_message m.body) ∷ log
grown m false log = returned_call (change_message_visibility m.receipt_handle 0) ∷ log

abbrev pub sends_again : Result DlqClassification → Bool
sends_again (ok c) = is_replay c.disposition
sends_again (err _) = false

count_step :
    (b : Bool) (n k rest : ℕ) → k ≡ (n + one_if b) + rest → k ≡ n + (if b then suc rest else rest)
count_step true n k rest h = omega (arith, h)
count_step false n k rest h = omega (arith, h)

module _ (decode : String → Option ExecutionQueueEvent) (answers : Answers) (db : Db) where
  replay_one-ok :
      (m : Message) (again : Bool) (log l : List Made)
      → replay_one answers m again log ≡ (ok tt, l)
      → l ≡ grown m again log
  unfolding replay_one
  replay_one-ok m true log l h =
      let (sent, first, on) =
        and_then-ok (perform answers (send_message m.body) log)
          (λ x. perform answers (delete_message m.receipt_handle) x) tt (ap (λ x. x.0) h) in
      perform-ok answers (delete_message m.receipt_handle) sent l (sym on ∙ h)
      ∙ ap (λ x. returned_call (delete_message m.receipt_handle) ∷ x)
          (perform-ok answers (send_message m.body) log sent first)
  replay_one-ok m false log l h =
      perform-ok answers (change_message_visibility m.receipt_handle 0) log l h

  -- What is done with one message: sent again and deleted, or made visible at once.
  abbrev pub IsHandled : List Made → Message → Type 0
  IsHandled log m =
      (c : DlqClassification) × (classify_message decode db m ≡ ok c)
      × (((c.disposition ≡ replay)
            × Among (returned_call (send_message m.body)) log
            × Among (returned_call (delete_message m.receipt_handle)) log)
          ⊎ ((c.disposition ≢ replay)
              × Among (returned_call (change_message_visibility m.receipt_handle 0)) log))

  grown-old :
      (m : Message) (again : Bool) (log : List Made) (x : Made)
      → Among x log
      → Among x (grown m again log)
  grown-old m true log x h = inr (inr h)
  grown-old m false log x h = inr h

  grown-IsHandled :
      (m : Message) (c : DlqClassification) (log final : List Made)
      → classify_message decode db m ≡ ok c
      → ((x : Made) → Among x (grown m (is_replay c.disposition) log) → Among x final)
      → IsHandled final m
  grown-IsHandled m c log final done keeps = elim (Bool-cases (is_replay c.disposition)) [
    | inl again ↦
        let kept = rw again at keeps in
        (
          c,
          done,
          inl (
            replayed decode db answers [] c.disposition again,
            kept (returned_call (send_message m.body)) (inr (inl refl)),
            kept (returned_call (delete_message m.receipt_handle)) (inl refl),
          ),
        )
    | inr other ↦
        let kept = rw other at keeps in
        (
          c,
          done,
          inr (
            not_replay c.disposition other,
            kept (returned_call (change_message_visibility m.receipt_handle 0)) (inl refl),
          ),
        )
  ]

  length-grown :
      (m : Message) (again : Bool) (log : List Made)
      → length (grown m again log) ≡ (length log + 1) + one_if again
  length-grown m true log = omega arith
  length-grown m false log = omega arith

  replay_each-IsHandled :
      (messages : List Message) (n k : ℕ) (log final : List Made)
      → replay_each decode answers db messages n log ≡ (ok k, final)
      → (k ≡ n + count_of (λ m. sends_again (classify_message decode db m)) messages)
        × All (IsHandled final) messages
        × (length final + n ≡ (length log + length messages) + k)
        × ((x : Made) → Among x log → Among x final)
  unfolding replay_each
  replay_each-IsHandled [] n k log final h =
      let same : n ≡ k = cc in
      let kept : log ≡ final = ap (λ x. x.1) h in
      (omega arith, tt, rw (← kept) (omega arith), λ x there. rw (← kept) there)
  replay_each-IsHandled (m ∷ ms) n k log final h =
      elim (Result-cases (classify_message decode db m)) [
        | inl (e, failed) ↦
            absurd
              (cc (ap (λ x. x.0) (sym (each-err decode db answers [] m ms n log e failed) ∙ h)))
        | inr (c, done) ↦
            let again = is_replay c.disposition in
            let next : List Made → Result ℕ × List Made =
              λ later. replay_each decode answers db ms (n + one_if again) later in
            let whole = sym (each-ok decode db answers [] m ms n log c done) ∙ h in
            let (l, turned, on) =
              and_then-ok (replay_one answers m again log) next k (ap (λ x. x.0) whole) in
            let log_is = replay_one-ok m again log l turned in
            let (counted, handled, size, keeps) =
              replay_each-IsHandled ms (n + one_if again) k l final (sym on ∙ whole) in
            let grew : length l ≡ (length log + 1) + one_if again =
              ap length log_is ∙ length-grown m again log in
            let found : (x : Made) → Among x (grown m again log) → Among x final =
              λ x there. keeps x (rw log_is there) in
            (
              rw done (count_step again n k _ counted),
              (grown-IsHandled m c log final done found, handled),
              omega (arith, size, grew),
              λ x there. found x (grown-old m again log x there),
            )
      ]

  -- A batch that comes to its end returns how many of its messages are classified as ones to send
  -- again. Each of those was sent again and deleted, and each other one was made visible at once,
  -- and all these calls have returned; it made no further calls than these.
  pub replay_counts :
      (messages : List Message) (k : ℕ)
      → (replay_batch decode answers db messages).0 ≡ ok k
      → (k ≡ count_of (λ m. sends_again (classify_message decode db m)) messages)
        × All (IsHandled (replay_batch decode answers db messages).1) messages
        × (length (replay_batch decode answers db messages).1 ≡ length messages + k)
  unfolding replay_batch
  replay_counts messages k h =
      let (counted, handled, size, _) =
        replay_each-IsHandled messages 0 k [] (replay_each decode answers db messages 0 []).1
          (λ i. (h i, (replay_each decode answers db messages 0 []).1)) in
      (omega arith, handled, omega arith)
