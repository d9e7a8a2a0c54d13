-- ===== src/Execution/Sound.antt =====
-- What holds of a request row between two transactions (execution_domain.py, execution_claims.py,
-- execution_results.py), and the rules by which statements keep it.
pub mod Claims
pub mod Create
pub mod Repository
use leetcode_platform.Prelude.{
  ℕ, ◌≡◌, ◌≤◌, Bool, true, some, is_some, eq_of_some, List, [], ◌∷◌, ◌++◌, inl, inr, max,
  Bool-cases, Option-cases, find, modify, ◌==◌,
}
use leetcode_platform.Execution.Status.{ExecutionState}
use leetcode_platform.Execution.Store.{
  Db, ExecutionRow, Details, OutboxRow, row_id, find_request, update_request, append_event,
}
use leetcode_platform.Execution.Claims.{is_queued, is_in_flight}
use leetcode_platform.Execution.Evolution.{is_settled}
use leetcode_platform.Execution.Action.{update, record_event, enqueue}
use leetcode_platform.Execution.Action.Keeps.{
  Keeps, keeps_rules, Keeps-update, Keeps-record_event, Keeps-enqueue,
}
use leetcode_platform.Execution.Since.{insert_outbox-requests}

-- A queued request was never attempted, one in flight was, none more often than the limit allows,
-- and exactly the ended ones have a time of completion.
pub record IsSound (limit : ℕ) (r : ExecutionRow) : Type 0 where
  pub fresh : is_queued r.state ≡ true → r.attempt_count ≡ 0
  pub attempted : is_in_flight r.state ≡ true → 1 ≤ r.attempt_count
  pub bounded : r.attempt_count ≤ max 1 limit
  pub dispatched : is_in_flight r.state ≡ true → is_some r.dispatch_started_at ≡ true
  pub finished : is_some r.completed_at ≡ is_settled r.state

abbrev pub AllSound : ℕ → List ExecutionRow → Type 0
AllSound limit [] = Unit
AllSound limit (r ∷ rows) = IsSound limit r × AllSound limit rows

module _ (limit : ℕ) where
  pub find-AllSound :
      (k : ℕ) (rows : List ExecutionRow) (r : ExecutionRow)
      → AllSound limit rows
      → find row_id k rows ≡ some r
      → IsSound limit r
  find-AllSound k [] r h e = cc
  find-AllSound k (x ∷ rows) r h e = elim (Bool-cases (x.id == k)) [
    | inl hit ↦ let this : x ≡ r = eq_of_some (rw hit at e) in rw (← this) h.0
    | inr miss ↦ find-AllSound k rows r h.1 (rw miss at e)
  ]

  pub AllSound-append :
      (rows : List ExecutionRow) (r : ExecutionRow)
      → AllSound limit rows
      → IsSound limit r
      → AllSound limit (rows ++ r ∷ [])
  AllSound-append [] r h s = (s, tt)
  AllSound-append (x ∷ rows) r h s = (h.0, AllSound-append rows r h.1 s)

  pub AllSound-modify :
      (k : ℕ) (f : ExecutionRow → ExecutionRow) (rows : List ExecutionRow) (r : ExecutionRow)
      → AllSound limit rows
      → find row_id k rows ≡ some r
      → IsSound limit (f r)
      → AllSound limit (modify row_id k f rows)
  AllSound-modify k f [] r h e s = tt
  AllSound-modify k f (x ∷ rows) r h e s = elim (Bool-cases (x.id == k)) [
    | inl hit ↦ let this : x ≡ r = eq_of_some (rw hit at e) in rw hit (rw this s, h.1)
    | inr miss ↦ rw miss (h.0, AllSound-modify k f rows r h.1 (rw miss at e) s)
  ]

  -- The requests of the tables are sound.
  pub record SoundDb (db : Db) : Type 0 where
    pub rows : AllSound limit db.requests

  pub Sound-update :
      (k : ℕ) (guard : ExecutionRow → Bool) (f : ExecutionRow → ExecutionRow)
      → ((x : ExecutionRow) → guard x ≡ true → IsSound limit x → IsSound limit (f x))
      → Keeps SoundDb (update k guard f)
  unfolding update_request
  Sound-update k guard f step = Keeps-update k guard f (λ db h.
      elim (Option-cases (find_request k db)) [
        | inl missing ↦ rw (missing, update_request) h
        | inr (r, found) ↦ elim (Bool-cases (guard r)) [
          | inl hit ↦
              rw (found, hit, update_request)
                (record {
                  rows =
                      AllSound-modify k f db.requests r h.rows found
                        (step r hit (find-AllSound k db.requests r h.rows found));
                })
          | inr miss ↦ rw (found, miss, update_request) h
        ]
      ])

  pub Sound-record_event :
      (k : ℕ) (s : ExecutionState) (d : Details) → Keeps SoundDb (record_event k s d)
  unfolding append_event
  Sound-record_event k s d = Keeps-record_event k s d (λ db h. record { rows = h.rows })

  pub Sound-enqueue : (o : OutboxRow) → Keeps SoundDb (enqueue o)
  Sound-enqueue o =
      Keeps-enqueue o (λ db h. record { rows = rw (insert_outbox-requests o db) h.rows })

pub ruleset sound_rules = (keeps_rules, Sound-record_event, Sound-enqueue)
