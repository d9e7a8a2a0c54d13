-- ===== src/Execution/Sound/Repository.antt =====
-- The row invariant under `create_queued`, `transition` to a terminal status, `cancel`
-- (execution_domain.py) and `persist_terminal_result` (execution_results.py).
use leetcode_platform.Prelude.{
  ℕ, String, ◌≡◌, true, Option, none, some, arith, inl, inr, Bool-cases, Option-cases, refl,
}
use leetcode_platform.Execution.Status.{ExecutionStatus, Error, is_legal, is_terminal, status_of}
use leetcode_platform.Execution.Store.{
  Db, Clock, Details, ExecutionRow, PublicResultRow, find_request, append_event,
}
use leetcode_platform.Execution.Repository.{
  ExecutionSnapshot, get_execution, moved_row, transition, enqueue_cancel, cancel_active, cancel,
}
use leetcode_platform.Execution.Repository.Transition.{
  moved_db, transition-missing, transition-illegal, transition-legal,
}
use leetcode_platform.Execution.Persist.{
  TrustedExecutionProjection, resulted_row, write_result, store_result, reread_terminal,
  after_transition, persist_active, persist_terminal_result,
}
use leetcode_platform.Execution.Action.{Result, ok, err, write}
use leetcode_platform.Execution.Action.Keeps.{
  Keeps, Keeps-bind, Keeps-raise_if, Keeps-pure, Keeps-write, Keeps-attempt,
}
use leetcode_platform.Execution.Sound.{
  IsSound, SoundDb, Sound-update, sound_rules, AllSound-modify, find-AllSound,
}

module _ (limit : ℕ) where
  moved_row-IsSound :
      (clock : Clock) (target : ExecutionStatus) (w : Option String) (t : Option ℕ)
      (r : ExecutionRow)
      → is_terminal target ≡ true
      → IsSound limit r
      → IsSound limit (moved_row clock target w t r)
  unfolding moved_row
  moved_row-IsSound clock target w t r ends s = ground arith

  get_execution-Sound : (k : ℕ) → Keeps (SoundDb limit) (get_execution k)
  unfolding get_execution
  get_execution-Sound k = search sound_rules

  moved_db-Sound :
      (clock : Clock) (k : ℕ) (target : ExecutionStatus) (d : Details) (w : Option String)
      (t : Option ℕ) (db : Db) (r : ExecutionRow)
      → is_terminal target ≡ true
      → find_request k db ≡ some r
      → SoundDb limit db
      → SoundDb limit (moved_db clock k target d w t r db)
  unfolding append_event
  moved_db-Sound clock k target d w t db r ends found h = record {
    rows = AllSound-modify limit k (moved_row clock target w t) db.requests r h.rows found (
        moved_row-IsSound clock target w t r ends
          (find-AllSound limit k db.requests r h.rows found));
  }

  transition-Sound :
      (clock : Clock) (k : ℕ) (target : ExecutionStatus) (d : Details) (w : Option String)
      (t : Option ℕ)
      → is_terminal target ≡ true
      → Keeps (SoundDb limit) (transition clock k target d w t)
  transition-Sound clock k target d w t ends = record {
    at = λ db h. elim (Option-cases (find_request k db)) [
      | inl missing ↦ rw (transition-missing clock k target d w t db missing) h
      | inr (r, found) ↦ elim (Bool-cases (is_legal (status_of r.state) target)) [
        | inl legal ↦
            rw (transition-legal clock k target d w t db r found legal)
              (moved_db-Sound clock k target d w t db r ends found h)
        | inr illegal ↦ rw (transition-illegal clock k target d w t db r found illegal) h
      ]
    ];
  }

  enqueue_cancel-Sound :
      (clock : Clock) (k : ℕ) (trace : String) (o : ℕ)
      → Keeps (SoundDb limit) (enqueue_cancel clock k trace o)
  unfolding enqueue_cancel
  enqueue_cancel-Sound clock k trace o = search sound_rules

  cancel_active-Sound :
      (clock : Clock) (k : ℕ) (trace : String) (o : ℕ)
      → Keeps (SoundDb limit) (cancel_active clock k trace o)
  unfolding cancel_active
  cancel_active-Sound clock k trace o =
      Keeps-bind _ _ (transition-Sound clock k ExecutionStatus.cancelled _ none none refl)
        λ _. Keeps-bind _ _ (enqueue_cancel-Sound clock k trace o) λ _. Keeps-pure _

  pub cancel-Sound :
      (clock : Clock) (k : ℕ) (trace : String) (o : ℕ)
      → Keeps (SoundDb limit) (cancel clock k trace o)
  unfolding cancel
  cancel-Sound clock k trace o = search (sound_rules, get_execution-Sound, cancel_active-Sound)

  resulted_row-IsSound :
      (k : ℕ) (p : TrustedExecutionProjection) (r : ExecutionRow)
      → IsSound limit r
      → IsSound limit (resulted_row k p r)
  unfolding resulted_row
  resulted_row-IsSound k p r s = ground arith

  write_result-Sound : (x : PublicResultRow) → Keeps (SoundDb limit) (write (write_result x))
  unfolding write_result
  write_result-Sound x = Keeps-write _ (λ db h. record { rows = h.rows })

  store_result-Sound :
      (k : ℕ) (p : TrustedExecutionProjection) → Keeps (SoundDb limit) (store_result k p)
  unfolding store_result
  store_result-Sound k p = Keeps-bind _ _ (Keeps-raise_if _ _) λ _.
      Keeps-bind _ _ (Sound-update limit k _ _ (λ x h s. resulted_row-IsSound k p x s)) λ _.
        Keeps-bind _ _ (Keeps-raise_if _ _) λ _.
          Keeps-bind _ _ (Keeps-raise_if _ _)
            λ _. Keeps-bind _ _ (write_result-Sound _) λ _. Keeps-pure _

  reread_terminal-Sound : (k : ℕ) (e : Error) → Keeps (SoundDb limit) (reread_terminal k e)
  unfolding reread_terminal
  reread_terminal-Sound k e = search (sound_rules, get_execution-Sound)

  after_transition-Sound :
      (k : ℕ) (p : TrustedExecutionProjection) (r : Result ExecutionSnapshot)
      → Keeps (SoundDb limit) (after_transition k p r)
  unfolding after_transition
  after_transition-Sound k p (ok s) = store_result-Sound k p
  after_transition-Sound k p (err e) = search (sound_rules, reread_terminal-Sound)

  persist_active-Sound :
      (clock : Clock) (k : ℕ) (p : TrustedExecutionProjection)
      → is_terminal p.execution_status ≡ true
      → Keeps (SoundDb limit) (persist_active clock k p)
  unfolding persist_active
  persist_active-Sound clock k p ends =
      Keeps-bind _ _
        (Keeps-attempt _ (transition-Sound clock k p.execution_status _ none none ends))
        λ moved. after_transition-Sound k p moved

  pub persist_terminal_result-Sound :
      (clock : Clock) (k : ℕ) (p : TrustedExecutionProjection)
      → is_terminal p.execution_status ≡ true
      → Keeps (SoundDb limit) (persist_terminal_result clock k p)
  unfolding persist_terminal_result
  persist_terminal_result-Sound clock k p ends =
      search (sound_rules, get_execution-Sound, persist_active-Sound)
