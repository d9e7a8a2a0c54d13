-- ===== src/EventLog/Tables.antt =====
-- The log under the statements of the repositories: an UPDATE with its event, an UPDATE that keeps
-- the state, the INSERT of a new request.
use leetcode_platform.Prelude.{
  Option, ℕ, ◌≡◌, ◌≢◌, refl, sym, ◌∙◌, ap, Bool, true, none, some, List, [], ◌∷◌, ◌++◌, inl, inr,
  arith, find, modify, find-modify_self, find-modify_ne, find_key, find-append_ne, find-append_none,
  Bool-cases, Option-cases,
}
use mathlib.Core.Path.{subst}
use native.Mathlib.Decide.{ℕ_discrete}
use leetcode_platform.Execution.Status.{ExecutionState}
use leetcode_platform.Execution.Store.{
  Db, ExecutionRow, Details, row_id, find_request, append_event, advanced, update_request,
}
use leetcode_platform.Execution.Action.{Action, update, ◌>>=◌}
use leetcode_platform.Execution.Action.Keeps.{Keeps, Keeps-update}
use leetcode_platform.EventLog.{
  LogOf, IsLogged, may_follow, may_come, row_state, last_state, is_path, is_numbered,
}
use leetcode_platform.EventLog.Append.{
  is_numbered-append_next, is_numbered-append_ne, is_path-append, is_path-append_ne,
  last_state-append, last_state-append_ne,
}

-- The tables with one event more and other requests.
module _ (k : ℕ) (s : ExecutionState) (details : Details) (rows : List ExecutionRow) (db : Db) where
  abbrev written : Db
  written = append_event k s details (record db { requests = rows })

  LogOf-own :
      LogOf k db
      → may_come (row_state (find_request k db)) s ≡ true
      → row_state (find row_id k rows) ≡ some s
      → LogOf k written
  unfolding append_event
  LogOf-own log come here = record {
    numbered = is_numbered-append_next k _ db.events refl refl log.numbered;
    path = is_path-append k _ none db.events refl log.path (rw log.current come);
    current = last_state-append k _ none db.events refl ∙ sym here;
  }

  LogOf-other :
      (j : ℕ) → k ≢ j → LogOf j db → find row_id j rows ≡ find_request j db → LogOf j written
  unfolding append_event
  LogOf-other j ne log same = record {
    numbered = is_numbered-append_ne j _ 0 db.events ne ∙ log.numbered;
    path = is_path-append_ne j _ none db.events ne ∙ log.path;
    current = last_state-append_ne j _ none db.events ne ∙ log.current ∙ ap row_state (sym same);
  }

  pub IsLogged-written :
      IsLogged db
      → may_come (row_state (find_request k db)) s ≡ true
      → row_state (find row_id k rows) ≡ some s
      → ((j : ℕ) → k ≢ j → find row_id j rows ≡ find_request j db)
      → IsLogged written
  IsLogged-written h come here others = record {
    log = λ j. elim (ℕ_discrete k j) [
      | yes p ↦ subst (λ i. LogOf i written) p (LogOf-own (h.log k) come here)
      | no ne ↦ LogOf-other j ne (h.log j) (others j ne)
    ];
  }

module _ (k : ℕ) (f : ExecutionRow → ExecutionRow) (s : ExecutionState) (details : Details)
    (same : (x : ExecutionRow) → (f x).id ≡ x.id) where
  -- A move that the pipeline makes, with its event.
  pub IsLogged-advanced :
      (db : Db) (r : ExecutionRow)
      → IsLogged db
      → find_request k db ≡ some r
      → may_follow r.state s ≡ true
      → (f r).state ≡ s
      → IsLogged (advanced k f s details db)
  unfolding may_come
  IsLogged-advanced db r h found move state =
      IsLogged-written k s details (modify row_id k f db.requests) db h (rw found move)
        (rw
          (find-modify_self row_id k f db.requests found
            (same r ∙ find_key row_id k db.requests found))
          (ap some state))
        (λ j ne. find-modify_ne row_id k j f db.requests same (λ e. ne (sym e)))

-- A new request, in the queue.
pub IsLogged-inserted :
    (k : ℕ) (row : ExecutionRow) (details : Details) (db : Db)
    → IsLogged db
    → find_request k db ≡ none
    → row.id ≡ k
    → row.state ≡ ExecutionState.queued
    → IsLogged (
        append_event k ExecutionState.queued details
          (record db { requests = db.requests ++ row ∷ [] }))
unfolding may_come
IsLogged-inserted k row details db h absent own queued =
    IsLogged-written k ExecutionState.queued details (db.requests ++ row ∷ []) db h (rw absent refl)
      (rw (find-append_none row_id k db.requests (row ∷ []) absent) (ground arith))
      (λ j ne. find-append_ne row_id j db.requests row (λ e. ne (sym own ∙ e)))

-- Tables with the same requests and events have the same log.
pub IsLogged-same :
    (a b : Db) → a.requests ≡ b.requests → a.events ≡ b.events → IsLogged a → IsLogged b
IsLogged-same a b rs es h = record {
  log = λ j. record {
    numbered = ap (is_numbered j 0) (sym es) ∙ (h.log j).numbered;
    path = ap (is_path j none) (sym es) ∙ (h.log j).path;
    current =
        ap (last_state j none) (sym es)
        ∙ (h.log j).current
        ∙ ap (λ rows. row_state (find row_id j rows)) rs;
  };
}

-- An UPDATE that leaves the state as it is.
module _ (k : ℕ) (guard : ExecutionRow → Bool) (f : ExecutionRow → ExecutionRow)
    (same : (x : ExecutionRow) → (f x).id ≡ x.id)
    (still : (x : ExecutionRow) → (f x).state ≡ x.state) where
  modify-row_state :
      (j : ℕ) (rows : List ExecutionRow)
      → row_state (find row_id j (modify row_id k f rows)) ≡ row_state (find row_id j rows)
  modify-row_state j [] = refl
  modify-row_state j (x ∷ rows) = ground (arith, same x, still x, modify-row_state j rows)

  modified-IsLogged :
      (db : Db) → IsLogged db → IsLogged (record db { requests = modify row_id k f db.requests })
  modified-IsLogged db h = record {
    log = λ j. record {
      numbered = (h.log j).numbered;
      path = (h.log j).path;
      current = (h.log j).current ∙ sym (modify-row_state j db.requests);
    };
  }

  pub IsLogged-update : Keeps IsLogged (update k guard f)
  unfolding update_request
  IsLogged-update = Keeps-update k guard f (λ db h. elim (Option-cases (find_request k db)) [
    | inl missing ↦ rw (missing, update_request) h
    | inr (r, found) ↦ elim (Bool-cases (guard r)) [
      | inl hit ↦ rw (found, hit, update_request) (modified-IsLogged db h)
      | inr miss ↦ rw (found, miss, update_request) h
    ]
  ])

-- An UPDATE whose row, if there is one, is reported by an event.
pub IsLogged-update_report :
    {A : Type 0} (k : ℕ) (guard : ExecutionRow → Bool) (f : ExecutionRow → ExecutionRow)
    (report : Option ExecutionRow → Action A)
    → ((db : Db) → (report none db).1 ≡ db)
    → ((db : Db) (r : ExecutionRow)
        → IsLogged db
        → find_request k db ≡ some r
        → guard r ≡ true
        → IsLogged (report (some (f r)) (record db { requests = modify row_id k f db.requests })).1)
    → Keeps IsLogged (update k guard f >>= report)
unfolding ◌>>=◌ update_request
IsLogged-update_report k guard f report idle busy = record {
  at = λ db h. elim (Option-cases (find_request k db)) [
    | inl missing ↦ rw (missing, ◌>>=◌, update, update_request) (rw (idle db) h)
    | inr (r, found) ↦ elim (Bool-cases (guard r)) [
      | inl hit ↦ rw (found, hit, ◌>>=◌, update, update_request) (busy db r h found hit)
      | inr miss ↦ rw (found, miss, ◌>>=◌, update, update_request) (rw (idle db) h)
    ]
  ];
}
