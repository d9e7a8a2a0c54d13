-- ===== src/Execution/Create/Insert.antt =====
-- apps/api/src/rigor_api/execution_domain.py: the INSERT of `create_queued`, on each of its outcomes.
use leetcode_platform.Prelude.{◌≡◌, true, false, Option, none, some, [], ◌∷◌, ◌++◌, is_some}
use leetcode_platform.Execution.Status.{integrity_error}
use leetcode_platform.Execution.Store.{Db, ExecutionRow, find_request}
use leetcode_platform.Execution.Create.{find_owned, insert_request}
use leetcode_platform.Execution.Action.{Action, err, ◌>>=◌}

module _ {A : Type 0} (r : ExecutionRow) (f : Option ExecutionRow → Action A) (db : Db) where
  pub insert-conflict :
      is_some (find_owned r.candidate_id r.idempotency_key db.requests) ≡ true
      → (insert_request r >>= f) db ≡ f none db
  unfolding insert_request ◌>>=◌
  insert-conflict taken = rw taken

  module _ (free : is_some (find_owned r.candidate_id r.idempotency_key db.requests) ≡ false) where
    pub insert-taken :
        is_some (find_request r.id db) ≡ true
        → (insert_request r >>= f) db ≡ (err integrity_error, db)
    unfolding insert_request ◌>>=◌
    insert-taken taken = rw (free, taken)

    pub insert-fresh :
        is_some (find_request r.id db) ≡ false
        → (insert_request r >>= f) db ≡ f (some r) (record db { requests = db.requests ++ r ∷ [] })
    unfolding insert_request ◌>>=◌
    insert-fresh fresh = rw (free, fresh)
