-- ===== src/Outbox/Settled.antt =====
-- apps/api/src/rigor_api/outbox.py and execution_publisher.py: what publishing leaves alone.
use leetcode_platform.Prelude.{
  ℕ, String, ◌≡◌, refl, Bool, true, Option, none, some, List, [], ◌∷◌, inl, inr, arith, is_some,
  find, modify, Bool-cases, find-modify_self, find-modify_ne, ◌==◌, ◌∙◌, ap,
}
use leetcode_platform.Execution.Store.{Db, Clock, OutboxRow}
use leetcode_platform.Execution.Action.{ok, err, Result}
use leetcode_platform.Execution.Action.Keeps.{
  Keeps, Keeps-bind, Keeps-pure, Keeps-raise, Keeps-write, Keeps-gets, Keeps-raise_if,
}
use leetcode_platform.Outbox.{
  Outside, OutboxMessage, outbox_id, unless_published, update_outbox, published_row, failed_row,
  mark_published, mark_failed, deliver, publish_each, claim_batch, publish_claimed_messages,
  or_error,
}

Keeps-or_error : {A : Type 0} {P : Db → Type 0} (r : Result A) → Keeps P (or_error r)
Keeps-or_error (ok a) = Keeps-pure a
Keeps-or_error (err e) = Keeps-raise e

-- An invariant that the UPDATEs of the outbox keep is kept by the whole loop.
module _ (P : Db → Type 0) (out : Outside) (clock : Clock)
    (kept : (k : ℕ) (f : OutboxRow → OutboxRow)
      → ((o : OutboxRow) → (f o).id ≡ o.id)
      → (db : Db) → P db
      → P (update_outbox k f db)) where
  deliver-Keeps :
      (m : OutboxMessage) (sent : Option String) (p f : ℕ) → Keeps P (deliver out clock m sent p f)
  unfolding deliver mark_published mark_failed
  deliver-Keeps m none p f =
      Keeps-bind _ _ (Keeps-write _ (kept m.id (published_row clock) (λ o. refl)))
        (λ _. Keeps-pure _)
  deliver-Keeps m (some e) p f =
      Keeps-bind _ _
        (Keeps-bind _ _ (Keeps-or_error _) (λ d.
          Keeps-bind _ _
            (Keeps-write _ (kept m.id (failed_row (out.later clock.utc_now d) e) (λ o. refl)))
            (λ _. Keeps-pure _)))
        (λ _. Keeps-pure _)

  publish_each-Keeps : (ms : List OutboxMessage) (c : ℕ × ℕ) → Keeps P (publish_each out clock ms c)
  unfolding publish_each
  publish_each-Keeps [] (p, f) = Keeps-pure _
  publish_each-Keeps (m ∷ ms) (p, f) =
      Keeps-bind _ _ (deliver-Keeps m (out.publish m) p f) (publish_each-Keeps ms)

  publish-Keeps :
      (locked : ℕ → Bool) (limit : ℕ) → Keeps P (publish_claimed_messages out clock locked limit)
  unfolding publish_claimed_messages claim_batch
  publish-Keeps locked limit =
      Keeps-bind _ _ (Keeps-bind _ _ (Keeps-raise_if _ _) (λ _. Keeps-gets _))
        (λ ms. Keeps-bind _ _ (publish_each-Keeps ms (0, 0)) (λ c. Keeps-pure _))

unless_published-id :
    (f : OutboxRow → OutboxRow) (o : OutboxRow) → (f o).id ≡ o.id → (unless_published f o).id ≡ o.id
unfolding unless_published
unless_published-id f o h = ground arith

unless_published-published :
    (f : OutboxRow → OutboxRow) (o : OutboxRow)
    → is_some o.published_at ≡ true
    → unless_published f o ≡ o
unfolding unless_published
unless_published-published f o h = ground arith

-- The row `o` stands in the outbox under its identifier.
record Stands (o : OutboxRow) (db : Db) : Type 0 where
  there : find outbox_id o.id db.outbox ≡ some o

update_outbox-Stands :
    (o : OutboxRow)
    → is_some o.published_at ≡ true
    → (k : ℕ) (f : OutboxRow → OutboxRow) → ((x : OutboxRow) → (f x).id ≡ x.id)
    → (db : Db) → Stands o db
    → Stands o (update_outbox k f db)
unfolding update_outbox
update_outbox-Stands o sent k f same db h = elim (Bool-cases (o.id == k)) [
  | inl hit ↦
      let key : o.id ≡ k = ground arith in
      record {
        there = rw (← key) (
            find-modify_self outbox_id o.id (unless_published f) db.outbox h.there
              (unless_published-id f o (same o))
            ∙ ap some (unless_published-published f o sent));
      }
  | inr miss ↦ record {
    there =
        find-modify_ne outbox_id k o.id (unless_published f) db.outbox
          (λ x. unless_published-id f x (same x)) (ground arith)
        ∙ h.there;
  }
]

-- A message that is published stays as it is through every later run of the publisher, whatever the
-- transport does: it is not counted, rescheduled or stamped again.
pub published_stays :
    (out : Outside) (clock : Clock) (locked : ℕ → Bool) (limit : ℕ) (db : Db) (o : OutboxRow)
    → find outbox_id o.id db.outbox ≡ some o
    → is_some o.published_at ≡ true
    → find outbox_id o.id (publish_claimed_messages out clock locked limit db).1.outbox ≡ some o
published_stays out clock locked limit db o found sent =
    let end : Stands o (publish_claimed_messages out clock locked limit db).1 =
      (publish-Keeps (Stands o) out clock (update_outbox-Stands o sent) locked limit).at db
        (record { there = found }) in
    end.there

abbrev with_outbox : List OutboxRow → Db → Db
with_outbox rows db = record db { outbox = rows }

-- Only the outbox differs.
record OnlyOutbox (origin db : Db) : Type 0 where
  same : db ≡ record origin { outbox = db.outbox }

update_outbox-Only :
    (origin : Db) (k : ℕ) (f : OutboxRow → OutboxRow)
    → ((x : OutboxRow) → (f x).id ≡ x.id)
    → (db : Db) → OnlyOutbox origin db
    → OnlyOutbox origin (update_outbox k f db)
unfolding update_outbox
update_outbox-Only origin k f ids db h = record {
  same = ap (with_outbox (modify outbox_id k (unless_published f) db.outbox)) h.same;
}

-- A run of the publisher writes no table but the outbox.
pub publish_outbox_only :
    (out : Outside) (clock : Clock) (locked : ℕ → Bool) (limit : ℕ) (db : Db)
    → (publish_claimed_messages out clock locked limit db).1
      ≡ record db { outbox = (publish_claimed_messages out clock locked limit db).1.outbox }
publish_outbox_only out clock locked limit db =
    let end : OnlyOutbox db (publish_claimed_messages out clock locked limit db).1 =
      (publish-Keeps (OnlyOutbox db) out clock (update_outbox-Only db) locked limit).at db
        (record { same = refl }) in
    end.same
