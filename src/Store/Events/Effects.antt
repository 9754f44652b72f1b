-- ===== src/Store/Events/Effects.antt =====
-- indexer/internal/store/events.go: what an Insert leaves as it was, whatever the engine does with it.
use pulsar_app.Base.{
  true, List, [], ◌∷◌, Option, ltb, length, Result, ok, err, ◌≡◌, refl, ap, ◌⊎◌, inl, inr,
  Bool-cases,
}
use pulsar_app.Store.{Outcome, ran, refused, unread, StoreError, Dialect, Event, Db}
use pulsar_app.Store.Events.{
  check_batch, taken, insert_rows, referenced, insert, rows_affected, insert_statement, bind_batch,
  max_page_size,
}
use pulsar_app.Store.Events.Insert.{insert_rows-contracts, taken-insert_rows}

-- The tables are as they were, or have the rows of the batch, which has passed its checks.
abbrev pub Inserted : Dialect → Result StoreError (List Event) → Db → Db → Type 0
Inserted d checked db db' =
    (db' ≡ db) ⊎ ((es : List Event) × (checked ≡ ok es) × (db' ≡ insert_rows d es db))

statement-Inserted :
    (d : Dialect) (o : Outcome) (es : List Event) (db : Db)
    → Inserted d (ok es) db (insert_statement o d es db).1
unfolding insert_statement rows_affected
statement-Inserted d (refused f) es db = inl refl
statement-Inserted d ran es db =
    elim (Bool-cases (referenced (insert_rows d es db).contracts (insert_rows d es db).events)) [
      | inl e ↦ inr (es, refl, rw e refl)
      | inr e ↦ inl (rw e refl)
    ]
statement-Inserted d (unread f) es db =
    elim (Bool-cases (referenced (insert_rows d es db).contracts (insert_rows d es db).events)) [
      | inl e ↦ inr (es, refl, rw e refl)
      | inr e ↦ inl (rw e refl)
    ]

batch-Inserted :
    (d : Dialect) (o : Outcome) (r : Result StoreError (List Event)) (db : Db)
    → Inserted d r db (bind_batch o d db r).1
unfolding bind_batch
batch-Inserted d o (ok es) db = statement-Inserted d o es db
batch-Inserted d o (err e) db = inl refl

-- Whatever the engine does with an insert, the tables are as they were or have the rows of its batch.
pub insert-Inserted :
    (d : Dialect) (o : Outcome) (batch : List (Option Event)) (db : Db)
    → Inserted d (check_batch 0 batch) db (insert d o batch db).1
unfolding insert
insert-Inserted d o [] db = inl refl
insert-Inserted d o (e ∷ es) db = elim (Bool-cases (ltb max_page_size (length (e ∷ es)))) [
  | inl b ↦ rw b (inl refl)
  | inr b ↦ rw b (batch-Inserted d o (check_batch 0 (e ∷ es)) db)
]

pub insert-contracts :
    (d : Dialect) (o : Outcome) (batch : List (Option Event)) (db : Db)
    → (insert d o batch db).1.contracts ≡ db.contracts
insert-contracts d o batch db = elim (insert-Inserted d o batch db) [
  | inl e ↦ ap (λ (t : Db). t.contracts) e
  | inr (es, _, e) ↦ rw e (insert_rows-contracts d es db)
]

-- A place that is taken stays so.
pub taken-insert :
    (d : Dialect) (o : Outcome) (batch : List (Option Event)) (db : Db) (x : Event)
    → taken x db.events ≡ true
    → taken x (insert d o batch db).1.events ≡ true
taken-insert d o batch db x h = elim (insert-Inserted d o batch db) [
  | inl e ↦ rw e h
  | inr (es, _, e) ↦ rw e (taken-insert_rows d x es db h)
]
