-- ===== src/Store/Events/Insert.antt =====
-- What an insert adds to the events table.
use pulsar_app.Base.{
  ℕ, ◌-◌, true, false, ◌||◌, List, [], ◌∷◌, ◌++◌, append-nil, append_assoc, Option, ◌≡◌, refl, sym,
  ap, ◌∙◌, inl, inr, arith, if◌then◌else◌, ltb, Result, ok, err, length, length-append, All,
  Bool-cases,
}
use pulsar_app.Store.{ran, StoreError, Dialect, Event, Db, Done}
use pulsar_app.Store.Events.{
  check_batch, row_of, taken, next_id, insert_row, insert_rows, referenced, insert, rows_affected,
  insert_statement, bind_batch, max_page_size,
}

-- What the rows of a batch add to the table.
abbrev added_row : Dialect → Event → Db → List Event
added_row d e db = if taken e db.events then [] else row_of (next_id d db) e ∷ []

unfoldable pub added_rows : Dialect → List Event → Db → List Event
added_rows d [] db = []
added_rows d (e ∷ es) db = added_row d e db ++ added_rows d es (insert_row d e db)

insert_row-events :
    (d : Dialect) (e : Event) (db : Db) → (insert_row d e db).events ≡ db.events ++ added_row d e db
unfolding insert_row
insert_row-events d e db = elim (Bool-cases (taken e db.events)) [
  | inl t ↦ rw t (sym (append-nil db.events))
  | inr t ↦ rw t
]

pub insert_rows-events :
    (d : Dialect) (es : List Event) (db : Db)
    → (insert_rows d es db).events ≡ db.events ++ added_rows d es db
unfolding insert_rows added_rows
insert_rows-events d [] db = sym (append-nil db.events)
insert_rows-events d (e ∷ es) db =
    insert_rows-events d es (insert_row d e db)
    ∙ ap (λ rows. rows ++ added_rows d es (insert_row d e db)) (insert_row-events d e db)
    ∙ append_assoc db.events (added_row d e db) (added_rows d es (insert_row d e db))

pub insert_rows-contracts :
    (d : Dialect) (es : List Event) (db : Db) → (insert_rows d es db).contracts ≡ db.contracts
unfolding insert_rows insert_row
insert_rows-contracts d [] db = refl
insert_rows-contracts d (e ∷ es) db = insert_rows-contracts d es (insert_row d e db)

-- Inversion of an insert that succeeds: the checks passed, and the rows went in.
statement_ok :
    (d : Dialect) (es : List Event) (db : Db) {n : ℕ} {db' : Db}
    → insert_statement ran d es db ≡ (ok n, db')
    → (db' ≡ insert_rows d es db)
      × (n ≡ length (insert_rows d es db).events - length db.events)
      × (referenced (insert_rows d es db).contracts (insert_rows d es db).events ≡ true)
unfolding insert_statement rows_affected
statement_ok d es db h = ground arith

batch_ok :
    (d : Dialect) (r : Result StoreError (List Event)) (db : Db) {n : ℕ} {db' : Db}
    → bind_batch ran d db r ≡ (ok n, db')
    → (es : List Event) × (r ≡ ok es) × (insert_statement ran d es db ≡ (ok n, db'))
unfolding bind_batch
batch_ok d (ok es) db h = (es, refl, h)
batch_ok d (err e) db h = cc

length_added : (xs ys : List Event) → length (xs ++ ys) - length xs ≡ length ys
length_added xs ys = omega (arith, length-append xs ys)

insert_batch :
    (d : Dialect) (e : Option Event) (es : List (Option Event)) (db : Db) {n : ℕ} {db' : Db}
    → insert d ran (e ∷ es) db ≡ (ok n, db')
    → bind_batch ran d db (check_batch 0 (e ∷ es)) ≡ (ok n, db')
unfolding insert
insert_batch d e es db h = elim (Bool-cases (ltb max_page_size (length (e ∷ es)))) [
  | inl b ↦ absurd (refusal (rw b at h))
  | inr b ↦ rw b at h
]
  where
    refusal : {x : StoreError} {n : ℕ} {db db' : Db} → ◌≡◌ {A = Done ℕ} (err x, db) (ok n, db') → ⊥
    refusal p = cc

pub insert_ok :
    (d : Dialect) (batch : List (Option Event)) (db : Db) {n : ℕ} {db' : Db}
    → insert d ran batch db ≡ (ok n, db')
    → (es : List Event) × (check_batch 0 batch ≡ ok es)
      × (db' ≡ insert_rows d es db)
      × (n ≡ length (added_rows d es db))
insert_ok d [] db h = unfold insert check_batch insert_rows added_rows in ([], refl, cc, cc)
insert_ok d (e ∷ es) db h =
    let (rows, checked, done) = batch_ok d (check_batch 0 (e ∷ es)) db (insert_batch d e es db h) in
    let (same, count, _) = statement_ok d rows db done in
    (
      rows,
      checked,
      same,
      count
          ∙ ap (λ (t : List Event). length t - length db.events) (insert_rows-events d rows db)
          ∙ length_added db.events (added_rows d rows db),
    )

taken-append : (e : Event) (xs ys : List Event) → taken e (xs ++ ys) ≡ (taken e xs || taken e ys)
unfolding taken
taken-append e [] ys = refl
taken-append e (x ∷ xs) ys = ground (arith, taken-append e xs ys)

taken-insert_row : (d : Dialect) (e : Event) (db : Db) → taken e (insert_row d e db).events ≡ true
unfolding insert_row
taken-insert_row d e db = elim (Bool-cases (taken e db.events)) [
  | inl t ↦ rw t t
  | inr t ↦ rw t (rw (taken-append, t) (unfold taken in ground arith))
]

pub taken-insert_rows :
    (d : Dialect) (e : Event) (es : List Event) (db : Db)
    → taken e db.events ≡ true
    → taken e (insert_rows d es db).events ≡ true
taken-insert_rows d e es db h = rw (insert_rows-events d es db) (rw (taken-append, h))

All-taken :
    (d : Dialect) (es : List Event) (db : Db)
    → All (λ e. taken e (insert_rows d es db).events ≡ true) es
unfolding insert_rows
All-taken d [] db = tt
All-taken d (e ∷ es) db = (
  taken-insert_rows d e es (insert_row d e db) (taken-insert_row d e db),
  All-taken d es (insert_row d e db),
)

insert_row-taken :
    (d : Dialect) (e : Event) (db : Db)
    → taken e db.events ≡ true
    → (insert_row d e db).events ≡ db.events
unfolding insert_row
insert_row-taken d e db h = rw h

insert_rows-taken :
    (d : Dialect) (es : List Event) (db : Db)
    → All (λ e. taken e db.events ≡ true) es
    → (insert_rows d es db).events ≡ db.events
unfolding insert_rows
insert_rows-taken d [] db h = refl
insert_rows-taken d (e ∷ es) db (he, h) =
    let same = insert_row-taken d e db he in
    insert_rows-taken d es (insert_row d e db) (rw same h) ∙ same

-- A successful insert keeps every stored row and every contract, appends as many rows as it reports,
-- and leaves a row at the place (ledger, event_index) of every event of the batch.
pub insert_lem :
    (d : Dialect) (batch : List (Option Event)) (db : Db) {n : ℕ} {db' : Db}
    → insert d ran batch db ≡ (ok n, db')
    → (es : List Event) × (check_batch 0 batch ≡ ok es)
      × (db'.contracts ≡ db.contracts)
      × ((added : List Event) × (db'.events ≡ db.events ++ added) × (n ≡ length added))
      × All (λ e. taken e db'.events ≡ true) es
insert_lem d batch db h =
    let (es, checked, same, count) = insert_ok d batch db h in
    (
      es,
      checked,
      rw same (insert_rows-contracts d es db),
      (added_rows d es db, rw same (insert_rows-events d es db), count),
      rw same (All-taken d es db),
    )

statement_again :
    (d : Dialect) (es : List Event) (db : Db)
    → All (λ e. taken e db.events ≡ true) es
    → referenced db.contracts db.events ≡ true
    → ((insert_statement ran d es db).0 ≡ ok 0)
      × ((insert_statement ran d es db).1.events ≡ db.events)
unfolding insert_statement rows_affected
statement_again d es db h r =
    let same = insert_rows-taken d es db h in
    let kept = insert_rows-contracts d es db in rw (kept, same, r) (ground arith, same)

within_ceiling :
    (d : Dialect) (e : Option Event) (es : List (Option Event)) (db : Db) {n : ℕ} {db' : Db}
    → insert d ran (e ∷ es) db ≡ (ok n, db')
    → ltb max_page_size (length (e ∷ es)) ≡ false
unfolding insert
within_ceiling d e es db h = ground arith

-- Inserting a batch a second time reports no row and leaves the rows as they are: a poll that
-- overlaps the one before it stores nothing twice.
pub insert_again :
    (d : Dialect) (batch : List (Option Event)) (db : Db) {n : ℕ} {db' : Db}
    → insert d ran batch db ≡ (ok n, db')
    → ((insert d ran batch db').0 ≡ ok 0) × ((insert d ran batch db').1.events ≡ db'.events)
insert_again d [] db h = unfold insert in (refl, refl)
insert_again d (e ∷ es) db {n} {db'} h =
    let (rows, checked, done) = batch_ok d (check_batch 0 (e ∷ es)) db (insert_batch d e es db h) in
    let (same, _, refs) = statement_ok d rows db done in
    let again = statement_again d rows db' (rw same (All-taken d rows db)) (rw same refs) in
    unfold insert bind_batch in rw (within_ceiling d e es db h, checked) again
