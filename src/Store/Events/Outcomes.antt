-- ===== src/Store/Events/Outcomes.antt =====
-- indexer/internal/store/events.go: what the result of Insert says of its statement and of the tables.
use pulsar_app.Base.{
  List, [], ◌∷◌, Option, ◌≡◌, ◌≢◌, refl, inl, inr, arith, ltb, Result, ok, err, length, Bool-cases,
  ℕ,
}
use pulsar_app.Store.{
  Fault, Outcome, ran, refused, unread, StoreError, too_many, Dialect, Event, Db,
}
use pulsar_app.Store.Events.{
  check_batch, insert, rows_affected, insert_statement, bind_batch, max_page_size,
}

statement_failed :
    (d : Dialect) (o : Outcome) (es : List Event) (db : Db) {x : StoreError}
    → ((f : Fault) → o ≢ unread f)
    → (insert_statement o d es db).0 ≡ err x
    → (insert_statement o d es db).1 ≡ db
unfolding insert_statement rows_affected
statement_failed d (refused f) es db ne h = refl
statement_failed d (unread f) es db ne h = absurd (ne f refl)
statement_failed d ran es db ne h = ground arith

batch_failed :
    (d : Dialect) (o : Outcome) (r : Result StoreError (List Event)) (db : Db) {x : StoreError}
    → ((f : Fault) → o ≢ unread f)
    → (bind_batch o d db r).0 ≡ err x
    → (bind_batch o d db r).1 ≡ db
unfolding bind_batch
batch_failed d o (ok es) db ne h = statement_failed d o es db ne h
batch_failed d o (err e) db ne h = refl

-- A failed insert leaves the tables as they were, unless the statement ran and only its row count
-- could not be read.
pub insert_failed :
    (d : Dialect) (o : Outcome) (batch : List (Option Event)) (db : Db) {x : StoreError}
    → ((f : Fault) → o ≢ unread f)
    → (insert d o batch db).0 ≡ err x
    → (insert d o batch db).1 ≡ db
insert_failed d o [] db ne h = unfold insert in refl
insert_failed d o (e ∷ es) db ne h = elim (Bool-cases (ltb max_page_size (length (e ∷ es)))) [
  | inl b ↦ unfold insert in rw b
  | inr b ↦ unfold insert in rw b (batch_failed d o (check_batch 0 (e ∷ es)) db ne (rw b at h))
]

statement_ran :
    (d : Dialect) (o : Outcome) (es : List Event) (db : Db) {n : ℕ}
    → (insert_statement o d es db).0 ≡ ok n
    → o ≡ ran
unfolding insert_statement rows_affected
statement_ran d ran es db h = refl
statement_ran d (refused f) es db h = cc
statement_ran d (unread f) es db h = absurd (ground arith)

batch_ran :
    (d : Dialect) (o : Outcome) (r : Result StoreError (List Event)) (db : Db) {n : ℕ}
    → (bind_batch o d db r).0 ≡ ok n
    → o ≡ ran
unfolding bind_batch
batch_ran d o (err e) db h = cc
batch_ran d o (ok es) db h = statement_ran d o es db h

-- An insert of a batch that is not empty succeeds only if the statement ran.
pub insert-eq-ok :
    (d : Dialect) (o : Outcome) (e : Option Event) (batch : List (Option Event)) (db : Db) {n : ℕ}
    → (insert d o (e ∷ batch) db).0 ≡ ok n
    → o ≡ ran
unfolding insert
insert-eq-ok d o e batch db h = elim (Bool-cases (ltb max_page_size (length (e ∷ batch)))) [
  | inl b ↦ let k : err (too_many (length (e ∷ batch))) ≡ ok _ = rw b at h in absurd cc
  | inr b ↦ batch_ran d o (check_batch 0 (e ∷ batch)) db (rw b at h)
]
