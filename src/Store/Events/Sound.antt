-- ===== src/Store/Events/Sound.antt =====
-- The unique keys of the events table.
use pulsar_app.Base.{
  suc, ◌≤◌, true, false, not, List, [], ◌∷◌, Option, ◌≡◌, refl, inl, inr, arith, ltb, Result, ok,
  err, length, All, All-map, All-append, Ordered, Ordered-concat, Bool-cases,
}
use pulsar_app.Store.{
  Outcome, ran, refused, unread, StoreError, Dialect, sqlite, postgres, other_dialect, Event, Db,
}
use pulsar_app.Store.Events.{
  check_batch, same_place, taken, max_id, next_id, insert_row, insert_rows, referenced, insert,
  rows_affected, insert_statement, bind_batch, max_page_size,
}

-- Keys ascend in the order of insertion, no two rows have one place, and no key is past the
-- sequence on Postgres.
pub record IsSound (dialect : Dialect) (db : Db) : Type 0 where
  pub keys_ascend : Ordered (λ a b. ltb a.id b.id) db.events
  pub places_differ : Ordered (λ a b. not (same_place a b)) db.events
  pub below_sequence : dialect ≡ postgres → All (λ e. e.id ≤ db.sequence) db.events

max_id_bound : (es : List Event) → All (λ e. e.id ≤ max_id es) es
unfolding max_id
max_id_bound [] = tt
max_id_bound (e ∷ es) = (ground arith, All-map (λ d h. ground arith) es (max_id_bound es))

-- A new key is larger than every key in the table.
next_id_fresh :
    (d : Dialect) (db : Db) → IsSound d db → All (λ e. ltb e.id (next_id d db) ≡ true) db.events
unfolding next_id
next_id_fresh postgres db s = All-map (λ e h. ground arith) db.events (s.below_sequence refl)
next_id_fresh sqlite db s = All-map (λ e h. ground arith) db.events (max_id_bound db.events)
next_id_fresh (other_dialect z) db s =
    All-map (λ e h. ground arith) db.events (max_id_bound db.events)

next_id_postgres : (d : Dialect) (db : Db) → d ≡ postgres → next_id d db ≤ suc db.sequence
unfolding next_id
next_id_postgres postgres db p = omega arith
next_id_postgres sqlite db p = cc
next_id_postgres (other_dialect z) db p = cc

not-taken :
    (e : Event) (es : List Event) → taken e es ≡ false → All (λ r. not (same_place r e) ≡ true) es
unfolding taken
not-taken e [] h = tt
not-taken e (r ∷ rs) h = (ground arith, not-taken e rs (ground arith))

insert_row-IsSound :
    (d : Dialect) (e : Event) (db : Db) → IsSound d db → IsSound d (insert_row d e db)
unfolding insert_row
insert_row-IsSound d e db s = elim (Bool-cases (taken e db.events)) [
  | inl t ↦ rw t (record {
    keys_ascend = s.keys_ascend;
    places_differ = s.places_differ;
    below_sequence = λ p. All-map (λ r h. omega arith) db.events (s.below_sequence p);
  })
  | inr t ↦ rw t (record {
    keys_ascend = Ordered-concat _ db.events _ s.keys_ascend (next_id_fresh d db s);
    places_differ = Ordered-concat _ db.events _ s.places_differ (not-taken e db.events t);
    below_sequence = λ p.
        All-append _ db.events _ (All-map (λ r h. omega arith) db.events (s.below_sequence p))
          (next_id_postgres d db p, tt);
  })
]

insert_rows-IsSound :
    (d : Dialect) (es : List Event) (db : Db) → IsSound d db → IsSound d (insert_rows d es db)
unfolding insert_rows
insert_rows-IsSound d [] db s = s
insert_rows-IsSound d (e ∷ es) db s =
    insert_rows-IsSound d es (insert_row d e db) (insert_row-IsSound d e db s)

statement-IsSound :
    (d : Dialect) (o : Outcome) (es : List Event) (db : Db)
    → IsSound d db
    → IsSound d (insert_statement o d es db).1
unfolding insert_statement rows_affected
statement-IsSound d (refused f) es db s = s
statement-IsSound d ran es db s =
    let t = insert_rows-IsSound d es db s in
    elim (Bool-cases (referenced (insert_rows d es db).contracts (insert_rows d es db).events)) [
      | inl e ↦ rw e t
      | inr e ↦ rw e s
    ]
statement-IsSound d (unread f) es db s =
    let t = insert_rows-IsSound d es db s in
    elim (Bool-cases (referenced (insert_rows d es db).contracts (insert_rows d es db).events)) [
      | inl e ↦ rw e t
      | inr e ↦ rw e s
    ]

batch-IsSound :
    (d : Dialect) (o : Outcome) (r : Result StoreError (List Event)) (db : Db)
    → IsSound d db
    → IsSound d (bind_batch o d db r).1
unfolding bind_batch
batch-IsSound d o (ok es) db s = statement-IsSound d o es db s
batch-IsSound d o (err e) db s = s

-- Whatever the batch and whatever the engine does, an insert keeps the keys ascending in the order
-- of insertion, the places (ledger, event_index) distinct, and the keys below the sequence.
pub insert-IsSound :
    (d : Dialect) (o : Outcome) (batch : List (Option Event)) (db : Db)
    → IsSound d db
    → IsSound d (insert d o batch db).1
unfolding insert
insert-IsSound d o [] db s = s
insert-IsSound d o (e ∷ es) db s = elim (Bool-cases (ltb max_page_size (length (e ∷ es)))) [
  | inl b ↦ rw b s
  | inr b ↦ rw b (batch-IsSound d o (check_batch 0 (e ∷ es)) db s)
]
