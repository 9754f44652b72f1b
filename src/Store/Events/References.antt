-- ===== src/Store/Events/References.antt =====
-- The foreign key of the events table, and the effect of an insert on it.
use pulsar_app.Base.{
  ◌≤◌, Bool, true, false, not, List, [], ◌∷◌, Option, Str, eq_str, select, ltb, length, Result, ok,
  err, ◌≡◌, refl, inl, inr, arith, Bool-cases, All-map, All-select, Ordered-select,
}
use pulsar_app.Store.{Outcome, ran, refused, unread, StoreError, Dialect, Contract, Event, Db}
use pulsar_app.Store.Contracts.Keys.{has}
use pulsar_app.Store.Events.{
  check_batch, insert_row, insert_rows, referenced, insert, rows_affected, insert_statement,
  bind_batch, max_page_size,
}
use pulsar_app.Store.Events.Sound.{IsSound}
use pulsar_app.Store.Events.Effects.{insert-Inserted}

-- Every event is of a contract that is in the table.
abbrev pub References : Db → Type 0
References db = referenced db.contracts db.events ≡ true

pub references_none : (cs : List Contract) → referenced cs [] ≡ true
unfolding referenced
references_none cs = refl

-- The references hold of more contracts.
pub references_more :
    (cs cs' : List Contract) (es : List Event)
    → ((j : Str) → has j cs ≡ true → has j cs' ≡ true)
    → referenced cs es ≡ true
    → referenced cs' es ≡ true
unfolding referenced
references_more cs cs' [] more h = refl
references_more cs cs' (e ∷ es) more h = elim (Bool-cases (has e.contract_id cs)) [
  | inl k ↦ rw (more e.contract_id k) (references_more cs cs' es more (rw k at h))
  | inr k ↦ let l : false ≡ true = rw k at h in absurd cc
]

-- The references hold of what is left when the events of a contract go with it.
pub references_without :
    (id : Str) (cs cs' : List Contract) (es : List Event)
    → ((j : Str) → eq_str j id ≡ false → has j cs ≡ true → has j cs' ≡ true)
    → referenced cs es ≡ true
    → referenced cs' (select (λ e. not (eq_str e.contract_id id)) es) ≡ true
unfolding referenced
references_without id cs cs' [] more h = refl
references_without id cs cs' (e ∷ es) more h = elim (Bool-cases (has e.contract_id cs)) [
  | inr k ↦ let l : false ≡ true = rw k at h in absurd cc
  | inl k ↦
      let rest = references_without id cs cs' es more (rw k at h) in
      elim (Bool-cases (eq_str e.contract_id id)) [
        | inl own ↦ rw own rest
        | inr other ↦ rw (other, more e.contract_id other k) rest
      ]
]

statement-References :
    (d : Dialect) (o : Outcome) (es : List Event) (db : Db)
    → References db
    → References (insert_statement o d es db).1
unfolding insert_statement rows_affected
statement-References d (refused f) es db h = h
statement-References d ran es db h =
    elim (Bool-cases (referenced (insert_rows d es db).contracts (insert_rows d es db).events)) [
      | inl e ↦ rw e e
      | inr e ↦ rw e h
    ]
statement-References d (unread f) es db h =
    elim (Bool-cases (referenced (insert_rows d es db).contracts (insert_rows d es db).events)) [
      | inl e ↦ rw e e
      | inr e ↦ rw e h
    ]

batch-References :
    (d : Dialect) (o : Outcome) (r : Result StoreError (List Event)) (db : Db)
    → References db
    → References (bind_batch o d db r).1
unfolding bind_batch
batch-References d o (ok es) db h = statement-References d o es db h
batch-References d o (err e) db h = h

pub insert-References :
    (d : Dialect) (o : Outcome) (batch : List (Option Event)) (db : Db)
    → References db
    → References (insert d o batch db).1
unfolding insert
insert-References d o [] db h = h
insert-References d o (e ∷ es) db h = elim (Bool-cases (ltb max_page_size (length (e ∷ es)))) [
  | inl b ↦ rw b h
  | inr b ↦ rw b (batch-References d o (check_batch 0 (e ∷ es)) db h)
]

-- The keys of the events stay in order when some events go.
pub IsSound-select :
    (d : Dialect) (p : Event → Bool) (db : Db) (cs : List Contract)
    → IsSound d db
    → IsSound d (record db { contracts = cs; events = select p db.events })
IsSound-select d p db cs s = record {
  keys_ascend = Ordered-select _ p db.events s.keys_ascend;
  places_differ = Ordered-select _ p db.events s.places_differ;
  below_sequence = λ e. All-select _ p db.events (s.below_sequence e);
}

insert_rows_sequence :
    (d : Dialect) (es : List Event) (db : Db) → db.sequence ≤ (insert_rows d es db).sequence
unfolding insert_rows insert_row
insert_rows_sequence d [] db = omega arith
insert_rows_sequence d (e ∷ es) db = omega (arith, insert_rows_sequence d es (insert_row d e db))

-- The keys are below the sequence also after a rollback, which does not restore it.
pub IsSound-sequence :
    (d : Dialect) (o : Outcome) (batch : List (Option Event)) (db : Db)
    → IsSound d db
    → IsSound d (record db { sequence = (insert d o batch db).1.sequence })
IsSound-sequence d o batch db s = record {
  keys_ascend = s.keys_ascend;
  places_differ = s.places_differ;
  below_sequence = λ p. All-map (λ e h. let k = up in omega arith) db.events (s.below_sequence p);
}
  where
    up : db.sequence ≤ (insert d o batch db).1.sequence
    up = elim (insert-Inserted d o batch db) [
      | inl e ↦ rw e (omega arith)
      | inr (es, _, e) ↦ rw e (insert_rows_sequence d es db)
    ]
