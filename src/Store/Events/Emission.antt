-- ===== src/Store/Events/Emission.antt =====
-- indexer/internal/store/events.go: the emission order of a contract's events, and what an insert does
-- to it.
use pulsar_app.Base.{
  ℕ, Bool, true, ◌&&◌, ◌||◌, List, [], ◌∷◌, Str, eq_str, ltb_ℤ, eqb_ℤ, ◌≡◌, inl, inr, Bool-cases,
  All, Ordered,
}
use pulsar_app.Store.{Dialect, Event, Db}
use pulsar_app.Store.Events.{row_of, taken, next_id, insert_row}
use pulsar_app.Store.Events.Insert.{added_rows}

-- `a` comes before `b`: by the ledger, and then by the index in it.
abbrev pub precedes : Event → Event → Bool
precedes a b =
    ltb_ℤ a.ledger b.ledger || eqb_ℤ a.ledger b.ledger && ltb_ℤ a.event_index b.event_index

-- The event is of the contract.
abbrev pub is_of : Str → Event → Bool
is_of id e = eq_str e.contract_id id

module _ (P : Event → Type 0) (rows : (n : ℕ) (e : Event) → P e → P (row_of n e))
    (d : Dialect) where
  -- What holds of the events of a batch holds of the rows that it adds.
  pub added_rows-All : (es : List Event) (db : Db) → All P es → All P (added_rows d es db)
  unfolding added_rows
  added_rows-All [] db h = tt
  added_rows-All (e ∷ es) db (he, h) =
      let rest = added_rows-All es (insert_row d e db) h in
      elim (Bool-cases (taken e db.events)) [
        | inl t ↦ rw t rest
        | inr t ↦ rw t (rows (next_id d db) e he, rest)
      ]

-- The rows that a batch adds are in the order of the batch.
pub added_rows-Ordered :
    (d : Dialect) (es : List Event) (db : Db)
    → Ordered precedes es
    → Ordered precedes (added_rows d es db)
unfolding added_rows
added_rows-Ordered d [] db h = tt
added_rows-Ordered d (e ∷ es) db (he, h) =
    let rest = added_rows-Ordered d es (insert_row d e db) h in
    elim (Bool-cases (taken e db.events)) [
      | inl t ↦ rw t rest
      | inr t ↦
          rw t (
            added_rows-All (λ f. precedes e f ≡ true) (λ n f k. k) d es (insert_row d e db) he,
            rest,
          )
    ]
