-- ===== src/Store/Events.antt =====
-- indexer/internal/store/events.go: Insert and Get. The events table is in the order of insertion.
pub mod Sound
pub mod Insert
pub mod Outcomes
pub mod Emission
pub mod Found
pub mod Effects
pub mod References
use pulsar_app.Base.{
  ℕ, suc, ◌+◌, ◌-◌, Bool, true, false, ◌&&◌, ◌||◌, List, [], ◌∷◌, ◌++◌, Option, none, some, eq_str,
  ltb, if◌then◌else◌, ℤ, pos, eqb_ℤ, Json, null, Result, ok, err, ◌>>=◌, ◌>>◌, fail_if, length,
}
use pulsar_app.Store.{
  Outcome, ran, refused, unread, StoreError, not_found, no_reference, engine, too_many, nil_event,
  no_contract_id, Dialect, postgres, Contract, Event, Db, Done,
}
use pulsar_app.Store.Contracts.{find}

abbrev pub max_page_size : ℕ
max_page_size = 10000

abbrev pub default_page_size : ℕ
default_page_size = 100

-- `jsonOrNull`
abbrev pub json_or_null : Option Json → Json
json_or_null none = null
json_or_null (some j) = j

-- The checks of the loop over the batch, from index `i`: the events that are bound.
unfoldable pub check_batch : ℕ → List (Option Event) → Result StoreError (List Event)
check_batch i [] = ok []
check_batch i (none ∷ es) = err (nil_event i)
check_batch i (some e ∷ es) = do
  fail_if (eq_str e.contract_id []) (no_contract_id i)
  rest ← check_batch (suc i) es
  ok (e ∷ rest)

-- The columns that are bound for an event, in a row with key `id`.
abbrev pub row_of : ℕ → Event → Event
row_of id e = record e {
  id = id;
  topics_json = some (json_or_null e.topics_json);
  data_json = some (json_or_null e.data_json);
}

-- The unique key `(ledger, event_index)`.
abbrev pub same_place : Event → Event → Bool
same_place a b = eqb_ℤ a.ledger b.ledger && eqb_ℤ a.event_index b.event_index

pub taken : Event → List Event → Bool
taken e [] = false
taken e (r ∷ rs) = same_place r e || taken e rs

pub max_id : List Event → ℕ
max_id [] = 0
max_id (r ∷ rs) = let m = max_id rs in if ltb m r.id then r.id else m

-- The key of a new row: SQLite takes the next number after the largest key in the table, Postgres the
-- next of the sequence, which it also spends on a row that conflicts.
pub next_id : Dialect → Db → ℕ
unfolding max_id
next_id postgres db = suc db.sequence
next_id _ db = suc (max_id db.events)

-- One row of `INSERT … ON CONFLICT (ledger, event_index) DO NOTHING`.
pub insert_row : Dialect → Event → Db → Db
unfolding taken next_id
insert_row dialect e db =
    let events =
      if taken e db.events then db.events else db.events ++ row_of (next_id dialect db) e ∷ [] in
    record db { events = events; sequence = suc db.sequence }

pub insert_rows : Dialect → List Event → Db → Db
unfolding insert_row
insert_rows dialect [] db = db
insert_rows dialect (e ∷ es) db = insert_rows dialect es (insert_row dialect e db)

-- The foreign key holds of every row.
pub referenced : List Contract → List Event → Bool
unfolding find
referenced cs [] = true
referenced cs (e ∷ es) =
    (elim (find e.contract_id cs) [ none ↦ false | some c ↦ true ]) && referenced cs es

-- `RowsAffected`, or the failure to read it.
rows_affected : Outcome → Db → Db → Done ℕ
rows_affected ran old new = (ok (length new.events - length old.events), new)
rows_affected (refused f) old new = (err (engine f), old)
rows_affected (unread f) old new = (err (engine f), new)

-- The statement as a whole: it fails with no effect if a row names no contract.
insert_statement : Outcome → Dialect → List Event → Db → Done ℕ
unfolding insert_rows referenced rows_affected
insert_statement (refused f) dialect es db = (err (engine f), db)
insert_statement o dialect es db =
    let new = insert_rows dialect es db in
    if referenced new.contracts new.events then rows_affected o db new else (err no_reference, db)

bind_batch : Outcome → Dialect → Db → Result StoreError (List Event) → Done ℕ
unfolding insert_statement
bind_batch o dialect db (err e) = (err e, db)
bind_batch o dialect db (ok es) = insert_statement o dialect es db

-- `Events.Insert`
unfoldable pub insert : Dialect → Outcome → List (Option Event) → Db → Done ℕ
unfolding check_batch bind_batch
insert dialect o [] db = (ok 0, db)
insert dialect o (e ∷ es) db =
    if ltb max_page_size (length (e ∷ es))
    then (err (too_many (length (e ∷ es))), db)
    else bind_batch o dialect db (check_batch 0 (e ∷ es))

-- `SELECT … WHERE id = $1`
pub find_event : ℤ → List Event → Option Event
find_event id [] = none
find_event id (e ∷ es) = if eqb_ℤ (pos e.id) id then some e else find_event id es

event_or_not_found : Option Event → Result StoreError Event
event_or_not_found none = err not_found
event_or_not_found (some e) = ok e

-- `Events.Get`
unfoldable pub get : Outcome → ℤ → Db → Result StoreError Event
unfolding find_event event_or_not_found
get ran id db = event_or_not_found (find_event id db.events)
get (refused f) id db = err (engine f)
get (unread f) id db = err (engine f)
