-- ===== src/Store/Contracts.antt =====
-- indexer/internal/store/contracts.go. A statement's outcome is an argument.
pub mod Laws
pub mod Tracked
pub mod Effects
pub mod Keys
use pulsar_app.Base.{
  ℕ, ◌+◌, Bool, ◌&&◌, ◌||◌, not, List, [], ◌∷◌, ◌++◌, Option, none, some, Str, eq_str, lt_str, ltb,
  ◌==◌, if◌then◌else◌, ℤ, pos, ltb_ℤ, Result, ok, err, length, select, sort_by,
}
use pulsar_app.Store.{
  Outcome, ran, refused, unread, StoreError, not_found, empty_contract_id, engine, status_active,
  Contract, Db, Done,
}

-- `SELECT … WHERE id = $1`: the id is the primary key.
unfoldable pub find : Str → List Contract → Option Contract
find id [] = none
find id (c ∷ cs) = if eq_str c.id id then some c else find id cs

or_not_found : Option Contract → Result StoreError Contract
or_not_found none = err not_found
or_not_found (some c) = ok c

-- `Get`
unfoldable pub get : Outcome → Str → Db → Result StoreError Contract
unfolding find or_not_found
get ran id db = or_not_found (find id db.contracts)
get (refused f) id db = err (engine f)
get (unread f) id db = err (engine f)

-- The defaults of the schema's columns.
abbrev pub new_contract : Str → ℕ → Contract
new_contract id now = record {
  id = id;
  added_at = now;
  first_indexed_ledger = none;
  last_indexed_ledger = pos 0;
  status = status_active;
}

-- `INSERT INTO contracts … ON CONFLICT (id) DO NOTHING`, at time `now`.
pub insert_contract : Str → ℕ → Db → Db
insert_contract id now db = elim (find id db.contracts) [
  | some c ↦ db
  | none ↦ record db { contracts = db.contracts ++ new_contract id now ∷ [] }
]

read_back : Outcome → Str → Db → Done Contract
unfolding get
read_back o id db = (get o id db, db)

-- `Register`: the insert and the read are two statements.
unfoldable pub register : ℕ → Outcome → Outcome → Str → Db → Done Contract
unfolding insert_contract read_back
register now insert_outcome get_outcome [] db = (err empty_contract_id, db)
register now (refused f) get_outcome (c ∷ s) db = (err (engine f), db)
register now _ get_outcome (c ∷ s) db =
    read_back get_outcome (c ∷ s) (insert_contract (c ∷ s) now db)

-- `ORDER BY added_at, id`
abbrev pub earlier : Contract → Contract → Bool
earlier a b = ltb a.added_at b.added_at || a.added_at == b.added_at && lt_str a.id b.id

-- `List`
unfoldable pub list : Outcome → Db → Result StoreError (List Contract)
list ran db = ok (sort_by earlier db.contracts)
list (refused f) db = err (engine f)
list (unread f) db = err (engine f)

-- `ContractStats`
pub record ContractStats : Type 0 where
  pub count : ℕ
  pub latest_ledger : ℤ

-- `MAX(last_indexed_ledger)`: NULL on an empty table.
max_ledger : List Contract → Option ℤ
max_ledger [] = none
max_ledger (c ∷ cs) = elim (max_ledger cs) [
  | none ↦ some c.last_indexed_ledger
  | some m ↦ some (if ltb_ℤ m c.last_indexed_ledger then c.last_indexed_ledger else m)
]

coalesce_zero : Option ℤ → ℤ
coalesce_zero none = pos 0
coalesce_zero (some n) = n

-- `Stats`
unfoldable pub stats : Outcome → Db → Result StoreError ContractStats
unfolding max_ledger coalesce_zero
stats ran db = ok (record {
  count = length db.contracts;
  latest_ledger = coalesce_zero (max_ledger db.contracts);
})
stats (refused f) db = err (engine f)
stats (unread f) db = err (engine f)

-- The end of a statement that must have touched a row: `RowsAffected`, and its zero.
affected : Outcome → Option Contract → Result StoreError (Unit {0})
affected (refused f) row = err (engine f)
affected (unread f) row = err (engine f)
affected ran none = err not_found
affected ran (some c) = ok tt

effect : Outcome → Db → Db → Db
effect (refused f) old new = old
effect _ old new = new

-- `DELETE FROM contracts WHERE id = $1`: the rows deleted take their events with them.
pub without : Str → Db → Db
unfolding find
without id db = elim (find id db.contracts) [
  | none ↦ db
  | some c ↦ record db {
    contracts = select (λ c. not (eq_str c.id id)) db.contracts;
    events = select (λ e. not (eq_str e.contract_id id)) db.events;
  }
]

-- `Delete`
unfoldable pub delete : Outcome → Str → Db → Done (Unit {0})
unfolding find affected effect without
delete o id db = (affected o (find id db.contracts), effect o db (without id db))

-- `UPDATE contracts SET … WHERE id = $1`
pub update : (Contract → Contract) → Str → List Contract → List Contract
update f id [] = []
update f id (c ∷ cs) = (if eq_str c.id id then f c else c) ∷ update f id cs

abbrev coalesce : Option ℤ → ℤ → ℤ
coalesce none n = n
coalesce (some m) n = m

abbrev pub with_progress : ℤ → Contract → Contract
with_progress ledger c = record c {
  last_indexed_ledger = ledger;
  first_indexed_ledger = some (coalesce c.first_indexed_ledger ledger);
}

-- `SetProgress`
unfoldable pub set_progress : Outcome → Str → ℤ → Db → Done (Unit {0})
unfolding find affected effect update
set_progress o id ledger db = (
  affected o (find id db.contracts),
  effect o db (record db { contracts = update (with_progress ledger) id db.contracts }),
)

-- `SetStatus`
unfoldable pub set_status : Outcome → Str → Str → Db → Done (Unit {0})
unfolding find affected effect update
set_status o id status db = (
  affected o (find id db.contracts),
  effect o db
      (record db { contracts = update (λ c. record c { status = status }) id db.contracts }),
)
