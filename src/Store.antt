-- ===== src/Store.antt =====
-- indexer/internal/store and indexer/internal/models: the two tables, the records of their rows, and
-- the errors of the stores. An SQL statement is a function of the tables and of what the engine did
-- with it. Times are instants, as numbers.
pub mod Tests
pub mod Contracts
pub mod Events
pub mod Query
pub mod Columns
pub mod Integrity
use pulsar_app.Base.{
  ℕ, Bool, true, false, not, List, Option, none, some, Str, codes, eq_str, ℤ, Json, Result,
}

-- A failure of the database, or of the context that it runs under.
pub data Fault : Type 0 where
  broken cancelled deadline_exceeded : Fault

-- What the engine did with a statement: ran it, refused it with no effect, or ran it and then
-- failed to report the number of rows.
pub data Outcome : Type 0 where
  ran : Outcome
  refused : Fault → Outcome
  unread : Fault → Outcome

pub data StoreError : Type 0 where
  not_found no_reference empty_contract_id contract_id_required unknown_dialect : StoreError
  engine : Fault → StoreError
  too_many nil_event no_contract_id : ℕ → StoreError
  negative_limit over_limit : ℤ → StoreError
  bad_order bad_cursor : Str → StoreError

-- `store.Dialect`, an int.
pub data Dialect : Type 0 where
  sqlite postgres : Dialect
  other_dialect : ℤ → Dialect

-- The values of `models.Status`.
abbrev pub status_active : Str
status_active = codes "active"

abbrev pub status_paused : Str
status_paused = codes "paused"

abbrev pub status_error : Str
status_error = codes "error"

-- `models.Contract`
pub record Contract : Type 0 where
  pub id : Str
  pub added_at : ℕ
  pub first_indexed_ledger : Option ℤ
  pub last_indexed_ledger : ℤ
  pub status : Str

-- `Contract.Indexed`
unfoldable pub indexed : Contract → Bool
indexed c = elim c.first_indexed_ledger [ none ↦ false | some l ↦ true ]

-- `models.Event`; an unset json.RawMessage is `none`.
pub record Event : Type 0 where
  pub id : ℕ
  pub contract_id : Str
  pub ledger : ℤ
  pub tx_hash : Str
  pub event_index : ℤ
  pub name : Str
  pub topics_json : Option Json
  pub data_json : Option Json
  pub raw_topics : List Str
  pub raw_data : Str
  pub emitted_at : ℕ
  pub in_successful_contract_call : Bool

-- `Event.Named`
unfoldable pub named : Event → Bool
named e = not (eq_str e.name (codes ""))

-- The tables, each in the order of insertion, and the sequence behind a BIGSERIAL key.
pub record Db : Type 0 where
  pub contracts : List Contract
  pub events : List Event
  pub sequence : ℕ

-- A call's result, and the tables after it.
abbrev pub Done : Type 0 → Type 0
Done A = Result StoreError A × Db
