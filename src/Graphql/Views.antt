-- ===== src/Graphql/Views.antt =====
-- indexer/internal/api/graphql.go: the fields of the result types, with their narrowing to 32 bits.
use pulsar_app.Base.{ℕ, Bool, true, List, Option, none, some, Str, ℤ, pos, wrap, map, Json, null}
use mathlib.Core.Option
use pulsar_app.Strconv.{format_int}
use pulsar_app.Store.{Contract, Event}
use pulsar_app.Store.Contracts.{ContractStats}
use pulsar_app.Store.Query.{EventsPage}

-- `healthResolver`
pub record HealthView : Type 0 where
  pub healthy : Bool
  pub version : Str
  pub latest_ledger : ℤ
  pub tracked_contracts : ℤ

unfoldable pub health_view : Str → ContractStats → HealthView
health_view version s = record {
  healthy = true;
  version = version;
  latest_ledger = wrap 32 s.latest_ledger;
  tracked_contracts = wrap 32 (pos s.count);
}

-- `contractResolver`
pub record ContractView : Type 0 where
  pub id : Str
  pub added_at : ℕ
  pub first_indexed_ledger : Option ℤ
  pub last_indexed_ledger : ℤ
  pub status : Str

unfoldable pub contract_view : Contract → ContractView
contract_view c = record {
  id = c.id;
  added_at = c.added_at;
  first_indexed_ledger = Option.map (wrap 32) c.first_indexed_ledger;
  last_indexed_ledger = wrap 32 c.last_indexed_ledger;
  status = c.status;
}

-- `JSON.MarshalJSON`: the stored bytes, or null when there are none.
abbrev pub json_scalar : Option Json → Json
json_scalar none = null
json_scalar (some j) = j

-- `eventResolver`
pub record EventView : Type 0 where
  pub id : Str
  pub contract_id : Str
  pub ledger : ℤ
  pub tx_hash : Str
  pub event_index : ℤ
  pub name : Str
  pub topics : Json
  pub data_value : Json
  pub raw_topics : List Str
  pub raw_data : Str
  pub emitted_at : ℕ
  pub in_successful_contract_call : Bool

unfoldable pub event_view : Event → EventView
unfolding format_int
event_view e = record {
  id = format_int (pos e.id);
  contract_id = e.contract_id;
  ledger = wrap 32 e.ledger;
  tx_hash = e.tx_hash;
  event_index = wrap 32 e.event_index;
  name = e.name;
  topics = json_scalar e.topics_json;
  data_value = json_scalar e.data_json;
  raw_topics = e.raw_topics;
  raw_data = e.raw_data;
  emitted_at = e.emitted_at;
  in_successful_contract_call = e.in_successful_contract_call;
}

-- `eventConnectionResolver.Items`
unfoldable pub items : EventsPage → List EventView
unfolding event_view
items page = map event_view page.events
