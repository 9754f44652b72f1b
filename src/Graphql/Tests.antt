-- ===== src/Graphql/Tests.antt =====
-- Examples of the GraphQL layer: the events of a tracked contract, and the numbers of 32 bits.
use pulsar_app.Base.{
  ℕ, [], ◌∷◌, Option, none, some, Str, codes, contains_byte, pos, negsuc, wrap, Json, ok, ◌≡◌, ◌↔◌,
  ◌≤◌, ◌<◌, refl, arith,
}
use pulsar_app.Strconv.{format_int, format_uint}
use pulsar_app.Validate.{
  contract_id, event_limit, event_order, event_cursor, ledger_bound, ledger_range,
  event_filter_text, valid_string,
}
use pulsar_app.Store.{Dialect, sqlite, ran, Db}
use pulsar_app.Store.Contracts.{new_contract}
use pulsar_app.Store.Contracts as Contracts
use pulsar_app.Store.Query.{EventQuery, EventsPage}
use pulsar_app.Api.{parse_event_query, handle_list_events, data_reply}
use pulsar_app.Graphql.{
  FilterArgs, int32_ptr_string, build_event_query, resolve_events, resolve_contract_events,
}
use pulsar_app.Graphql.Arguments.{params_of, coded, build-parse, resolve_events_lem}
use pulsar_app.Graphql.Narrow.{
  wrap_iff, event_limit-int32_ptr_string, ledger_bound-int32_ptr_string,
}

abbrev an_id : Str
an_id = codes "CAAAAAAAAAAAAAAAAAAAAAAAAAAAAAAAAAAAAAAAAAAAAAAAAAAAAAAA"

abbrev tables : Db
tables = record { contracts = new_contract an_id 5 ∷ []; events = []; sequence = 0 }

abbrev no_topics : Dialect → Json → Option Str
no_topics d j = none

abbrev args : FilterArgs
args = record {
  name = none;
  from_ledger = some (pos 3);
  to_ledger = none;
  topic_contains = none;
  limit = some (pos 2);
  cursor = none;
  order = some (codes "asc");
}

abbrev wanted : EventQuery
wanted = record {
  contract_id = an_id;
  name = [];
  from_ledger = pos 3;
  to_ledger = pos 0;
  limit = pos 2;
  cursor = [];
  order = codes "asc";
  topic_contains = [];
}

built : build_event_query an_id args ≡ ok wanted
unfolding build_event_query int32_ptr_string format_int format_uint event_limit event_order
    event_cursor ledger_bound ledger_range event_filter_text valid_string contains_byte
built = refl

an_id-accepted : contract_id an_id ≡ ok tt
unfolding contract_id
an_id-accepted = refl

an_id-tracked : Contracts.get ran an_id tables ≡ ok (new_contract an_id 5)
unfolding Contracts.get
an_id-tracked = refl

build-parse_example :
    coded (build_event_query an_id args) ≡ coded (parse_event_query (params_of args) an_id)
build-parse_example = build-parse an_id args

resolve_events_lem_example :
    (page : EventsPage) × (resolve_events no_topics sqlite ran ran an_id args tables ≡ ok page)
    × (resolve_contract_events no_topics sqlite ran an_id args tables ≡ ok page)
    × (handle_list_events no_topics sqlite ran ran (params_of args) an_id tables
        ≡ data_reply 200 page.events page.next_cursor)
resolve_events_lem_example =
    resolve_events_lem no_topics sqlite an_id args tables refl an_id-accepted built an_id-tracked

-- The first ledger that an int32 does not hold is served as a negative number.
wrap_test : wrap 32 (pos 2147483648) ≡ negsuc 2147483647
wrap_test = refl

wrap_iff_test : (wrap 32 (pos 2147483648) ≡ pos 2147483648) ↔ (2147483648 < 2147483648)
wrap_iff_test = wrap_iff 2147483648 (omega arith)

event_limit-int32_ptr_string_test :
    (event_limit (int32_ptr_string (some (pos 500))) ≡ ok (pos 500))
    ↔ ((k : ℕ) × (pos 500 ≡ pos k) × (pos 500 ≡ pos k) × (1 ≤ k) × (k ≤ 500))
event_limit-int32_ptr_string_test = event_limit-int32_ptr_string (pos 500) (pos 500)

ledger_bound-int32_ptr_string_test :
    (ledger_bound (int32_ptr_string (some (pos 3))) ≡ ok (pos 3))
    ↔ ((k : ℕ) × (pos 3 ≡ pos k) × (pos 3 ≡ pos k))
ledger_bound-int32_ptr_string_test = ledger_bound-int32_ptr_string (pos 3) (pos 3) (omega arith)
