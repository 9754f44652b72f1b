-- ===== src/Api/Tests.antt =====
-- An example of indexer/internal/api: a request for the events of a tracked contract.
use pulsar_app.Base.{
  ℕ, All, arith, [], ◌∷◌, true, Option, none, some, false, Str, codes, contains_byte, pos, Json, ok,
  ◌≡◌, refl,
}
use pulsar_app.Validate.{
  contract_id, event_limit, event_order, event_cursor, ledger_bound, ledger_range,
  event_filter_text, valid_string,
}
use pulsar_app.Store.{StoreError, Dialect, sqlite, ran, Event, Db}
use pulsar_app.Store.Contracts.{new_contract, find}
use pulsar_app.Store.Contracts as Contracts
use pulsar_app.Store.Query.{EventQuery, EventsPage, query, order_is_ascending}
use pulsar_app.Store.Query.Plan.{matches}
use pulsar_app.Api.Paging.{list_all, list_all_complete}
use pulsar_app.Api.{
  Params, data_reply, parse_event_query, handle_list_events, handle_delete_contract,
  handle_get_contract, no_content, error_reply,
}
use pulsar_app.Api.Answers.{handle_list_events_lem, handle_delete_contract_lem}
use pulsar_app.Api.Served.{IsServed, commit-handle_get_event}
use pulsar_app.Store.Contracts.{set_progress, with_progress}
use pulsar_app.Store.Events.{insert, row_of}
use pulsar_app.Store.Events.Sound.{IsSound}
use pulsar_app.Store.Tests.{alice, event_at, tracked}
use pulsar_app.Rpc.Transaction.{TxOutcome, committed, commit}
use pulsar_app.ApiError.{ApiError, code_not_found_contract, error_status}

abbrev pub an_id : Str
an_id = codes "CAAAAAAAAAAAAAAAAAAAAAAAAAAAAAAAAAAAAAAAAAAAAAAAAAAAAAAA"

abbrev db : Db
db = record {
  contracts = new_contract an_id 5 ∷ [];
  events =
      record {
        id = 1;
        contract_id = an_id;
        ledger = pos 10;
        tx_hash = codes "t";
        event_index = pos 0;
        name = codes "mint";
        topics_json = none;
        data_json = none;
        raw_topics = [];
        raw_data = codes "";
        emitted_at = 0;
        in_successful_contract_call = true;
      }
      ∷ [];
  sequence = 1;
}

abbrev pub params : Params
params = record {
  limit = codes "2";
  order = codes "";
  cursor = codes "9";
  from_ledger = codes "3";
  to_ledger = codes "";
  name = codes "mint";
  topic_contains = codes "";
}

abbrev pub wanted : EventQuery
wanted = record {
  contract_id = an_id;
  name = codes "mint";
  from_ledger = pos 3;
  to_ledger = pos 0;
  limit = pos 2;
  cursor = codes "9";
  order = codes "desc";
  topic_contains = codes "";
}

accepted : parse_event_query params an_id ≡ ok wanted
unfolding parse_event_query event_limit event_order event_cursor ledger_bound ledger_range
    event_filter_text valid_string contains_byte
accepted = refl

pub an_id-accepted : contract_id an_id ≡ ok tt
unfolding contract_id
an_id-accepted = refl

an_id-tracked : Contracts.get ran an_id db ≡ ok (new_contract an_id 5)
unfolding Contracts.get
an_id-tracked = refl

abbrev pub no_topics : Dialect → Json → Option Str
no_topics d j = none

handle_list_events_lem_example :
    (page : EventsPage) × (query no_topics sqlite ran wanted db ≡ ok page)
    × (handle_list_events no_topics sqlite ran ran params an_id db
        ≡ data_reply 200 page.events page.next_cursor)
handle_list_events_lem_example =
    handle_list_events_lem no_topics sqlite params an_id db refl an_id-accepted accepted
      an_id-tracked

an_id-found : find an_id db.contracts ≡ some (new_contract an_id 5)
unfolding find
an_id-found = refl

handle_delete_contract_lem_example :
    ((handle_delete_contract ran an_id db).0 ≡ no_content)
    × ((e : ApiError StoreError) × (handle_get_contract ran an_id
            (handle_delete_contract ran an_id db).1
          ≡ error_reply e)
        × (e.code ≡ code_not_found_contract)
        × (error_status e ≡ 404))
handle_delete_contract_lem_example = handle_delete_contract_lem an_id db an_id-accepted an_id-found

abbrev all_ran : TxOutcome
all_ran = record {
  begin_fault = none;
  insert_outcome = ran;
  progress_outcome = ran;
  ending = committed;
}

abbrev polled : Db
polled = record {
  contracts = with_progress (pos 10) (new_contract alice 5) ∷ [];
  events = row_of 1 (event_at 0 10) ∷ [];
  sequence = 1;
}

polled-commit : commit sqlite all_ran alice (event_at 0 10 ∷ []) (pos 10) tracked ≡ (ok tt, polled)
unfolding commit insert set_progress
polled-commit = refl

empty-IsSound : IsSound sqlite tracked
empty-IsSound = record { keys_ascend = tt; places_differ = tt; below_sequence = λ e. tt }

commit-handle_get_event_test : All (IsServed polled) (event_at 0 10 ∷ [])
commit-handle_get_event_test =
    commit-handle_get_event sqlite all_ran alice (event_at 0 10) [] (pos 10) tracked empty-IsSound
      polled-commit (omega arith, tt)

-- Three events of the contract, in two pages.
abbrev an_event : ℕ → Event
an_event n = record (event_at n n) { contract_id = an_id; name = codes "mint" }

abbrev three : Db
three = record db { events = an_event 10 ∷ an_event 11 ∷ an_event 12 ∷ []; sequence = 12 }

accepted_start :
    parse_event_query (record params { cursor = codes "" }) an_id
    ≡ ok (record wanted { cursor = codes "" })
unfolding parse_event_query event_limit event_order event_cursor ledger_bound ledger_range
    event_filter_text valid_string contains_byte
accepted_start = refl

three-tracked : Contracts.get ran an_id three ≡ ok (new_contract an_id 5)
unfolding Contracts.get
three-tracked = refl

list_all_complete_example :
    list_all no_topics sqlite an_id three 4 (record params { cursor = codes "" })
    ≡ some (an_event 12 ∷ an_event 11 ∷ an_event 10 ∷ [])
unfolding matches order_is_ascending
list_all_complete_example =
    list_all_complete no_topics sqlite an_id three refl an_id-accepted three-tracked 4 params false
      accepted_start refl
      (
        ((refl, (refl, tt)), ((refl, tt), (tt, tt))),
        ((refl, (refl, tt)), ((refl, tt), (tt, tt))),
        (omega arith, (omega arith, (omega arith, tt))),
      )
      (omega arith)
