-- ===== src/Graphql.antt =====
-- indexer/internal/api/graphql.go: the arguments and the resolvers. A resolver gives its value,
-- none for GraphQL's null, or the error whose code and class go into the extensions. int32 is an
-- integer.
mod Tests
pub mod Arguments
pub mod Narrow
pub mod Handler
pub mod Views
use pulsar_app.Base.{
  List, [], Option, none, some, Str, codes, ℤ, Json, Result, ok, err, ◌>>=◌, ◌>>◌, map_err,
}
use pulsar_app.Strconv.{format_int}
use pulsar_app.ApiError.{
  ApiError, Class, Code, error_class, new_error, code_internal_panic, code_internal_store,
  code_validation_contract_id, code_validation_event_id, code_not_found_contract,
  code_validation_limit, code_validation_order, code_validation_cursor,
  code_validation_ledger_range, code_validation_filter,
}
use pulsar_app.Validate.{
  event_limit, event_order, event_cursor, ledger_bound, ledger_range, event_filter_text, event_id,
  contract_id,
}
use pulsar_app.Store.{Outcome, StoreError, not_found, Dialect, Contract, Event, Db}
use pulsar_app.Store.Contracts.{ContractStats, stats, list}
use pulsar_app.Store.Contracts as Contracts
use pulsar_app.Store.Events as Events
use pulsar_app.Store.Query.{EventQuery, EventsPage, query}
use pulsar_app.Api.{fail}
unfoldable pub use pulsar_app.Graphql.Views.{health_view, contract_view, event_view, items}
pub use pulsar_app.Graphql.Views.{HealthView, ContractView, json_scalar, EventView}

-- `eventFilterArgs`
pub record FilterArgs : Type 0 where
  pub name : Option Str
  pub from_ledger : Option ℤ
  pub to_ledger : Option ℤ
  pub topic_contains : Option Str
  pub limit : Option ℤ
  pub cursor : Option Str
  pub order : Option Str

-- `strPtrString`
abbrev pub str_ptr_string : Option Str → Str
str_ptr_string none = []
str_ptr_string (some s) = s

-- `int32PtrString`
unfoldable pub int32_ptr_string : Option ℤ → Str
unfolding format_int
int32_ptr_string none = []
int32_ptr_string (some n) = format_int n

-- `buildEventQuery`
unfoldable pub build_event_query : Str → FilterArgs → Result (ApiError StoreError) EventQuery
unfolding event_limit event_order event_cursor ledger_bound ledger_range event_filter_text new_error
    int32_ptr_string
build_event_query id f = do
  limit ←
      fail code_validation_limit (codes "The limit argument must be an integer between 1 and 500.")
        (event_limit (int32_ptr_string f.limit))
  order ←
      fail code_validation_order (codes "The order argument must be asc or desc.")
        (event_order (str_ptr_string f.order))
  cursor ←
      fail code_validation_cursor (codes "The cursor argument must be an event id.")
        (event_cursor (str_ptr_string f.cursor))
  from ←
      fail code_validation_ledger_range
        (codes "The fromLedger argument must be a non-negative integer.")
        (ledger_bound (int32_ptr_string f.from_ledger))
  to ←
      fail code_validation_ledger_range
        (codes "The toLedger argument must be a non-negative integer.")
        (ledger_bound (int32_ptr_string f.to_ledger))
  fail code_validation_ledger_range
      (codes "The fromLedger argument must not be greater than toLedger.") (ledger_range from to)
  name ←
      fail code_validation_filter
        (codes "The name argument must be valid UTF-8 and must not contain a NUL byte.")
        (event_filter_text (str_ptr_string f.name))
  topic ←
      fail code_validation_filter
        (codes "The topicContains argument must be valid UTF-8 and must not contain a NUL byte.")
        (event_filter_text (str_ptr_string f.topic_contains))
  ok (record {
    contract_id = id;
    name = name;
    from_ledger = from;
    to_ledger = to;
    limit = limit;
    cursor = cursor;
    order = order;
    topic_contains = topic;
  })

-- `resolverError`: the message, and its `Extensions`.
pub record Rendered : Type 0 where
  pub message : Str
  pub code : Code
  pub class : Class

unfoldable pub render : ApiError StoreError → Rendered
unfolding error_class
render e = record { message = e.message; code = e.code; class = error_class e }

-- `MakePanicError`
unfoldable pub make_panic_error : Rendered
unfolding render new_error
make_panic_error = render (
    new_error code_internal_panic
      (codes "The indexer hit an unexpected condition while executing the query."))

-- `internalStoreError`, without its log line
unfoldable pub internal_store_error : StoreError → ApiError StoreError
unfolding new_error
internal_store_error cause =
    new_error code_internal_store
      (codes "The indexer could not reach its store to answer the request.")

abbrev pub bad_contract_id : ApiError StoreError
unfolding new_error
bad_contract_id =
    new_error code_validation_contract_id
      (codes "The contract ID is not a well-formed Soroban contract ID.")

-- A missing row is GraphQL's null.
null_if_missing : {A : Type 0} → Result StoreError A → Result (ApiError StoreError) (Option A)
unfolding internal_store_error
null_if_missing (ok a) = ok (some a)
null_if_missing (err not_found) = ok none
null_if_missing (err e) = err (internal_store_error e)

tracked_or_error : StoreError → ApiError StoreError
unfolding internal_store_error new_error
tracked_or_error not_found =
    new_error code_not_found_contract (codes "The indexer is not tracking this contract.")
tracked_or_error e = internal_store_error e

-- `queryResolver.Health`
unfoldable pub resolve_health : Outcome → Db → Result (ApiError StoreError) ContractStats
unfolding stats internal_store_error
resolve_health o db = map_err internal_store_error (stats o db)

-- `queryResolver.Contracts`
unfoldable pub resolve_contracts : Outcome → Db → Result (ApiError StoreError) (List Contract)
unfolding list internal_store_error
resolve_contracts o db = map_err internal_store_error (list o db)

-- `queryResolver.Contract`
unfoldable pub resolve_contract :
    Outcome → Str → Db → Result (ApiError StoreError) (Option Contract)
unfolding contract_id Contracts.get null_if_missing
resolve_contract o id db = do
  map_err (λ e. bad_contract_id) (contract_id id)
  null_if_missing (Contracts.get o id db)

-- `queryResolver.Event`
unfoldable pub resolve_event : Outcome → Str → Db → Result (ApiError StoreError) (Option Event)
unfolding event_id Events.get null_if_missing new_error
resolve_event o raw db = do
  id ←
      map_err
        (λ e.
          new_error code_validation_event_id (codes "The event ID must be a non-negative integer."))
        (event_id raw)
  null_if_missing (Events.get o id db)

module _ (topic_text : Dialect → Json → Option Str) where
  -- `contractResolver.Events`, of the contract with this ID
  unfoldable pub resolve_contract_events :
      Dialect → Outcome → Str → FilterArgs → Db → Result (ApiError StoreError) EventsPage
  unfolding build_event_query query internal_store_error
  resolve_contract_events d o id f db = do
    q ← build_event_query id f
    map_err internal_store_error (query topic_text d o q db)

  -- `queryResolver.Events`
  unfoldable pub resolve_events :
      Dialect → Outcome → Outcome → Str → FilterArgs → Db → Result (ApiError StoreError) EventsPage
  unfolding contract_id build_event_query Contracts.get query internal_store_error tracked_or_error
  resolve_events d o o' id f db = do
    map_err (λ e. bad_contract_id) (contract_id id)
    q ← build_event_query id f
    _ ← map_err tracked_or_error (Contracts.get o id db)
    map_err internal_store_error (query topic_text d o' q db)
