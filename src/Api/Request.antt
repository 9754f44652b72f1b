-- ===== src/Api/Request.antt =====
-- indexer/internal/api/handlers.go: the query parameters of a request for events, and parseEventQuery.
use pulsar_app.Base.{Str, codes, ℤ, Result, ok, map_err, ◌>>=◌, ◌>>◌}
use pulsar_app.ApiError.{
  ApiError, Code, new_error, code_validation_limit, code_validation_order, code_validation_cursor,
  code_validation_ledger_range, code_validation_filter,
}
use pulsar_app.Validate.{
  Sentinel, event_limit, event_order, event_cursor, ledger_bound, ledger_range, event_filter_text,
}
use pulsar_app.Store.{StoreError}
use pulsar_app.Store.Query.{EventQuery}

abbrev pub fail {ℓ} : {A : Type ℓ} → Code → Str → Result Sentinel A → Result (ApiError StoreError) A
fail code message r = map_err (λ e. new_error code message) r

-- The query parameters, each empty if it is absent.
pub record Params : Type 0 where
  pub limit : Str
  pub order : Str
  pub cursor : Str
  pub from_ledger : Str
  pub to_ledger : Str
  pub name : Str
  pub topic_contains : Str

-- The parameters, each with its error.
abbrev pub limit_param : Params → Result (ApiError StoreError) ℤ
limit_param p =
    fail code_validation_limit
      (codes "The limit query parameter must be an integer between 1 and 500.")
      (event_limit p.limit)

abbrev pub order_param : Params → Result (ApiError StoreError) Str
order_param p =
    fail code_validation_order (codes "The order query parameter must be asc or desc.")
      (event_order p.order)

abbrev pub cursor_param : Params → Result (ApiError StoreError) Str
cursor_param p =
    fail code_validation_cursor (codes "The cursor query parameter must be an event id.")
      (event_cursor p.cursor)

abbrev pub from_param : Params → Result (ApiError StoreError) ℤ
from_param p =
    fail code_validation_ledger_range
      (codes "The from_ledger query parameter must be a non-negative integer.")
      (ledger_bound p.from_ledger)

abbrev pub to_param : Params → Result (ApiError StoreError) ℤ
to_param p =
    fail code_validation_ledger_range
      (codes "The to_ledger query parameter must be a non-negative integer.")
      (ledger_bound p.to_ledger)

abbrev pub name_param : Params → Result (ApiError StoreError) Str
name_param p =
    fail code_validation_filter
      (codes "The name query parameter must be valid UTF-8 and must not contain a NUL byte.")
      (event_filter_text p.name)

abbrev pub topic_param : Params → Result (ApiError StoreError) Str
topic_param p =
    fail code_validation_filter
      (codes
        "The topic_contains query parameter must be valid UTF-8 and must not contain a NUL byte.")
      (event_filter_text p.topic_contains)

abbrev pub window_check : ℤ → ℤ → Result (ApiError StoreError) (Unit {0})
window_check from to =
    fail code_validation_ledger_range
      (codes "The from_ledger query parameter must not be greater than to_ledger.")
      (ledger_range from to)

-- `parseEventQuery`
unfoldable pub parse_event_query : Params → Str → Result (ApiError StoreError) EventQuery
unfolding event_limit event_order event_cursor ledger_bound ledger_range event_filter_text new_error
parse_event_query p id = do
  limit ← limit_param p
  order ← order_param p
  cursor ← cursor_param p
  from ← from_param p
  to ← to_param p
  window_check from to
  name ← name_param p
  topic ← topic_param p
  ok (record {
    contract_id = id;
    name = name;
    from_ledger = from;
    to_ledger = to;
    limit = limit;
    cursor = cursor;
    order = order;
    topic_contains = topic;
  })
