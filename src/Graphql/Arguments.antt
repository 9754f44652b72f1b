-- ===== src/Graphql/Arguments.antt =====
-- indexer/internal/api/graphql.go: buildEventQuery against parseEventQuery, and the events resolvers.
use pulsar_app.Base.{
  true, Option, Str, Json, Result, ok, err, ◌>>=◌, map_err, ◌≡◌, refl, sym, ap, ◌∙◌,
}
use pulsar_app.ApiError.{ApiError, Code, new_error}
use pulsar_app.Validate.{
  Sentinel, event_limit, event_order, event_cursor, ledger_bound, ledger_range, event_filter_text,
  contract_id,
}
use pulsar_app.Store.{StoreError, Dialect, Contract, Db, ran}
use pulsar_app.Store.Contracts as Contracts
use pulsar_app.Store.Query.{EventQuery, EventsPage, supported}
use pulsar_app.Api.{Params, fail, parse_event_query, handle_list_events, data_reply}
use pulsar_app.Api.Answers.{handle_list_events_lem}
use pulsar_app.Graphql.{
  FilterArgs, str_ptr_string, int32_ptr_string, build_event_query, resolve_events,
  resolve_contract_events,
}

-- The query string that says what the arguments say.
abbrev pub params_of : FilterArgs → Params
unfolding int32_ptr_string
params_of f = record {
  limit = int32_ptr_string f.limit;
  order = str_ptr_string f.order;
  cursor = str_ptr_string f.cursor;
  from_ledger = int32_ptr_string f.from_ledger;
  to_ledger = int32_ptr_string f.to_ledger;
  name = str_ptr_string f.name;
  topic_contains = str_ptr_string f.topic_contains;
}

-- A result, with only the code of its error.
abbrev pub coded {ℓ} : {A : Type ℓ} → Result (ApiError StoreError) A → Result Code A
coded r = map_err (λ (e : ApiError StoreError). e.code) r

coded-fail :
    {A B : Type 0} (c : Code) (m m' : Str) (r : Result Sentinel A)
    (k k' : A → Result (ApiError StoreError) B)
    → ((a : A) → coded (k a) ≡ coded (k' a))
    → coded (fail c m r >>= k) ≡ coded (fail c m' r >>= k')
unfolding new_error
coded-fail c m m' (ok a) k k' h = h a
coded-fail c m m' (err e) k k' h = refl

-- The arguments of the GraphQL field make the query, or the error code, that the REST route makes
-- of a query string with the same values.
pub build-parse :
    (id : Str) (f : FilterArgs)
    → coded (build_event_query id f) ≡ coded (parse_event_query (params_of f) id)
unfolding build_event_query parse_event_query
build-parse id f = coded-fail _ _ _ (event_limit (int32_ptr_string f.limit)) _ _ (λ limit.
    coded-fail _ _ _ (event_order (str_ptr_string f.order)) _ _ (λ order.
      coded-fail _ _ _ (event_cursor (str_ptr_string f.cursor)) _ _ (λ cursor.
        coded-fail _ _ _ (ledger_bound (int32_ptr_string f.from_ledger)) _ _ (λ from.
          coded-fail _ _ _ (ledger_bound (int32_ptr_string f.to_ledger)) _ _ (λ to.
            coded-fail _ _ _ (ledger_range from to) _ _ (λ u.
              coded-fail _ _ _ (event_filter_text (str_ptr_string f.name)) _ _ (λ name.
                coded-fail _ _ _ (event_filter_text (str_ptr_string f.topic_contains)) _ _
                  (λ topic. refl))))))))

coded-eq-ok :
    {A : Type 0} (r r' : Result (ApiError StoreError) A) {a : A}
    → coded r ≡ coded r'
    → r ≡ ok a
    → r' ≡ ok a
coded-eq-ok (ok b) (ok c) {a} same h =
    let s : b ≡ c = ok_inj same in let t : b ≡ a = ok_inj h in ap ok (sym s ∙ t)
  where
    ok_inj : {E A : Type 0} {x y : A} → ◌≡◌ {A = Result E A} (ok x) (ok y) → x ≡ y
    ok_inj e = cc
coded-eq-ok (ok b) (err e) same h = absurd cc
coded-eq-ok (err e) r' same h = absurd cc

module _ (topic_text : Dialect → Json → Option Str) where
  -- A GraphQL request for the events of a tracked contract whose arguments are accepted is
  -- answered, with the page that the REST route answers a query string of the same values with.
  pub resolve_events_lem :
      (d : Dialect) (id : Str) (f : FilterArgs) (db : Db) {q : EventQuery} {c : Contract}
      → supported d ≡ true
      → contract_id id ≡ ok tt
      → build_event_query id f ≡ ok q
      → Contracts.get ran id db ≡ ok c
      → (page : EventsPage) × (resolve_events topic_text d ran ran id f db ≡ ok page)
        × (resolve_contract_events topic_text d ran id f db ≡ ok page)
        × (handle_list_events topic_text d ran ran (params_of f) id db
            ≡ data_reply 200 page.events page.next_cursor)
  unfolding resolve_events resolve_contract_events
  resolve_events_lem d id f db {q} hd hid h hc =
      let parsed =
        coded-eq-ok (build_event_query id f) (parse_event_query (params_of f) id) (build-parse id f)
          h in
      let (page, answered, replied) =
        handle_list_events_lem topic_text d (params_of f) id db hd hid parsed hc in
      (page, rw (hid, h, hc, answered) refl, rw (h, answered) refl, replied)
