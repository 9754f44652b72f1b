-- ===== src/Api/Paging.antt =====
-- indexer/internal/api/handlers.go: a client that follows the cursors of handleListEvents.
use pulsar_app.Base.{
  ℕ, zero, suc, ◌≤◌, ◌<◌, Bool, true, List, [], ◌∷◌, ◌++◌, Option, none, some, Str, codes, Json,
  Result, ok, ◌≡◌, ◌⊎◌, inl, inr, refl, sym, ap, ◌∙◌, subst, arith, length, ltb, take, select, All,
  Bool-cases, All-select,
}
use pulsar_app.Strconv.{format_uint, max_i64}
use pulsar_app.Strconv.RoundTrip.{format_uint-IsDigit}
use pulsar_app.Validate.{event_cursor, contract_id}
use pulsar_app.Validate.Accepts.{event_cursor_iff}
use pulsar_app.ApiError.{ApiError}
use pulsar_app.Store.{StoreError, Dialect, Contract, Event, Db, ran}
use pulsar_app.Store.Contracts as Contracts
use pulsar_app.Store.Query.{
  EventQuery, EventsPage, supported, order_is_ascending, format_cursor, query, page_of, last_id,
}
use pulsar_app.Store.Query.Plan.{matches, answers}
use pulsar_app.Store.Query.Direction.{InStep, directed, directed-All}
use pulsar_app.Store.Query.Pages.{fetch_all, fetch_all_complete, answers-eq}
use pulsar_app.Api.{
  data_reply, no_content, error_reply, Params, parse_event_query, handle_list_events,
}
use pulsar_app.Api.Answers.{
  parse_event_query_parts, parse_event_query_moved, query_answered, handle_list_events-eq,
}

-- The cursor of a page is accepted as a parameter.
event_cursor-format_cursor :
    (n : ℕ) → n ≤ max_i64 → event_cursor (format_cursor n) ≡ ok (format_cursor n)
unfolding format_cursor
event_cursor-format_cursor n h =
    let (ne, ds, v) = format_uint-IsDigit n in
    (event_cursor_iff (format_uint n) (format_uint n)).1 (refl, inr (ne, ds, rw v h))

last_id_bound : (es : List Event) → All (λ e. e.id ≤ max_i64) es → last_id es ≤ max_i64
last_id_bound [] h = omega arith
last_id_bound (e ∷ []) h = h.0
last_id_bound (e ∷ f ∷ es) h = last_id_bound (f ∷ es) h.1

take-All {ℓ ℓ'} :
    {A : Type ℓ} (P : A → Type ℓ') (n : ℕ) (xs : List A) → All P xs → All P (take n xs)
take-All P zero xs h = tt
take-All P (suc n) [] h = tt
take-All P (suc n) (x ∷ xs) h = (h.0, take-All P n xs h.1)

-- A page is the last, or its cursor is accepted.
abbrev IsFollowed : EventsPage → Type 0
IsFollowed page =
    (page.next_cursor ≡ none) ⊎ ((c : Str) × (page.next_cursor ≡ some c) × (event_cursor c ≡ ok c))

page_of-IsFollowed :
    (n : ℕ) (es : List Event) → All (λ e. e.id ≤ max_i64) es → IsFollowed (page_of n es)
page_of-IsFollowed n es h = elim (Bool-cases (ltb n (length es))) [
  | inl more ↦
      rw more (
        inr (_, refl, event_cursor-format_cursor _ (last_id_bound (take n es) (take-All _ n es h))))
  | inr fits ↦ rw fits (inl refl)
]

module _ (topic_text : Dialect → Json → Option Str) (d : Dialect) (id : Str) (db : Db) where
  -- A client that asks the route for page after page, each with the cursor of the one before it, in
  -- at most `fuel` requests: the events that it was given, or nothing if a request was answered with
  -- anything else or the requests ran out.
  pub list_all : ℕ → Params → Option (List Event)
  list_all zero p = none
  list_all (suc fuel) p = elim (handle_list_events topic_text d ran ran p id db) [
    | data_reply status events next ↦ elim next [
      | none ↦ some events
      | some c ↦ elim (list_all fuel (record p { cursor = c })) [
        | none ↦ none
        | some es ↦ some (events ++ es)
      ]
    ]
    | no_content ↦ none
    | error_reply e ↦ none
  ]

  module _ {c : Contract} (hd : supported d ≡ true) (hid : contract_id id ≡ ok tt)
      (tracked : Contracts.get ran id db ≡ ok c) where
    -- The page that a query is answered with.
    answered :
        (p : Params) {q : EventQuery}
        → parse_event_query p id ≡ ok q
        → InStep (select (matches topic_text q d) db.events)
        → (page : EventsPage) × (query topic_text d ran q db ≡ ok page)
          × (handle_list_events topic_text d ran ran p id db
              ≡ data_reply 200 page.events page.next_cursor)
          × IsFollowed page
    answered p {q} h step =
        let (l, a, _, _, _, found) = query_answered topic_text d p id db hd hid h in
        let rows = answers topic_text q d a db.events in
        let bounds : All (λ e. e.id ≤ max_i64) rows =
          subst (All (λ e. e.id ≤ max_i64)) (sym (answers-eq topic_text d q a db.events step.0))
            (All-select _ _ _ (directed-All _ a _ step.2)) in
        (
          page_of l (take (suc l) rows),
          found,
          handle_list_events-eq topic_text d p id db _ hid h tracked found,
          page_of-IsFollowed l (take (suc l) rows) (take-All _ (suc l) rows bounds),
        )

    list_all-fetch_all :
        (fuel : ℕ) (p : Params) {q : EventQuery}
        → parse_event_query p id ≡ ok q
        → InStep (select (matches topic_text q d) db.events)
        → list_all fuel p ≡ fetch_all topic_text d fuel q db
    unfolding matches fetch_all list_all
    list_all-fetch_all zero p h step = refl
    list_all-fetch_all (suc fuel) p {q} h step =
        let (page, found, reply, followed) = answered p h step in
        elim followed [
          | inl last ↦ rw (found, reply, last, fetch_all, list_all) refl
          | inr (c, next, fine) ↦
              let moved = parse_event_query_moved p id c (parse_event_query_parts p id h) fine in
              rw (found, reply, next, fetch_all, list_all)
                (ap
                  (λ (o : Option (List Event)). elim o [
                    | none ↦ none
                    | some es ↦ some (page.events ++ es)
                  ])
                  (list_all-fetch_all fuel (record p { cursor = c }) moved step))
        ]

    -- A client that starts without a cursor and follows the cursors of the route for a tracked contract
    -- is given, with more requests than rows and parameters that the checks let through, exactly the
    -- rows that the query made of them matches, each once and in the direction of its order, if the
    -- ids of those rows ascend in emission order and fit an int64, on a supported dialect and with the
    -- statements run.
    pub list_all_complete :
        (fuel : ℕ) (p : Params) {q : EventQuery} (ascending : Bool)
        → parse_event_query (record p { cursor = codes "" }) id ≡ ok q
        → order_is_ascending q.order ≡ ok ascending
        → InStep (select (matches topic_text q d) db.events)
        → length (select (matches topic_text q d) db.events) < fuel
        → list_all fuel (record p { cursor = codes "" })
          ≡ some (directed ascending (select (matches topic_text q d) db.events))
    unfolding event_cursor
    list_all_complete fuel p {q} ascending h ho step enough =
        let start : Params = record p { cursor = codes "" } in
        let parsed = parse_event_query_parts start id h in
        let empty : ◌≡◌ {A = Result (ApiError StoreError) Str} (ok (codes "")) (ok q.cursor) =
          parsed.cursor in
        let same : codes "" ≡ q.cursor = cc in
        let (l, _, hl, _, named, _) = query_answered topic_text d start id db hd hid h in
        list_all-fetch_all fuel start h step
        ∙ ap (λ (c : Str). fetch_all topic_text d fuel (record q { cursor = c }) db) (sym same)
        ∙ fetch_all_complete topic_text d q db l fuel ascending named hd hl ho step enough
