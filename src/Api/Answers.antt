-- ===== src/Api/Answers.antt =====
-- indexer/internal/api/handlers.go: parseEventQuery and handleListEvents, against the store's own
-- checks.
use pulsar_app.Base.{
  ℕ, suc, Bool, true, false, [], ◌∷◌, Option, some, none, Str, codes, eq_str, eq_str_refl, ℤ, pos,
  Json, Result, ok, err, ◌≡◌, ◌≢◌, refl, sym, ap, ap₂, ◌∙◌, subst, inl, inr, arith, take,
  Bool-cases, >>=-eq-ok, ◌>>=◌, map_err, if◌then◌else◌,
}
use pulsar_app.Strconv.Decimal.{value}
use pulsar_app.Validate.{
  Sentinel, event_limit, event_order, event_cursor, contract_id, asc, desc, err_order,
}
use pulsar_app.Validate.Accepts.{event_limit_iff, event_cursor_iff}
use pulsar_app.Validate.Text.{contract_id_iff}
use pulsar_app.ApiError.{ApiError, Code, code_not_found_contract, error_status, registry}
use pulsar_app.Store.{StoreError, not_found, Dialect, Db, ran, Contract}
use pulsar_app.Store.Contracts as Contracts
use pulsar_app.Store.Contracts.{find, delete}
use pulsar_app.Store.Contracts.Laws.{delete_lem}
use pulsar_app.Store.Query.{
  EventQuery, EventsPage, Builder, add, cursor_clause, number, query, supported, resolve_page_size,
  order_is_ascending, with_cursor, filters, page_of,
}
use pulsar_app.Store.Query.Builders.{with_cursor_cons, parse_cursor-digits}
use pulsar_app.Store.Query.Plan.{answers}
use pulsar_app.Store.Query.Pages.{query-eq}
use pulsar_app.Api.{
  Params, data_reply, no_content, error_reply, handle_delete_contract, delete_checked,
  handle_get_contract, deleted, fail, limit_param, order_param, cursor_param, from_param, to_param,
  name_param, topic_param, window_check, parse_event_query, handle_list_events, reply_with,
  bad_contract_id, store_error,
}

fail-eq-ok :
    {A : Type 0} (code : Code) (message : Str) (r : Result Sentinel A) {a : A}
    → fail code message r ≡ ok a
    → r ≡ ok a
fail-eq-ok code message (ok b) {a} h =
    let k : ◌≡◌ {A = Result (ApiError StoreError) _} (ok b) (ok a) = h in
    let m : b ≡ a = cc in ap ok m
fail-eq-ok code message (err e) h = absurd cc

ok-inj {ℓ} : {E : Type 0} {A : Type ℓ} {a b : A} → ◌≡◌ {A = Result E A} (ok a) (ok b) → a ≡ b
ok-inj h = cc

limit_ok : (raw : Str) (n : ℤ) → event_limit raw ≡ ok n → (l : ℕ) × (resolve_page_size n ≡ ok l)
unfolding resolve_page_size
limit_ok raw n h = elim ((event_limit_iff raw n).0 h) [
  | inl k ↦ (50, rw (k.1))
  | inr k ↦ (value raw, rw (k.4) (ground (arith, k.2, k.3)))
]

order_ok :
    (raw order : Str) → event_order raw ≡ ok order → (a : Bool) × (order_is_ascending order ≡ ok a)
unfolding event_order order_is_ascending
order_ok raw order h = elim (Bool-cases (eq_str raw [])) [
  | inl e ↦
      let k : ok desc ≡ ok order = rw e at h in let m : desc ≡ order = cc in (false, rw (sym m))
  | inr e ↦ elim (Bool-cases (eq_str raw asc)) [
    | inl f ↦
        let k : ok raw ≡ ok order = rw (e, f) at h in
        let m : raw ≡ order = cc in (true, rw (sym m) (rw (e, f)))
    | inr f ↦ elim (Bool-cases (eq_str raw desc)) [
      | inl g ↦
          let k : ok raw ≡ ok order = rw (e, f, g) at h in
          let m : raw ≡ order = cc in (false, rw (sym m) (rw (e, f, g)))
      | inr g ↦ let k : err err_order ≡ ok order = rw (e, f, g) at h in absurd cc
    ]
  ]
]

cursor_ok :
    (raw cursor : Str) (a : Bool) (b : Builder)
    → event_cursor raw ≡ ok cursor
    → (b' : Builder) × (with_cursor cursor a b ≡ ok b')
unfolding with_cursor
cursor_ok raw cursor a b h =
    let (same, form) = (event_cursor_iff raw cursor).0 h in
    elim form [
      | inl empty ↦ (b, rw (same ∙ empty))
      | inr (ne, all, bound) ↦ (
        add (cursor_clause a) (number (pos (value raw))) b,
        rw same (with_cursor_cons raw a b ne ∙ rw (parse_cursor-digits raw ne all bound) refl),
      )
    ]

id-ne-nil : (id : Str) → contract_id id ≡ ok tt → id ≢ []
id-ne-nil [] h = let (count, _) = (contract_id_iff []).0 h in absurd (omega (arith, count))
id-ne-nil (c ∷ s) h = λ k. cc

-- What parseEventQuery has checked of a query that it makes.
pub record IsParsed (p : Params) (id : Str) (q : EventQuery) : Type 0 where
  pub limit : limit_param p ≡ ok q.limit
  pub order : order_param p ≡ ok q.order
  pub cursor : cursor_param p ≡ ok q.cursor
  pub from_ledger : from_param p ≡ ok q.from_ledger
  pub to_ledger : to_param p ≡ ok q.to_ledger
  pub window : window_check q.from_ledger q.to_ledger ≡ ok tt
  pub name : name_param p ≡ ok q.name
  pub topic : topic_param p ≡ ok q.topic_contains
  pub contract_id : q.contract_id ≡ id

pub parse_event_query_parts :
    (p : Params) (id : Str) {q : EventQuery} → parse_event_query p id ≡ ok q → IsParsed p id q
unfolding parse_event_query
parse_event_query_parts p id {q} h =
    let (limit, h1, k1) = >>=-eq-ok (limit_param p) _ h in
    let (order, h2, k2) = >>=-eq-ok (order_param p) _ k1 in
    let (cursor, h3, k3) = >>=-eq-ok (cursor_param p) _ k2 in
    let (from, h4, k4) = >>=-eq-ok (from_param p) _ k3 in
    let (to, h5, k5) = >>=-eq-ok (to_param p) _ k4 in
    let (u, h6, k6) = >>=-eq-ok (window_check from to) _ k5 in
    let (name, h7, k7) = >>=-eq-ok (name_param p) _ k6 in
    let (topic, h8, k8) = >>=-eq-ok (topic_param p) _ k7 in
    subst (IsParsed p id) (ok-inj k8) (record {
      limit = h1;
      order = h2;
      cursor = h3;
      from_ledger = h4;
      to_ledger = h5;
      window = h6;
      name = h7;
      topic = h8;
      contract_id = refl;
    })

-- The parameters with another cursor make the query with that cursor.
pub parse_event_query_moved :
    (p : Params) (id c : Str) {q : EventQuery}
    → IsParsed p id q
    → event_cursor c ≡ ok c
    → parse_event_query (record p { cursor = c }) id ≡ ok (record q { cursor = c })
unfolding parse_event_query
parse_event_query_moved p id c {q} k h =
    rw (k.limit, k.order, h, k.from_ledger, k.to_ledger, k.window, k.name, k.topic)
      (ap (λ (i : Str). ok (record q { contract_id = i; cursor = c })) (sym k.contract_id))

module _ (topic_text : Dialect → Json → Option Str) where
  -- The store answers every query that the parameters' checks let through, with a page of its rows.
  pub query_answered :
      (d : Dialect) (p : Params) (id : Str) (db : Db) {q : EventQuery}
      → supported d ≡ true
      → contract_id id ≡ ok tt
      → parse_event_query p id ≡ ok q
      → (l : ℕ) × (a : Bool) × (resolve_page_size q.limit ≡ ok l)
        × (order_is_ascending q.order ≡ ok a)
        × (q.contract_id ≢ [])
        × (query topic_text d ran q db
            ≡ ok (page_of l (take (suc l) (answers topic_text q d a db.events))))
  query_answered d p id db {q} hd hid h =
      let parsed = parse_event_query_parts p id h in
      let (l, hl) = limit_ok p.limit q.limit (fail-eq-ok _ _ (event_limit p.limit) parsed.limit) in
      let (a, ha) = order_ok p.order q.order (fail-eq-ok _ _ (event_order p.order) parsed.order) in
      let (b, hb) =
        cursor_ok p.cursor q.cursor a (filters q d)
          (fail-eq-ok _ _ (event_cursor p.cursor) parsed.cursor) in
      let named : q.contract_id ≢ [] =
        subst (λ i. i ≢ []) (sym parsed.contract_id) (id-ne-nil id hid) in
      (l, a, hl, ha, named, query-eq topic_text d q db l a b named hd hl ha hb)

  pub handle_list_events-eq :
      (d : Dialect) (p : Params) (id : Str) (db : Db) {q : EventQuery} {c : Contract}
      (page : EventsPage)
      → contract_id id ≡ ok tt
      → parse_event_query p id ≡ ok q
      → Contracts.get ran id db ≡ ok c
      → query topic_text d ran q db ≡ ok page
      → handle_list_events topic_text d ran ran p id db
        ≡ data_reply 200 page.events page.next_cursor
  unfolding handle_list_events reply_with
  handle_list_events-eq d p id db page hid h hc answered = rw (hid, h, hc, answered)

  -- A request for a tracked contract whose parameters are accepted is answered with the page that the
  -- store gives for the query made of them: the store refuses no query that the checks let through.
  pub handle_list_events_lem :
      (d : Dialect) (p : Params) (id : Str) (db : Db) {q : EventQuery} {c : Contract}
      → supported d ≡ true
      → contract_id id ≡ ok tt
      → parse_event_query p id ≡ ok q
      → Contracts.get ran id db ≡ ok c
      → (page : EventsPage) × (query topic_text d ran q db ≡ ok page)
        × (handle_list_events topic_text d ran ran p id db
            ≡ data_reply 200 page.events page.next_cursor)
  handle_list_events_lem d p id db hd hid h hc =
      let (l, a, _, _, _, answered) = query_answered d p id db hd hid h in
      (_, answered, handle_list_events-eq d p id db _ hid h hc answered)

untracked : ApiError StoreError
untracked = record {
  code = code_not_found_contract;
  message = codes "The indexer is not tracking this contract.";
  cause = none;
}

-- Deleting a tracked contract is answered without content, and a read of it afterwards is answered
-- with the code of a contract that is not tracked and the status 404.
pub handle_delete_contract_lem :
    (id : Str) (db : Db) {c : Contract}
    → contract_id id ≡ ok tt
    → find id db.contracts ≡ some c
    → ((handle_delete_contract ran id db).0 ≡ no_content)
      × ((e : ApiError StoreError) × (handle_get_contract ran id
              (handle_delete_contract ran id db).1
            ≡ error_reply e)
          × (e.code ≡ code_not_found_contract)
          × (error_status e ≡ 404))
unfolding handle_delete_contract untracked delete_checked handle_get_contract deleted reply_with
    error_status store_error registry
handle_delete_contract_lem id db hid hc =
    let (gone, _, gets) = delete_lem id db hc in
    let missing : Contracts.get ran id (delete ran id db).1 ≡ err not_found =
      gets id ∙ ap (λ b. if b then err not_found else Contracts.get ran id db) (eq_str_refl id) in
    let done : handle_delete_contract ran id db ≡ (no_content, (delete ran id db).1) =
      ap (λ r. delete_checked ran id r db) hid ∙ ap (λ r. deleted (r, (delete ran id db).1)) gone in
    let read : handle_get_contract ran id (delete ran id db).1 ≡ error_reply untracked =
      ap₂
        (λ r s.
          reply_with (λ (c : Contract). data_reply 200 c none)
            (map_err (λ e. bad_contract_id) r >>= λ u.
              map_err
                (store_error code_not_found_contract
                  (codes "The indexer is not tracking this contract.")
                  (codes "The indexer could not read the contract."))
                s))
        hid missing in
    (
      ap (λ p. p.0) done,
      (untracked, ap (λ p. handle_get_contract ran id p.1) done ∙ read, refl, refl),
    )
