-- ===== src/Indexing/Listed.antt =====
-- indexer/internal/rpc/events.go and indexer/internal/api/handlers.go over time: the pages that a client
-- of the route for events is given while the poller works.
use pulsar_app.Base.{
  ℕ, Bool, ◌≤◌, ◌<◌, true, [], Option, some, Str, codes, Json, ok, ◌≡◌, sym, ◌∙◌, subst, arith, All,
  All-select, Ordered, Ordered-select, select, select-select, select-congr, length, ltb,
}
use pulsar_app.Strconv.{max_i64}
use pulsar_app.Decoder.Xdr.{XdrLib}
use pulsar_app.Validate.{contract_id}
use pulsar_app.Store.{Dialect, Event, Db}
use pulsar_app.Store.Events.Emission.{precedes, is_of}
use pulsar_app.Store.Integrity.{IsIntegral}
use pulsar_app.Store.Query.{EventQuery, supported, order_is_ascending, before}
use pulsar_app.Store.Query.Plan.{matches}
use pulsar_app.Store.Query.Direction.{InStep, Ordered-map, directed}
use pulsar_app.Rpc.{Caller}
use pulsar_app.Api.{Params, parse_event_query}
use pulsar_app.Api.Answers.{parse_event_query_parts}
use pulsar_app.Api.Paging.{list_all, list_all_complete}
use pulsar_app.Indexing.{System, Reach}
use pulsar_app.Indexing.Complete.{IsFresh, IsFresh-Inv}
use pulsar_app.Indexing.Invariant.Steps.{Reach-Inv}
use pulsar_app.Indexing.Served.{Reach-IsIntegral}
use pulsar_app.Indexing.Order.{rows_of, InOrder}
use pulsar_app.Indexing.Order.Reached.{EmitsInOrder, Reach-InOrder}

precedes-before : (a b : Event) → precedes a b ≡ true → before a b ≡ true
precedes-before a b h = ground arith

-- What a query of a contract's events matches is among the contract's rows.
matches-is_of :
    (topic_text : Dialect → Json → Option Str) (d : Dialect) (q : EventQuery) (id : Str) (db : Db)
    → q.contract_id ≡ id
    → select (matches topic_text q d) (rows_of id db) ≡ select (matches topic_text q d) db.events
unfolding matches
matches-is_of topic_text d q id db same =
    select-select (matches topic_text q d) (is_of id) db.events
    ∙ select-congr _ _ db.events (λ e. rw (sym same) (ground arith))

-- On rows in emission order with ascending ids, what a query matches is so too.
InOrder-InStep :
    (topic_text : Dialect → Json → Option Str) (d : Dialect) (q : EventQuery) (id : Str) (db : Db)
    → q.contract_id ≡ id
    → InOrder id db
    → Ordered (λ e f. ltb e.id f.id) db.events
    → All (λ e. e.id ≤ max_i64) db.events
    → InStep (select (matches topic_text q d) db.events)
InOrder-InStep topic_text d q id db same h ascend bound = (
  Ordered-map precedes before precedes-before _ (
      subst (Ordered precedes) (matches-is_of topic_text d q id db same)
        (Ordered-select precedes (matches topic_text q d) (rows_of id db) h.ordered)),
  Ordered-select _ (matches topic_text q d) db.events ascend,
  All-select _ (matches topic_text q d) db.events bound,
)

module _ (xdr : XdrLib) (parse_time : Str → Option ℕ) {Cursor Server : Type 0}
    (caller : Caller Cursor Server) (parse_cursor : Str → Option Cursor) (d : Dialect) (id : Str)
    (topic_text : Dialect → Json → Option Str) where
  -- From the registration on of a contract that has no rows, in integral tables, while no contract is
  -- deleted, whatever the database and the other contracts do, against a server that may fail, reject
  -- a tick or have lost ledgers, but pages as ADR-028 has it where it answers a whole drain, and if
  -- the contract emits its events in the order of their ledgers and indices: a client that follows
  -- the cursors of the route for the contract is given, with more requests than rows and parameters
  -- that the checks let through, exactly the rows that the query made of them matches, each once, and
  -- these rows are in emission order, if the keys of the table fit an int64, on a supported dialect
  -- and with the statements run.
  pub list_all_indexed :
      {s t : System} (fresh : IsFresh id s)
      → rows_of id s.db ≡ []
      → IsIntegral d s.db
      → Reach xdr parse_time caller parse_cursor d id s t
      → EmitsInOrder xdr parse_time id t
      → supported d ≡ true
      → contract_id id ≡ ok tt
      → (fuel : ℕ) (p : Params) {q : EventQuery} (ascending : Bool)
      → parse_event_query (record p { cursor = codes "" }) id ≡ ok q
      → order_is_ascending q.order ≡ ok ascending
      → All (λ e. e.id ≤ max_i64) t.db.events
      → length (select (matches topic_text q d) t.db.events) < fuel
      → (list_all topic_text d id t.db fuel (record p { cursor = codes "" })
          ≡ some (directed ascending (select (matches topic_text q d) t.db.events)))
        × Ordered before (select (matches topic_text q d) t.db.events)
  list_all_indexed {s} {t} fresh none_yet integral reach emits hd hid fuel p {q} ascending h ho
        bound enough =
      let inv0 = IsFresh-Inv xdr parse_time id s fresh in
      let inv = Reach-Inv xdr parse_time id caller parse_cursor d inv0 reach in
      let first : InOrder id s.db = record {
        ordered = rw none_yet tt;
        below = λ c got. rw none_yet tt;
      } in
      let order = Reach-InOrder xdr parse_time id caller parse_cursor d inv0 first reach emits in
      let whole = Reach-IsIntegral xdr parse_time id caller parse_cursor d integral reach in
      let parsed = parse_event_query_parts (record p { cursor = codes "" }) id h in
      let step =
        InOrder-InStep topic_text d q id t.db parsed.contract_id order whole.sound.keys_ascend
          bound in
      (
        list_all_complete topic_text d id t.db hd hid inv.tracked fuel p ascending h ho step enough,
        step.0,
      )
