-- ===== src/Indexing/Tests.antt =====
-- Examples of the poller over time: a contract is registered, three ledgers close with an event each,
-- one of which cannot be read, and a tick stores the others.
use pulsar_app.Base.{
  ℕ, [], ◌∷◌, ◌<◌, false, codes, contains_byte, select, Ordered, Option, none, some, pos, ◌≤◌, ◌≤ℤ◌,
  Result, ok, ◌≡◌, refl, ap, arith, All, length, true,
}
use pulsar_app.Strconv.{max_i64}
use pulsar_app.Decoder.Tests.{symbols}
use pulsar_app.Store.{sqlite, ran, Db}
use pulsar_app.Store.Contracts.{get, new_contract, with_progress, set_progress}
use pulsar_app.Store.Events.{insert}
use pulsar_app.Api.Tests.{an_id, an_id-accepted, no_topics, params, wanted}
use pulsar_app.Rpc.{EventInfo, Response, CallError, Caller, is_range_error}
use pulsar_app.Rpc.Assemble.{assemble, parse_event_id}
use pulsar_app.Rpc.Transaction.{commit}
use pulsar_app.Rpc.Poller.{Remote, start_of, drain, tick_once}
use pulsar_app.Rpc.Poller.Drain.{Pages}
use pulsar_app.Rpc.Poller.Kept.{kept}
use pulsar_app.Decoder.Decode.{decode, decode_topics, decode_base64}
use pulsar_app.Rpc.Tests.{
  stream, clock, parse_tally, page, capped, capped-eq, page_stands, fair, info_at, server,
  out_of_range, the_window, pages_from,
}
use pulsar_app.Indexing.{System, was_skipped, Ticks, window, Step, Reach}
use pulsar_app.Indexing.Stored.{IsStored}
use pulsar_app.Indexing.Order.Reached.{EmitsInOrder}
use pulsar_app.Indexing.Listed.{list_all_indexed}
use pulsar_app.Validate.{
  event_limit, event_order, event_cursor, ledger_bound, ledger_range, event_filter_text,
  valid_string,
}
use pulsar_app.Store.Query.{EventQuery, order_is_ascending, before}
use pulsar_app.Store.Query.Plan.{matches}
use pulsar_app.Store.Query.Direction.{directed}
use pulsar_app.Api.{Params, parse_event_query}
use pulsar_app.Api.Paging.{list_all}
use pulsar_app.Indexing.Served.{IsAnswered, tick_served}
use pulsar_app.Store.Integrity.{empty-IsIntegral}
use pulsar_app.Indexing.Complete.{IsFresh, nothing_lost, tick_catches_up}

abbrev answer : Option ℕ → ℕ → Result CallError Response
answer (some c) limit = capped limit (ok (page c limit))
answer none limit = capped limit (ok (page 0 limit))

-- A server that has every ledger.
abbrev pub archive : Caller ℕ (Unit {0})
archive = record {
  get_events = λ req s. (answer req.cursor req.limit, s);
  get_health = λ s. (ok (record { latest_ledger = 20; oldest_ledger = 1 }), s);
}

abbrev pub start_db : Db
start_db = record { contracts = new_contract an_id 5 ∷ []; events = []; sequence = 0 }

abbrev pub at_registration : System
at_registration = record { db = start_db; tip = 9; emitted = []; skipped = [] }

abbrev pub closed : System
closed = record { db = start_db; tip = 12; emitted = stream; skipped = [] }

pub read : get ran an_id start_db ≡ ok (new_contract an_id 5)
unfolding get
read = refl

pub registered-IsFresh : IsFresh an_id at_registration
registered-IsFresh = record {
  contract = new_contract an_id 5;
  tracked = read;
  unread = refl;
  none_skipped = refl;
  small = omega arith;
  positive = tt;
}

pub closed-Reach : Reach symbols clock archive parse_tally sqlite an_id at_registration closed
closed-Reach =
    Reach.next Reach.here (Step.closes 12 stream (omega arith) (omega arith) (omega arith))

pub pages :
    Pages symbols clock archive parse_tally tt
      (start_of (pos 0))
      an_id
      (window (start_of (pos 0)) stream)
unfolding start_of
pages = record {
  issued = λ c. true;
  position = λ c. c;
  first_text = λ limit. (page 0 limit).cursor;
  later_text = λ c limit. (page c limit).cursor;
  first_page = λ limit k l. ap (λ r. (r, tt)) (capped-eq limit (ok (page 0 limit)) k l);
  first_cursor = λ limit k l more.
      let (n, parses, given, at) = page_stands 0 limit k more in
      (n, parses, given, omega (arith, at));
  later_page = λ c limit given k l. ap (λ r. (r, tt)) (capped-eq limit (ok (page c limit)) k l);
  later_cursor = λ c limit given k l more. page_stands c limit k more;
}

abbrev pub remote : Remote (Unit {0})
remote = record { server = tt; unknown = 0 }

abbrev pub filled_db : Db
filled_db = (commit sqlite fair an_id (kept symbols clock an_id stream) (pos 12) start_db).1

pub ticked :
    Ticks symbols clock archive parse_tally sqlite an_id 4 ran fair 1 start_db remote
      (ok tt)
      filled_db
      remote
unfolding tick_once drain start_of commit insert set_progress get assemble parse_event_id
    decode_topics decode_base64 decode
ticked = refl

got : get ran an_id filled_db ≡ ok (with_progress (pos 12) (new_contract an_id 5))
unfolding get commit insert set_progress assemble decode_topics
got = refl

abbrev caught_up : System
caught_up = record { db = filled_db; tip = 12; emitted = stream; skipped = [] }

caught_up-Reach : Reach symbols clock archive parse_tally sqlite an_id at_registration caught_up
unfolding start_of
caught_up-Reach = Reach.next closed-Reach (
    Step.reads (new_contract an_id 5) 4 1 fair remote (ok tt) filled_db remote read pages
      (omega arith) (omega arith) ticked)

-- An event of a ledger that the server no longer has when the first tick comes.
abbrev early : EventInfo
early = info_at (codes "0-0") (pos 3)

abbrev registered_early : System
registered_early = record { db = start_db; tip = 2; emitted = []; skipped = [] }

abbrev closed_late : System
closed_late = record { db = start_db; tip = 12; emitted = early ∷ stream; skipped = [] }

-- The tick is rejected, skips the ledgers from 1 to 4, and reads the rest.
abbrev after_skip : System
after_skip = record { db = filled_db; tip = 12; emitted = early ∷ stream; skipped = (1, 5) ∷ [] }

registered_early-IsFresh : IsFresh an_id registered_early
registered_early-IsFresh = record {
  contract = new_contract an_id 5;
  tracked = read;
  unread = refl;
  none_skipped = refl;
  small = omega arith;
  positive = tt;
}

skipping :
    Ticks symbols clock server parse_tally sqlite an_id 4 ran fair 1 start_db remote
      (ok tt)
      filled_db
      remote
unfolding tick_once drain start_of is_range_error commit insert set_progress get assemble
    parse_event_id decode_topics decode_base64 decode
skipping = refl

after_skip-Reach : Reach symbols clock server parse_tally sqlite an_id registered_early after_skip
unfolding start_of is_range_error
after_skip-Reach =
    Reach.next
      (Reach.next Reach.here
        (Step.closes 12 (early ∷ stream) (omega arith) (omega arith) (omega arith)))
      (Step.skips (new_contract an_id 5) 4 1 0 fair tt out_of_range the_window (ok tt) filled_db
        remote read refl (refl, refl, omega arith) (omega arith) (omega arith)
        (pages_from an_id 5 refl) (omega arith) (omega arith) skipping)

nothing_lost_example :
    All
      (λ x.
        x.ledger ≤ℤ pos 12
        → was_skipped ((1, 5) ∷ []) x.ledger ≡ false
        → IsStored symbols clock an_id filled_db.events x)
      (early ∷ stream)
nothing_lost_example =
    nothing_lost symbols clock an_id server parse_tally sqlite registered_early-IsFresh
      after_skip-Reach (with_progress (pos 12) (new_contract an_id 5)) got

tick_catches_up_test :
    All
      (λ x. was_skipped [] x.ledger ≡ false → IsStored symbols clock an_id filled_db.events x)
      stream
unfolding start_of
tick_catches_up_test =
    tick_catches_up symbols clock an_id archive parse_tally sqlite registered-IsFresh closed-Reach
      (new_contract an_id 5) read 4 1 fair remote remote filled_db pages (omega arith) (omega arith)
      ticked

small_keys : All (λ e. e.id ≤ max_i64) filled_db.events
unfolding commit insert assemble decode_topics set_progress
small_keys = (omega arith, (omega arith, tt))

tick_served_example :
    All (λ x. was_skipped [] x.ledger ≡ false → IsAnswered symbols clock an_id filled_db x) stream
unfolding start_of
tick_served_example =
    tick_served symbols clock an_id archive parse_tally sqlite registered-IsFresh
      (empty-IsIntegral sqlite (new_contract an_id 5 ∷ []) 0 (tt, tt)) closed-Reach
      (new_contract an_id 5) read 4 1 fair remote remote filled_db pages (omega arith) (omega arith)
      ticked small_keys

-- A request for all of the contract's events.
abbrev any_name : EventQuery
any_name = record wanted { name = []; from_ledger = pos 0; cursor = codes "" }

abbrev without_name : Params
without_name = record params { name = codes ""; from_ledger = codes "" }

any_name-parsed : parse_event_query (record without_name { cursor = codes "" }) an_id ≡ ok any_name
unfolding parse_event_query event_limit event_order event_cursor ledger_bound ledger_range
    event_filter_text valid_string contains_byte
any_name-parsed = refl

caught_up-EmitsInOrder : EmitsInOrder symbols clock an_id caught_up
unfolding assemble decode_topics
caught_up-EmitsInOrder = ((refl, tt), (tt, tt))

few_rows : length (select (matches no_topics any_name sqlite) filled_db.events) < 4
unfolding matches commit insert assemble decode_topics set_progress
few_rows = omega arith

list_all_indexed_example :
    (list_all no_topics sqlite an_id filled_db 4 (record without_name { cursor = codes "" })
      ≡ some (directed false (select (matches no_topics any_name sqlite) filled_db.events)))
    × Ordered before (select (matches no_topics any_name sqlite) filled_db.events)
unfolding order_is_ascending
list_all_indexed_example =
    list_all_indexed symbols clock archive parse_tally sqlite an_id no_topics registered-IsFresh
      refl (empty-IsIntegral sqlite (new_contract an_id 5 ∷ []) 0 (tt, tt)) caught_up-Reach
      caught_up-EmitsInOrder refl an_id-accepted 4 without_name false any_name-parsed refl
      small_keys few_rows
