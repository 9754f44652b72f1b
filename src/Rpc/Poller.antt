-- ===== src/Rpc/Poller.antt =====
-- indexer/internal/rpc/events.go: drain, tickOnce and handleRangeError. The server's answers, the
-- cursor's parser, the clock's format, the XDR library and what the database did with each statement
-- are arguments.
pub mod Drain
pub mod Tick
pub mod Kept
pub mod Failed
pub mod Integrity
use pulsar_app.Base.{
  ℕ, zero, suc, ◌+◌, ◌%◌, ◌^◌, List, [], ◌∷◌, ◌++◌, Option, none, some, Str, ltb, ◌==◌,
  if◌then◌else◌, ℤ, pos, negsuc, ltb_ℤ, Result, ok, err, length,
}
use pulsar_app.Strconv.{max_i64}
use pulsar_app.Decoder.Xdr.{XdrLib}
use pulsar_app.Store.{Outcome, StoreError, Dialect, Contract, Event, Db}
use pulsar_app.Store.Contracts as Contracts
use pulsar_app.Rpc.{
  EventInfo, Request, Response, Health, CallError, Caller, PollError, call, bad_page_cursor, window,
  from_floor, not_outside, reading_progress, is_range_error,
}
use pulsar_app.Rpc.Assemble.{assemble}
use pulsar_app.Rpc.Transaction.{TxOutcome, commit}

-- The ledger that a tick starts at, an int64 sum made a uint32.
unfoldable pub start_of : ℤ → ℕ
start_of (pos n) = if n == max_i64 then 1 else suc n % 2 ^ 32
start_of (negsuc n) = 1

-- The events of a drain and the highest ledger among them.
pub record Drained : Type 0 where
  pub events : List Event
  pub highest : ℤ

-- What a poller changes beside the database: the server and the decoder's counter.
pub record Remote (Server : Type 0) : Type 0 where
  pub server : Server
  pub unknown : ℕ

module _ (xdr : XdrLib) (parse_time : Str → Option ℕ) {Cursor Server : Type 0}
    (caller : Caller Cursor Server) (parse_cursor : Str → Option Cursor) where
  abbrev pub keep : Option Event → Drained → Drained
  keep none d = d
  keep (some e) d = record {
    events = d.events ++ e ∷ [];
    highest = if ltb_ℤ d.highest e.ledger then e.ledger else d.highest;
  }

  -- The loop over a page: an event that cannot be assembled is skipped.
  pub take_page : Str → List EventInfo → Drained → ℕ → Drained × ℕ
  take_page contract_id [] d count = (d, count)
  take_page contract_id (info ∷ infos) d count =
      let (event, c) = assemble xdr parse_time contract_id info count in
      take_page contract_id infos (keep event d) c

  abbrev pub Drain : Type 0
  Drain = Option (Result PollError Drained × Remote Server)

  abbrev pub next_request : Cursor → ℕ → Request Cursor → Request Cursor
  next_request next batch req = record req { start_ledger = 0; cursor = some next; limit = batch }

  -- The end of a turn: the page's cursor, and its length against the batch's.
  page_end :
      (Request Cursor → Drained → Remote Server → Drain)
      → ℕ
      → Request Cursor
      → Response
      → Drained
      → Remote Server
      → Option Cursor
      → Drain
  page_end again batch req resp d r none = some (err (bad_page_cursor resp.cursor), r)
  page_end again batch req resp d r (some next) =
      if ltb (length resp.events) batch
      then some (ok d, r)
      else again (next_request next batch req) d r

  page_walked :
      (Request Cursor → Drained → Remote Server → Drain)
      → ℕ
      → Request Cursor
      → Response
      → Drained
      → Remote Server
      → List EventInfo
      → Drain
  unfolding page_end
  page_walked again batch req resp d r [] = some (ok d, r)
  page_walked again batch req resp d r (info ∷ infos) =
      page_end again batch req resp d r (parse_cursor resp.cursor)

  -- One turn, on the answer to its request; `again` is the next turn.
  turn :
      (Request Cursor → Drained → Remote Server → Drain)
      → Str
      → ℕ
      → Request Cursor
      → Drained
      → ℕ
      → Result CallError Response × Server
      → Drain
  unfolding page_walked take_page
  turn again contract_id batch req d count (err e, server) =
      some (err (call e), record { server = server; unknown = count })
  turn again contract_id batch req d count (ok resp, server) =
      let (d', c) = take_page contract_id resp.events d count in
      page_walked again batch req resp d' (record { server = server; unknown = c }) resp.events

  -- The loop over pages, in at most `fuel` turns; `none` is a loop that is still running.
  pub drain_pages : ℕ → Str → ℕ → Request Cursor → Drained → Remote Server → Drain
  unfolding turn
  drain_pages zero contract_id batch req d r = none
  drain_pages (suc fuel) contract_id batch req d r =
      turn (drain_pages fuel contract_id batch) contract_id batch req d r.unknown
        (caller.get_events req r.server)

  -- `drain`
  unfoldable pub drain : ℕ → Str → ℕ → ℕ → Remote Server → Drain
  unfolding drain_pages
  drain fuel contract_id batch start_ledger r =
      drain_pages fuel contract_id batch
        (record {
          start_ledger = start_ledger;
          contract_id = contract_id;
          cursor = none;
          limit = batch;
        })
        (record { events = []; highest = pos 0 }) r

  abbrev pub Ticked : Type 0
  Ticked = Option (Result PollError (Unit {0}) × Db × Remote Server)

  -- The end of a drain that went well: nothing to write, or a commit.
  pub commit_drained : Dialect → TxOutcome → Str → Drained → Db → Result PollError (Unit {0}) × Db
  unfolding commit
  commit_drained dialect o contract_id d db = elim d.events [
    | [] ↦ (ok tt, db)
    | e ∷ es ↦ commit dialect o contract_id (e ∷ es) d.highest db
  ]

  -- The end of a drain from the new floor.
  drained_from_floor : Dialect → TxOutcome → Str → Db → Drain → Ticked
  unfolding commit_drained
  drained_from_floor dialect o contract_id db none = none
  drained_from_floor dialect o contract_id db (some (err e, r)) = some (err (from_floor e), db, r)
  drained_from_floor dialect o contract_id db (some (ok d, r)) =
      let (result, db') = commit_drained dialect o contract_id d db in some (result, db', r)

  -- The switch of `handleRangeError`, on fresh bounds.
  range_switch :
      ℕ → Dialect → TxOutcome → Str → ℕ → ℕ → CallError → Health → Db → Remote Server → Ticked
  unfolding drained_from_floor drain
  range_switch fuel dialect o contract_id batch start_ledger e health db r =
      if ltb health.latest_ledger start_ledger
      then some (ok tt, db, r)
      else if ltb start_ledger health.oldest_ledger
      then drained_from_floor dialect o contract_id db
          (drain fuel contract_id batch health.oldest_ledger r)
      else some (err (not_outside start_ledger health e), db, r)

  with_health :
      ℕ
      → Dialect
      → TxOutcome
      → Str
      → ℕ
      → ℕ
      → CallError
      → Db
      → ℕ
      → Result CallError Health × Server
      → Ticked
  unfolding range_switch
  with_health fuel dialect o contract_id batch start_ledger e db count (err he, server) =
      some (err (window he), db, record { server = server; unknown = count })
  with_health fuel dialect o contract_id batch start_ledger e db count (ok health, server) =
      range_switch fuel dialect o contract_id batch start_ledger e health db
        (record { server = server; unknown = count })

  -- `handleRangeError`
  unfoldable pub handle_range_error :
      ℕ → Dialect → TxOutcome → Str → ℕ → ℕ → CallError → Db → Remote Server → Ticked
  unfolding with_health
  handle_range_error fuel dialect o contract_id batch start_ledger e db r =
      with_health fuel dialect o contract_id batch start_ledger e db r.unknown
        (caller.get_health r.server)

  -- A failed drain: a range error of a call is handled, any other error is returned.
  drain_failed : ℕ → Dialect → TxOutcome → Str → ℕ → ℕ → PollError → Db → Remote Server → Ticked
  unfolding handle_range_error is_range_error
  drain_failed fuel dialect o contract_id batch start_ledger (call e) db r =
      if is_range_error e
      then handle_range_error fuel dialect o contract_id batch start_ledger e db r
      else some (err (call e), db, r)
  drain_failed fuel dialect o contract_id batch start_ledger e db r = some (err e, db, r)

  after_drain :
      ℕ
      → Dialect
      → TxOutcome
      → Str
      → ℕ
      → ℕ
      → Db
      → Option (Result PollError Drained × Remote Server)
      → Ticked
  unfolding drain_failed commit_drained
  after_drain fuel dialect o contract_id batch start_ledger db none = none
  after_drain fuel dialect o contract_id batch start_ledger db (some (err e, r)) =
      drain_failed fuel dialect o contract_id batch start_ledger e db r
  after_drain fuel dialect o contract_id batch start_ledger db (some (ok d, r)) =
      let (result, db') = commit_drained dialect o contract_id d db in some (result, db', r)

  with_progress_read :
      ℕ → Dialect → TxOutcome → Str → ℕ → Db → Remote Server → Result StoreError Contract → Ticked
  unfolding start_of after_drain
  with_progress_read fuel dialect o contract_id batch db r (err e) =
      some (err (reading_progress e), db, r)
  with_progress_read fuel dialect o contract_id batch db r (ok c) =
      let start_ledger = start_of c.last_indexed_ledger in
      after_drain fuel dialect o contract_id batch start_ledger db
        (drain fuel contract_id batch start_ledger r)

  -- `tickOnce`
  unfoldable pub tick_once :
      ℕ → Dialect → Outcome → TxOutcome → Str → ℕ → Db → Remote Server → Ticked
  unfolding with_progress_read
  tick_once fuel dialect read o contract_id batch db r =
      with_progress_read fuel dialect o contract_id batch db r (Contracts.get read contract_id db)
