-- ===== src/Rpc/Poller/Tick.antt =====
-- indexer/internal/rpc/events.go: tickOnce and handleRangeError.
use pulsar_app.Base.{
  ℕ, zero, suc, ◌≤◌, ◌<◌, true, false, List, [], Option, none, some, Str, ltb, pos, ok, err, ◌≡◌,
  refl, ap, ◌∙◌, arith, length,
}
use pulsar_app.Decoder.Xdr.{XdrLib}
use pulsar_app.Store.{ran, Dialect, Contract, Db}
use pulsar_app.Store.Contracts as Contracts
use pulsar_app.Rpc.{
  EventInfo, Request, Health, CallError, Caller, call, not_outside, is_range_error,
}
use pulsar_app.Rpc.Transaction.{TxOutcome}
use pulsar_app.Rpc.Poller.{
  Drained, Remote, Ticked, commit_drained, drained_from_floor, with_progress_read, start_of,
  after_drain, drain_failed, handle_range_error, with_health, range_switch, drain, drain_pages,
  turn, tick_once,
}
use pulsar_app.Rpc.Poller.Drain.{limit_cap, Pages, pass, drain_complete}

module _ (xdr : XdrLib) (parse_time : Str → Option ℕ) {Cursor Server : Type 0}
    (caller : Caller Cursor Server) (parse_cursor : Str → Option Cursor) where
  abbrev pub nothing_yet : Drained
  nothing_yet = record { events = []; highest = pos 0 }

  -- What a tick leaves that read all of a window: the commit of what one pass over it keeps.
  abbrev pub indexed_window :
      Dialect
      → TxOutcome
      → Str
      → List EventInfo
      → Db
      → Server
      → ℕ
      → Ticked xdr parse_time caller parse_cursor
  indexed_window dialect o id stream db server count =
      let (d, c) = pass xdr parse_time caller parse_cursor id stream nothing_yet count in
      let (result, db') = commit_drained xdr parse_time caller parse_cursor dialect o id d db in
      some (result, db', record { server = server; unknown = c })

  module _ (fuel : ℕ) (dialect : Dialect) (o : TxOutcome) (id : Str) (b : ℕ) (db : Db)
      (server : Server) (count : ℕ) (c : Contract) (tracked : Contracts.get ran id db ≡ ok c) where
    abbrev pub remote : Remote Server
    remote = record { server = server; unknown = count }

    abbrev pub tick : Ticked xdr parse_time caller parse_cursor
    tick = tick_once xdr parse_time caller parse_cursor fuel dialect ran o id (suc b) db remote

    -- A tick of a tracked contract, against a server that pages as ADR-028 has it through a fixed
    -- window that starts at the ledger after the contract's last one, commits what one pass over the
    -- window keeps, if the batch size is from 1 to 10000.
    pub tick_once_complete :
        (stream : List EventInfo)
        → Pages xdr parse_time caller parse_cursor server (start_of c.last_indexed_ledger) id stream
        → suc b ≤ limit_cap
        → length stream < fuel
        → tick ≡ indexed_window dialect o id stream db server count
    unfolding tick_once with_progress_read after_drain
    tick_once_complete stream w fits enough =
        ap
          (with_progress_read xdr parse_time caller parse_cursor fuel dialect o id (suc b) db
            remote)
          tracked
        ∙ ap
            (after_drain xdr parse_time caller parse_cursor fuel dialect o id (suc b)
              (start_of c.last_indexed_ledger) db)
            (drain_complete xdr parse_time caller parse_cursor server
              (start_of c.last_indexed_ledger) id stream b w fits fuel count enough)

    abbrev pub start_ledger : ℕ
    start_ledger = start_of c.last_indexed_ledger

    module _ (e : CallError) (out_of_range : is_range_error e ≡ true) (health : Health) where
      abbrev pub first_request : Request Cursor
      first_request = record {
        start_ledger = start_ledger;
        contract_id = id;
        cursor = none;
        limit = suc b;
      }

      -- The server rejects the first request, and then reports its window.
      abbrev pub Rejected : Type 0
      Rejected =
          (caller.get_events first_request server ≡ (err e, server))
          × (caller.get_health server ≡ (ok health, server))
          × (0 < fuel)

      drain_rejected :
          (n : ℕ)
          → 0 < n
          → caller.get_events first_request server ≡ (err e, server)
          → drain xdr parse_time caller parse_cursor n id (suc b) start_ledger remote
            ≡ some (err (call e), remote)
      unfolding drain drain_pages turn
      drain_rejected zero h r = absurd (omega arith)
      drain_rejected (suc n) h r =
          ap
            (turn xdr parse_time caller parse_cursor
              (drain_pages xdr parse_time caller parse_cursor n id (suc b)) id (suc b) first_request
              nothing_yet count)
            r

      switched :
          Rejected
          → tick
            ≡ range_switch xdr parse_time caller parse_cursor fuel dialect o id
                (suc b)
                start_ledger
                e
                health
                db
                remote
      unfolding tick_once with_progress_read after_drain drain_failed handle_range_error with_health
      switched (rejected, healthy, go) =
          ap
            (with_progress_read xdr parse_time caller parse_cursor fuel dialect o id (suc b) db
              remote)
            tracked
          ∙ (ap
                (after_drain xdr parse_time caller parse_cursor fuel dialect o id (suc b)
                  start_ledger db)
                (drain_rejected fuel go rejected)
              ∙ (rw out_of_range (
                  ap
                    (with_health xdr parse_time caller parse_cursor fuel dialect o id (suc b)
                      start_ledger e db count)
                    healthy)))

      -- A tracked contract whose start the server rejects as out of range, with the start past the
      -- tip that it then reports: the tick reports no error, and changes nothing.
      pub caught_up_lem :
          Rejected → health.latest_ledger < start_ledger → tick ≡ some (ok tt, db, remote)
      unfolding range_switch
      caught_up_lem r h = switched r ∙ ground (arith, h)

      -- The same with the start below the floor, and at or below the tip: against a server that pages
      -- as ADR-028 has it through a fixed window from the floor, the tick commits what one pass over
      -- that window keeps, if the batch size is from 1 to 10000.
      pub skipped_lem :
          (stream : List EventInfo)
          → Rejected
          → start_ledger ≤ health.latest_ledger
          → start_ledger < health.oldest_ledger
          → Pages xdr parse_time caller parse_cursor server health.oldest_ledger id stream
          → suc b ≤ limit_cap
          → length stream < fuel
          → tick ≡ indexed_window dialect o id stream db server count
      unfolding range_switch drained_from_floor
      skipped_lem stream r below low w fits enough =
          switched r
          ∙ (floor_branch below low
              ∙ ap (drained_from_floor xdr parse_time caller parse_cursor dialect o id db) (
                  drain_complete xdr parse_time caller parse_cursor server health.oldest_ledger id
                    stream b w fits fuel count enough))
        where
          floor_branch :
              start_ledger ≤ health.latest_ledger
              → start_ledger < health.oldest_ledger
              → range_switch xdr parse_time caller parse_cursor fuel dialect o id
                  (suc b)
                  start_ledger
                  e
                  health
                  db
                  remote
                ≡ drained_from_floor xdr parse_time caller parse_cursor dialect o id db (
                    drain xdr parse_time caller parse_cursor fuel id
                      (suc b)
                      health.oldest_ledger
                      remote)
          floor_branch x y =
              let not_past : ltb health.latest_ledger start_ledger ≡ false = ground arith in
              let under : ltb start_ledger health.oldest_ledger ≡ true = ground arith in
              rw (not_past, under) refl

      -- The same with the start inside the window: the tick reports an error, and changes nothing.
      pub inside_lem :
          Rejected
          → start_ledger ≤ health.latest_ledger
          → health.oldest_ledger ≤ start_ledger
          → tick ≡ some (err (not_outside start_ledger health e), db, remote)
      unfolding range_switch
      inside_lem r below above = switched r ∙ ground (arith, below, above)
