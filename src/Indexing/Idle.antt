-- ===== src/Indexing/Idle.antt =====
-- indexer/internal/rpc/events.go over time: ticks that end without a write are steps that change
-- nothing.
use pulsar_app.Base.{ℕ, suc, ◌≤◌, ◌<◌, true, Option, some, Str, ok, err, ◌≡◌}
use pulsar_app.Decoder.Xdr.{XdrLib}
use pulsar_app.Store.{Fault, ran, refused, Dialect, Contract}
use pulsar_app.Store.Contracts.{get}
use pulsar_app.Rpc.{Health, CallError, Caller, PollError, is_range_error}
use pulsar_app.Rpc.Transaction.{TxOutcome}
use pulsar_app.Rpc.Poller.{Remote, start_of, drain}
use pulsar_app.Rpc.Poller.Failed.{IsFinal, tick_once-failed, tick_once-unread}
use pulsar_app.Rpc.Poller.Tick.{Rejected, caught_up_lem, inside_lem}
use pulsar_app.Indexing.{System, Step}

module _ (xdr : XdrLib) (parse_time : Str → Option ℕ) {Cursor Server : Type 0}
    (caller : Caller Cursor Server) (parse_cursor : Str → Option Cursor) (dialect : Dialect)
    (id : Str) (s : System) (fuel b : ℕ) (o : TxOutcome) where
  abbrev Idles : Type 0
  Idles = Step xdr parse_time caller parse_cursor dialect id s s

  -- The progress cannot be read.
  unread_idles : Fault → Remote Server → Idles
  unread_idles f r =
      Step.idles fuel b (refused f) o r _ r
        (tick_once-unread xdr parse_time caller parse_cursor dialect o id fuel (suc b) s.db r f)

  -- The drain fails, on any page, with an error other than a range error.
  failed_idles :
      (c : Contract) (x : PollError) (r r' : Remote Server)
      → get ran id s.db ≡ ok c
      → drain xdr parse_time caller parse_cursor fuel id (suc b) (start_of c.last_indexed_ledger) r
        ≡ some (err x, r')
      → IsFinal x
      → Idles
  failed_idles c x r r' tracked drained final = Step.idles fuel b ran o r (err x) r' (
      tick_once-failed xdr parse_time caller parse_cursor dialect o id fuel (suc b) s.db r c x r'
        tracked drained final)

  module _ (server : Server) (count : ℕ) (c : Contract) (tracked : get ran id s.db ≡ ok c)
      (e : CallError) (out_of_range : is_range_error e ≡ true) (health : Health)
      (rejected : Rejected xdr parse_time caller parse_cursor fuel dialect o id b s.db server count
        c tracked e out_of_range health) where
    -- The start is past the tip.
    caught_up_idles : health.latest_ledger < start_of c.last_indexed_ledger → Idles
    caught_up_idles past =
        Step.idles fuel b ran o (record { server = server; unknown = count }) (ok tt) _
          (caught_up_lem xdr parse_time caller parse_cursor fuel dialect o id b s.db server count c
            tracked e out_of_range health rejected past)

    -- The start is rejected inside the window.
    inside_idles :
        start_of c.last_indexed_ledger ≤ health.latest_ledger
        → health.oldest_ledger ≤ start_of c.last_indexed_ledger
        → Idles
    inside_idles below above =
        Step.idles fuel b ran o (record { server = server; unknown = count }) _ _
          (inside_lem xdr parse_time caller parse_cursor fuel dialect o id b s.db server count c
            tracked e out_of_range health rejected below above)
