-- ===== src/Rpc/Poller/Failed.antt =====
-- indexer/internal/rpc/events.go: the ticks that write nothing, and what a drained batch becomes.
use pulsar_app.Base.{
  ℕ, false, List, [], ◌∷◌, Option, some, Str, ok, err, ◌≡◌, refl, ap, ◌∙◌, ◌⊎◌, inl, inr,
}
use pulsar_app.Decoder.Xdr.{XdrLib}
use pulsar_app.Store.{Fault, ran, refused, Dialect, Contract, Event, Db, engine}
use pulsar_app.Store.Contracts as Contracts
use pulsar_app.Rpc.{
  Caller, PollError, call, bad_page_cursor, window, from_floor, not_outside, reading_progress,
  inserting, advancing, beginning, committing, is_range_error,
}
use pulsar_app.Rpc.Transaction.{TxOutcome, commit}
use pulsar_app.Rpc.Poller.{
  Drained, Remote, start_of, drain, commit_drained, drain_failed, after_drain, with_progress_read,
  tick_once,
}

-- The errors of a drain that `tickOnce` returns at once.
abbrev pub IsFinal : PollError → Type 0
IsFinal (call e) = is_range_error e ≡ false
IsFinal _ = Unit

module _ (xdr : XdrLib) (parse_time : Str → Option ℕ) {Cursor Server : Type 0}
    (caller : Caller Cursor Server) (parse_cursor : Str → Option Cursor) (dialect : Dialect)
    (o : TxOutcome) (id : Str) where
  -- A drain that kept nothing is the end of a tick; any other is committed.
  pub commit_drained_cases :
      (d : Drained) (db : Db)
      → ((d.events ≡ [])
          × (commit_drained xdr parse_time caller parse_cursor dialect o id d db ≡ (ok tt, db)))
        ⊎ ((e : Event) × (es : List Event) × (d.events ≡ e ∷ es)
            × (commit_drained xdr parse_time caller parse_cursor dialect o id d db
                ≡ commit dialect o id (e ∷ es) d.highest db))
  unfolding commit_drained
  commit_drained_cases d db = cases d.events refl
    where
      cases :
          (events : List Event)
          → d.events ≡ events
          → ((d.events ≡ [])
              × (commit_drained xdr parse_time caller parse_cursor dialect o id d db ≡ (ok tt, db)))
            ⊎ ((e : Event) × (es : List Event) × (d.events ≡ e ∷ es)
                × (commit_drained xdr parse_time caller parse_cursor dialect o id d db
                    ≡ commit dialect o id (e ∷ es) d.highest db))
      cases [] h = inl (h, rw h refl)
      cases (e ∷ es) h = inr (e, es, h, rw h refl)

  module _ (fuel b : ℕ) (db : Db) (r : Remote Server) where
    failed_lem :
        (start : ℕ) (x : PollError) (r' : Remote Server)
        → IsFinal x
        → drain_failed xdr parse_time caller parse_cursor fuel dialect o id b start x db r'
          ≡ some (err x, db, r')
    unfolding drain_failed
    failed_lem start (call e) r' h = rw h refl
    failed_lem start (bad_page_cursor s) r' h = refl
    failed_lem start (window e) r' h = refl
    failed_lem start (from_floor e) r' h = refl
    failed_lem start (not_outside n y e) r' h = refl
    failed_lem start (reading_progress e) r' h = refl
    failed_lem start (inserting e) r' h = refl
    failed_lem start (advancing e) r' h = refl
    failed_lem start (beginning f) r' h = refl
    failed_lem start (committing f) r' h = refl

    -- A tick whose drain fails, with an error other than a range error, returns it and writes nothing.
    pub tick_once-failed :
        (c : Contract) (x : PollError) (r' : Remote Server)
        → Contracts.get ran id db ≡ ok c
        → drain xdr parse_time caller parse_cursor fuel id b (start_of c.last_indexed_ledger) r
          ≡ some (err x, r')
        → IsFinal x
        → tick_once xdr parse_time caller parse_cursor fuel dialect ran o id b db r
          ≡ some (err x, db, r')
    unfolding tick_once with_progress_read after_drain
    tick_once-failed c x r' tracked drained h =
        ap (with_progress_read xdr parse_time caller parse_cursor fuel dialect o id b db r) tracked
        ∙ ap
            (after_drain xdr parse_time caller parse_cursor fuel dialect o id b
              (start_of c.last_indexed_ledger) db)
            drained
        ∙ failed_lem (start_of c.last_indexed_ledger) x r' h

    -- A tick that cannot read the contract's progress writes nothing.
    pub tick_once-unread :
        (f : Fault)
        → tick_once xdr parse_time caller parse_cursor fuel dialect (refused f) o id b db r
          ≡ some (err (reading_progress (engine f)), db, r)
    unfolding tick_once with_progress_read Contracts.get
    tick_once-unread f = refl
