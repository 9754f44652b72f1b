-- ===== src/Indexing.antt =====
-- indexer/internal/rpc/events.go over time: the ticks of one contract, against a database that may refuse
-- any statement and a server that may fail, reject a start or lose ledgers, while ledgers close and the
-- other contracts are registered and polled.
pub mod Stored
pub mod Invariant
pub mod Complete
pub mod Served
pub mod Order
pub mod Listed
pub mod Idle
pub mod Tests
use pulsar_app.Base.{
  ℕ, Bool, suc, ◌^◌, ◌≤◌, ◌<◌, not, ◌&&◌, ◌||◌, true, List, [], ◌∷◌, ◌++◌, Option, some, Str, false,
  select, eq_str, ℤ, pos, ltb_ℤ, ◌≤ℤ◌, ◌<ℤ◌, Result, ok, ◌≡◌, All, length,
}
use pulsar_app.Decoder.Xdr.{XdrLib}
use pulsar_app.Store.{Outcome, ran, Dialect, Contract, Event, Db}
use pulsar_app.Store.Contracts.{get, register}
use pulsar_app.Rpc.{EventInfo, Health, CallError, Caller, PollError, is_range_error}
use pulsar_app.Rpc.Transaction.{TxOutcome, commit}
use pulsar_app.Rpc.Poller.{Remote, start_of, tick_once}
use pulsar_app.Rpc.Poller.Drain.{limit_cap, Pages}
use pulsar_app.Rpc.Poller.Tick.{Rejected}

-- The tables, the last closed ledger, the contract's events in the ledgers closed so far, and the
-- ledgers that a tick has skipped and logged as lost: from a first one up to, and without, a second.
pub record System : Type 0 where
  pub db : Db
  pub tip : ℕ
  pub emitted : List EventInfo
  pub skipped : List (ℕ × ℕ)

abbrev pub was_skipped : List (ℕ × ℕ) → ℤ → Bool
was_skipped [] n = false
was_skipped ((from, to) ∷ rest) n =
    not (ltb_ℤ n (pos from)) && ltb_ℤ n (pos to) || was_skipped rest n

-- The events from a ledger on.
abbrev pub window : ℕ → List EventInfo → List EventInfo
window start xs = select (λ x. not (ltb_ℤ x.ledger (pos start))) xs

module _ (xdr : XdrLib) (parse_time : Str → Option ℕ) {Cursor Server : Type 0}
    (caller : Caller Cursor Server) (parse_cursor : Str → Option Cursor) (dialect : Dialect)
    (id : Str) where
  -- A tick, of pages of `suc b` events.
  abbrev pub Ticks :
      ℕ
      → Outcome
      → TxOutcome
      → ℕ
      → Db
      → Remote Server
      → Result PollError (Unit {0})
      → Db
      → Remote Server
      → Type 0
  Ticks fuel read o b db r result db' r' =
      tick_once xdr parse_time caller parse_cursor fuel dialect read o id (suc b) db r
      ≡ some (result, db', r')

  pub data Step (s : System) : System → Type 0 where
    -- Ledgers close, with events of the contract. A ledger is an int32.
    closes :
        (tip : ℕ) (infos : List EventInfo)
        → s.tip ≤ tip
        → tip < 2 ^ 31
        → All (λ x. (pos s.tip <ℤ x.ledger) × (x.ledger ≤ℤ pos tip)) infos
        → Step s (record s { tip = tip; emitted = s.emitted ++ infos })
    -- A tick against a server that answers a whole drain with the events from the tick's start on.
    reads :
        (c : Contract) (fuel b : ℕ) (o : TxOutcome) (r : Remote Server)
        (result : Result PollError (Unit {0})) (db' : Db) (r' : Remote Server)
        → get ran id s.db ≡ ok c
        → Pages xdr parse_time caller parse_cursor r.server
            (start_of c.last_indexed_ledger)
            id
            (window (start_of c.last_indexed_ledger) s.emitted)
        → suc b ≤ limit_cap
        → length (window (start_of c.last_indexed_ledger) s.emitted) < fuel
        → Ticks fuel ran o b s.db r result db' r'
        → Step s (record s { db = db' })
    -- A tick whose start the server rejects as below its floor, and that then drains from the floor:
    -- the ledgers before the floor are skipped.
    skips :
        (c : Contract) (fuel b count : ℕ) (o : TxOutcome) (server : Server) (e : CallError)
        (health : Health) (result : Result PollError (Unit {0})) (db' : Db) (r' : Remote Server)
        (tracked : get ran id s.db ≡ ok c) (out_of_range : is_range_error e ≡ true)
        → Rejected xdr parse_time caller parse_cursor fuel dialect o id b s.db server count c
            tracked e out_of_range health
        → start_of c.last_indexed_ledger ≤ health.latest_ledger
        → start_of c.last_indexed_ledger < health.oldest_ledger
        → Pages xdr parse_time caller parse_cursor server health.oldest_ledger id
            (window health.oldest_ledger s.emitted)
        → suc b ≤ limit_cap
        → length (window health.oldest_ledger s.emitted) < fuel
        → Ticks fuel ran o b s.db (record { server = server; unknown = count }) result db' r'
        → Step s (record s {
          db = db';
          skipped = (start_of c.last_indexed_ledger, health.oldest_ledger) ∷ s.skipped;
        })
    -- A tick that leaves the tables as they were, of any page size, whatever the server answers: its
    -- progress is not read, a call of the drain or the health of the server fails, its start is past
    -- the tip or rejected inside the window, or nothing was read.
    idles :
        (fuel b : ℕ) (read : Outcome) (o : TxOutcome) (r : Remote Server)
        (result : Result PollError (Unit {0})) (r' : Remote Server)
        → Ticks fuel read o b s.db r result s.db r'
        → Step s s
    -- A registration, of this contract or another.
    registers :
        (now : ℕ) (o o' : Outcome) (j : Str)
        → Step s (record s { db = (register now o o' j s.db).1 })
    -- A commit for another contract, of its events.
    commits :
        (j : Str) (o : TxOutcome) (batch : List Event) (highest : ℤ)
        → eq_str j id ≡ false
        → All (λ e. e.contract_id ≡ j) batch
        → Step s (record s { db = (commit dialect o j batch highest s.db).1 })

  pub data Reach (s : System) : System → Type 0 where
    here : Reach s s
    next : {t u : System} → Reach s t → Step t u → Reach s u
