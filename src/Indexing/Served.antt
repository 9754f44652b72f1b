-- ===== src/Indexing/Served.antt =====
-- indexer/internal/rpc/events.go and indexer/internal/api/handlers.go over time: from the events that a
-- contract emits to the answers that the API gives.
use pulsar_app.Base.{
  ℕ, suc, ◌<◌, ◌≤◌, some, Str, Option, ok, false, ◌≡◌, subst, All, All-map, length, Result,
}
use pulsar_app.Strconv.{max_i64}
use pulsar_app.Decoder.Xdr.{XdrLib}
use pulsar_app.Store.{ran, Outcome, Dialect, Contract, Event, Db}
use pulsar_app.Store.Contracts.{get}
use pulsar_app.Store.Events.Found.{taken-IsFound}
use pulsar_app.Store.Integrity.{IsIntegral, register-IsIntegral}
use pulsar_app.Rpc.{EventInfo, Caller, PollError}
use pulsar_app.Rpc.Assemble.Uncounted.{event_of}
use pulsar_app.Rpc.Transaction.{TxOutcome}
use pulsar_app.Rpc.Transaction.Integrity.{commit-IsIntegral}
use pulsar_app.Rpc.Poller.{Remote, start_of}
use pulsar_app.Rpc.Poller.Drain.{limit_cap, Pages}
use pulsar_app.Rpc.Poller.Integrity.{EndsIntegral, tick_once-IsIntegral}
use pulsar_app.Api.Served.{IsServed, found-IsServed}
use pulsar_app.Indexing.{System, was_skipped, window, Ticks, Step, Reach}
use pulsar_app.Indexing.Complete.{IsFresh, tick_catches_up}

module _ (xdr : XdrLib) (parse_time : Str → Option ℕ) (id : Str) where
  -- If an event can be made of `x`, a request for it by its key is answered with it.
  abbrev pub IsAnswered : Db → EventInfo → Type 0
  IsAnswered db x = (e : Event) → event_of xdr parse_time id x ≡ some e → IsServed db e

  module _ {Cursor Server : Type 0} (caller : Caller Cursor Server)
      (parse_cursor : Str → Option Cursor) (d : Dialect) where
    Ticks-IsIntegral :
        (fuel b : ℕ) (read : Outcome) (o : TxOutcome) (db db' : Db) (r r' : Remote Server)
        (result : Result PollError (Unit {0}))
        → IsIntegral d db
        → Ticks xdr parse_time caller parse_cursor d id fuel read o b db r result db' r'
        → IsIntegral d db'
    Ticks-IsIntegral fuel b read o db db' r r' result h run =
        subst (EndsIntegral xdr parse_time caller parse_cursor d o id) run
          (tick_once-IsIntegral xdr parse_time caller parse_cursor d o id db h fuel (suc b) read r)

    Step-IsIntegral :
        {s t : System}
        → Step xdr parse_time caller parse_cursor d id s t
        → IsIntegral d s.db
        → IsIntegral d t.db
    Step-IsIntegral (Step.closes tip infos up small new) h = h
    Step-IsIntegral (Step.reads c fuel b o r result db' r' tracked pages fits enough run) h =
        Ticks-IsIntegral fuel b ran o _ db' r r' result h run
    Step-IsIntegral
          (Step.skips c fuel b count o server e health result db' r' tracked range rejected below
            low pages fits enough run)
          h =
        Ticks-IsIntegral fuel b ran o _ db' _ r' result h run
    Step-IsIntegral (Step.idles fuel b read o r result r' run) h = h
    Step-IsIntegral {s} (Step.registers now o o' j) h = register-IsIntegral d s.db h now o o' j
    Step-IsIntegral {s} (Step.commits j o batch highest other theirs) h =
        commit-IsIntegral d o j batch highest s.db h

    pub Reach-IsIntegral :
        {s t : System}
        → IsIntegral d s.db
        → Reach xdr parse_time caller parse_cursor d id s t
        → IsIntegral d t.db
    Reach-IsIntegral h Reach.here = h
    Reach-IsIntegral h (Reach.next r st) = Step-IsIntegral st (Reach-IsIntegral h r)

    -- From the registration of a contract in integral tables on, while no contract is deleted,
    -- whatever the database and the other contracts do, and against a server that may fail, reject a
    -- tick or have lost ledgers, but pages as ADR-028 has it where it answers a whole drain: after a
    -- tick that drains the events from its start on and reports no error, each event that the contract
    -- has emitted so far, that can be assembled and whose ledger no tick has logged as lost is served:
    -- a request for the key of a row at its ledger and index is answered with that row, if the keys of
    -- the table fit an int64 and the statement of the request is run.
    pub tick_served :
        {s t : System} (fresh : IsFresh id s) (integral : IsIntegral d s.db)
        (reach : Reach xdr parse_time caller parse_cursor d id s t) (c : Contract)
        (tracked : get ran id t.db ≡ ok c) (fuel b : ℕ) (o : TxOutcome) (r r' : Remote Server)
        (db' : Db)
        → Pages xdr parse_time caller parse_cursor r.server
            (start_of c.last_indexed_ledger)
            id
            (window (start_of c.last_indexed_ledger) t.emitted)
        → suc b ≤ limit_cap
        → length (window (start_of c.last_indexed_ledger) t.emitted) < fuel
        → Ticks xdr parse_time caller parse_cursor d id fuel ran o b t.db r (ok tt) db' r'
        → All (λ e. e.id ≤ max_i64) db'.events
        → All (λ x. was_skipped t.skipped x.ledger ≡ false → IsAnswered db' x) t.emitted
    tick_served {t} fresh integral reach c tracked fuel b o r r' db' pages fits enough run bound =
        let h =
          Ticks-IsIntegral fuel b ran o t.db db' r r' (ok tt) (Reach-IsIntegral integral reach)
            run in
        let stored =
          tick_catches_up xdr parse_time id caller parse_cursor d fresh reach c tracked fuel b o r
            r' db' pages fits enough run in
        All-map
          (λ x taken kept_one e made.
            found-IsServed db' e bound
              (taken-IsFound db' e h.sound.keys_ascend (taken kept_one e made)))
          t.emitted stored
