-- ===== src/Indexing/Complete.antt =====
-- indexer/internal/rpc/events.go over time: the events in the table against the progress that is
-- recorded for a contract, and after a tick that reports no error.
use pulsar_app.Base.{
  ℕ, suc, ◌^◌, ◌≤◌, ◌<◌, false, [], Option, Str, pos, ◌≤ℤ◌, ◌<ℤ◌, ok, ◌≡◌, sym, ◌∙◌, subst, arith,
  All, All-map, length,
}
use pulsar_app.Decoder.Xdr.{XdrLib}
use pulsar_app.Store.{ran, Dialect, Contract, Db}
use pulsar_app.Store.Contracts.{get}
use pulsar_app.Rpc.{Caller}
use pulsar_app.Rpc.Transaction.{TxOutcome}
use pulsar_app.Rpc.Poller.{Remote, start_of}
use pulsar_app.Rpc.Poller.Drain.{limit_cap, Pages}
use pulsar_app.Rpc.Poller.Tick.{tick_once_complete}
use pulsar_app.Indexing.{System, was_skipped, window, Ticks, Reach}
use pulsar_app.Indexing.Stored.{IsStored}
use pulsar_app.Indexing.Invariant.Steps.{Reach-Inv}
use pulsar_app.Indexing.Invariant.{Inv, all_committed, ticked_db, ticked_ok}

-- A contract that has just been registered, whose events are all in ledgers that are closed,
-- and of which no ledger was skipped yet.
pub record IsFresh (id : Str) (s : System) : Type 0 where
  pub contract : Contract
  pub tracked : get ran id s.db ≡ ok contract
  pub unread : contract.last_indexed_ledger ≡ pos 0
  pub none_skipped : s.skipped ≡ []
  pub small : s.tip < 2 ^ 31
  pub positive : All (λ x. (pos 0 <ℤ x.ledger) × (x.ledger ≤ℤ pos s.tip)) s.emitted

module _ (xdr : XdrLib) (parse_time : Str → Option ℕ) (id : Str) where
  pub IsFresh-Inv : (s : System) → IsFresh id s → Inv xdr parse_time id s
  IsFresh-Inv s f = record {
    contract = f.contract;
    tracked = f.tracked;
    nonneg = rw f.unread (omega arith);
    closed = rw f.unread (omega arith);
    small = f.small;
    within = All-map (λ x h. h.1) s.emitted f.positive;
    stored =
        All-map
          (λ x h le kept_one. let k : x.ledger ≤ℤ pos 0 = rw f.unread at le in absurd (omega arith))
          s.emitted f.positive;
  }

  module _ {Cursor Server : Type 0} (caller : Caller Cursor Server)
      (parse_cursor : Str → Option Cursor) (dialect : Dialect) {s t : System} (fresh : IsFresh id s)
      (reach : Reach xdr parse_time caller parse_cursor dialect id s t) (c : Contract)
      (tracked : get ran id t.db ≡ ok c) where
    inv : Inv xdr parse_time id t
    inv = Reach-Inv xdr parse_time id caller parse_cursor dialect (IsFresh-Inv s fresh) reach

    -- From the registration of a contract on, while no contract is deleted, whatever the database and
    -- the other contracts do, and against a server that may fail, reject a tick or have lost ledgers,
    -- but pages as ADR-028 has it where it answers a whole drain: each event of a ledger up to the
    -- progress that is recorded for the contract has its place in the table, if an event can be made
    -- of it and no tick has logged its ledger as lost.
    pub nothing_lost :
        All
          (λ x.
            x.ledger ≤ℤ c.last_indexed_ledger
            → was_skipped t.skipped x.ledger ≡ false
            → IsStored xdr parse_time id t.db.events x)
          t.emitted
    nothing_lost =
        let k : ok inv.contract ≡ ok c = sym inv.tracked ∙ tracked in
        let same : inv.contract ≡ c = cc in
        subst
          (λ (d : Contract).
            All
              (λ x.
                x.ledger ≤ℤ d.last_indexed_ledger
                → was_skipped t.skipped x.ledger ≡ false
                → IsStored xdr parse_time id t.db.events x)
              t.emitted)
          same inv.stored

    -- A tick then that drains the events from its start on and reports no error leaves every event so
    -- far with its place in the table, if an event can be made of it and no tick has logged its ledger
    -- as lost.
    pub tick_catches_up :
        (fuel b : ℕ) (o : TxOutcome) (r r' : Remote Server) (db' : Db)
        → Pages xdr parse_time caller parse_cursor r.server
            (start_of c.last_indexed_ledger)
            id
            (window (start_of c.last_indexed_ledger) t.emitted)
        → suc b ≤ limit_cap
        → length (window (start_of c.last_indexed_ledger) t.emitted) < fuel
        → Ticks xdr parse_time caller parse_cursor dialect id fuel ran o b t.db r (ok tt) db' r'
        → All
            (λ x. was_skipped t.skipped x.ledger ≡ false → IsStored xdr parse_time id db'.events x)
            t.emitted
    tick_catches_up fuel b o r r' db' pages fits enough run =
        let whole =
          tick_once_complete xdr parse_time caller parse_cursor fuel dialect o id b t.db r.server
            r.unknown c tracked (window (start_of c.last_indexed_ledger) t.emitted) pages fits
            enough in
        let from = start_of c.last_indexed_ledger in
        let ended = sym whole ∙ run in
        subst
          (λ db''.
            All
              (λ x.
                was_skipped t.skipped x.ledger ≡ false → IsStored xdr parse_time id db''.events x)
              t.emitted)
          (ticked_db ended)
          (all_committed xdr parse_time id caller parse_cursor dialect t inv c tracked o r.unknown
            from t.skipped (λ n kept_one. kept_one) (λ n below kept_one. below) (ticked_ok ended))
