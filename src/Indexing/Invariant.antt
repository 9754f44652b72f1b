-- ===== src/Indexing/Invariant.antt =====
-- No event of a closed ledger is lost, but for those in skipped ledgers: what holds of a contract, and
-- that a tick keeps it.
pub mod Steps
use pulsar_app.Base.{
  ℕ, ◌^◌, ◌≤◌, ◌<◌, true, false, List, [], ◌∷◌, ◌++◌, Option, some, Str, eq_str_refl, ℤ, pos, ◌≤ℤ◌,
  ◌<ℤ◌, Result, ok, ◌≡◌, refl, sym, ap, ◌∙◌, subst, arith, All, All-append, All-map, All-select,
  inl, inr,
}
use pulsar_app.Decoder.Xdr.{XdrLib}
use pulsar_app.Store.{ran, Dialect, Contract, Event, Db}
use pulsar_app.Store.Contracts.{get, with_progress}
use pulsar_app.Store.Contracts.Tracked.{get-contracts}
use pulsar_app.Store.Events.{taken}
use pulsar_app.Rpc.{EventInfo, Caller, PollError}
use pulsar_app.Rpc.Transaction.{TxOutcome, commit}
use pulsar_app.Rpc.Transaction.Commit.{commit_atomic, commit_lem}
use pulsar_app.Rpc.Transaction.Effects.{BothWritten-get, BothWritten-taken, taken-commit}
use pulsar_app.Rpc.Poller.{Remote, Drained, start_of, commit_drained}
use pulsar_app.Rpc.Poller.Drain.{pass}
use pulsar_app.Rpc.Poller.Kept.{kept, pass-kept, pass_bounds}
use pulsar_app.Rpc.Poller.Failed.{commit_drained_cases}
use pulsar_app.Indexing.{System, was_skipped, window}
use pulsar_app.Indexing.Stored.{below_start, IsStored, window-IsStored}

abbrev pub none_read : Drained
none_read = record { events = []; highest = pos 0 }

module _ {Server : Type 0} {p q : Result PollError (Unit {0})} {db db' : Db} {r r' : Remote Server}
    (h : ◌≡◌ {A = Option (Result PollError (Unit {0}) × Db × Remote Server)}
      (some (p, db, r))
      (some (q, db', r'))) where
  pub ticked_db : db ≡ db'
  ticked_db = cc

  pub ticked_ok : p ≡ q
  ticked_ok = cc

module _ (xdr : XdrLib) (parse_time : Str → Option ℕ) (id : Str) where
  -- The contract is tracked, its progress is no ledger that is still open, and every event up to
  -- its progress is stored, but for those in ledgers that were skipped.
  pub record Inv (s : System) : Type 0 where
    pub contract : Contract
    pub tracked : get ran id s.db ≡ ok contract
    pub nonneg : pos 0 ≤ℤ contract.last_indexed_ledger
    pub closed : contract.last_indexed_ledger ≤ℤ pos s.tip
    pub small : s.tip < 2 ^ 31
    pub within : All (λ x. x.ledger ≤ℤ pos s.tip) s.emitted
    pub stored :
        All
          (λ x.
            x.ledger ≤ℤ contract.last_indexed_ledger
            → was_skipped s.skipped x.ledger ≡ false
            → IsStored xdr parse_time id s.db.events x)
          s.emitted

  -- What is read of the contract stays, and so does every place that is taken.
  pub Inv_frame :
      (s : System) (db' : Db)
      → get ran id db' ≡ get ran id s.db
      → ((x : Event) → taken x s.db.events ≡ true → taken x db'.events ≡ true)
      → Inv s
      → Inv (record s { db = db' })
  Inv_frame s db' same more inv = record {
    contract = inv.contract;
    tracked = same ∙ inv.tracked;
    nonneg = inv.nonneg;
    closed = inv.closed;
    small = inv.small;
    within = inv.within;
    stored =
        All-map (λ x st le kept_one e made. more e (st le kept_one e made)) s.emitted inv.stored;
  }

  -- Of more ledgers that were skipped less is asked.
  lost_Inv :
      (s : System) (lost : List (ℕ × ℕ))
      → ((n : ℤ) → was_skipped lost n ≡ false → was_skipped s.skipped n ≡ false)
      → Inv s
      → Inv (record s { skipped = lost })
  lost_Inv s lost grows inv = record {
    contract = inv.contract;
    tracked = inv.tracked;
    nonneg = inv.nonneg;
    closed = inv.closed;
    small = inv.small;
    within = inv.within;
    stored = All-map (λ x st le kept_one. st le (grows x.ledger kept_one)) s.emitted inv.stored;
  }

  pub Inv_closes :
      (s : System) (tip : ℕ) (infos : List EventInfo)
      → s.tip ≤ tip
      → tip < 2 ^ 31
      → All (λ x. (pos s.tip <ℤ x.ledger) × (x.ledger ≤ℤ pos tip)) infos
      → Inv s
      → Inv (record s { tip = tip; emitted = s.emitted ++ infos })
  Inv_closes s tip infos up small new inv = record {
    contract = inv.contract;
    tracked = inv.tracked;
    nonneg = inv.nonneg;
    closed = let k = inv.closed in omega arith;
    small = small;
    within =
        All-append _ s.emitted infos (All-map (λ x h. omega arith) s.emitted inv.within)
          (All-map (λ x h. h.1) infos new);
    stored =
        All-append _ s.emitted infos inv.stored
          (All-map (λ x h le kept_one. let k = inv.closed in absurd (omega arith)) infos new);
  }

  module _ {Cursor Server : Type 0} (caller : Caller Cursor Server)
      (parse_cursor : Str → Option Cursor) (dialect : Dialect) where
    module _ (s : System) (inv : Inv s) (c : Contract) (tracked : get ran id s.db ≡ ok c)
        (o : TxOutcome) (count from : ℕ) (lost : List (ℕ × ℕ))
        (grows : (n : ℤ) → was_skipped lost n ≡ false → was_skipped s.skipped n ≡ false)
        (covers : (n : ℤ)
          → n <ℤ pos from
          → was_skipped lost n ≡ false
          → n <ℤ pos (start_of c.last_indexed_ledger)) where
      abbrev pub drained : Drained
      drained =
          (pass xdr parse_time caller parse_cursor id (window from s.emitted) none_read count).0

      abbrev pub after : Db
      after = (commit_drained xdr parse_time caller parse_cursor dialect o id drained s.db).1

      same : inv.contract ≡ c
      same = let k : ok inv.contract ≡ ok c = sym inv.tracked ∙ tracked in cc

      drained_kept : drained.events ≡ kept xdr parse_time id (window from s.emitted)
      drained_kept =
          pass-kept xdr parse_time caller parse_cursor id (window from s.emitted) none_read count

      drained_bounds : (pos 0 ≤ℤ drained.highest) × (drained.highest ≤ℤ pos s.tip)
      drained_bounds =
          pass_bounds xdr parse_time caller parse_cursor id (window from s.emitted) none_read count
            (pos s.tip) (All-select _ _ s.emitted inv.within) (omega arith)

      -- Once the places kept of the window are taken, every event is stored that is in no ledger
      -- that was skipped.
      all-IsStored :
          (db' : Db)
          → ((x : Event) → taken x s.db.events ≡ true → taken x db'.events ≡ true)
          → All (λ e. taken e db'.events ≡ true) drained.events
          → All
              (λ x. was_skipped lost x.ledger ≡ false → IsStored xdr parse_time id db'.events x)
              s.emitted
      all-IsStored db' more h =
          window-IsStored xdr parse_time id s.emitted from db'.events lost
            (All-map
              (λ x st below kept_one e made. more e (
                st
                  (below_start inv.contract.last_indexed_ledger x.ledger s.tip inv.small inv.nonneg
                    inv.closed
                    (subst (λ (t : Contract). x.ledger <ℤ pos (start_of t.last_indexed_ledger))
                      (sym same) (covers x.ledger below kept_one)))
                  (grows x.ledger kept_one) e made))
              s.emitted inv.stored)
            (subst (All (λ e. taken e db'.events ≡ true)) drained_kept h)

      committed_Inv :
          (e : Event) (es : List Event)
          → drained.events ≡ e ∷ es
          → Inv (record s {
            db = (commit dialect o id (e ∷ es) drained.highest s.db).1;
            skipped = lost;
          })
      committed_Inv e es h = elim (commit_atomic dialect o id (e ∷ es) drained.highest s.db) [
        | inl (contracts, events) ↦
            lost_Inv (record s { db = db' }) lost grows
              (Inv_frame s db' (get-contracts id s.db db' contracts) more inv)
        | inr w ↦
            let (_, (c', gets)) = BothWritten-get dialect o id (e ∷ es) drained.highest s.db w in
            let (up, below) = drained_bounds in
            record {
              contract = with_progress drained.highest c';
              tracked = gets id ∙ rw (eq_str_refl id) refl;
              nonneg = up;
              closed = below;
              small = inv.small;
              within = inv.within;
              stored =
                  All-map (λ x st le. st) s.emitted
                    (all-IsStored db' more
                      (rw h (BothWritten-taken dialect o id e es drained.highest s.db w)));
            }
      ]
        where
          db' : Db
          db' = (commit dialect o id (e ∷ es) drained.highest s.db).1

          more : (x : Event) → taken x s.db.events ≡ true → taken x db'.events ≡ true
          more x t = taken-commit dialect o id (e ∷ es) drained.highest s.db x t

      pub drained_Inv : Inv (record s { db = after; skipped = lost })
      drained_Inv =
          elim (commit_drained_cases xdr parse_time caller parse_cursor dialect o id drained s.db) [
            | inl (none_kept, e) ↦
                subst (λ t. Inv (record s { db = t.1; skipped = lost })) (sym e)
                  (lost_Inv s lost grows inv)
            | inr (e, es, h, k) ↦
                subst (λ t. Inv (record s { db = t.1; skipped = lost })) (sym k)
                  (committed_Inv e es h)
          ]

      abbrev AllStored : List Event → Type 0
      AllStored rows =
          All (λ x. was_skipped lost x.ledger ≡ false → IsStored xdr parse_time id rows x) s.emitted

      -- Where the tick's end reports no error, every event so far is stored that is in no ledger that
      -- was skipped.
      pub all_committed :
          (commit_drained xdr parse_time caller parse_cursor dialect o id drained s.db).0 ≡ ok tt
          → All
              (λ x. was_skipped lost x.ledger ≡ false → IsStored xdr parse_time id after.events x)
              s.emitted
      all_committed done =
          elim (commit_drained_cases xdr parse_time caller parse_cursor dialect o id drained s.db) [
            | inl (none_kept, e) ↦
                subst (λ t. AllStored t.1.events) (sym e)
                  (all-IsStored s.db (λ x t. t) (rw none_kept tt))
            | inr (e, es, h, k) ↦
                let ended : (commit dialect o id (e ∷ es) drained.highest s.db).0 ≡ ok tt =
                  rw k at done in
                let db' = (commit dialect o id (e ∷ es) drained.highest s.db).1 in
                let stored =
                  commit_lem dialect o id e es drained.highest s.db (ap (λ x. (x, db')) ended) in
                subst (λ t. AllStored t.1.events) (sym k)
                  (all-IsStored db' (taken-commit dialect o id (e ∷ es) drained.highest s.db)
                    (rw h stored.0))
          ]
