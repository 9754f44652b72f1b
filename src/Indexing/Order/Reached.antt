-- ===== src/Indexing/Order/Reached.antt =====
-- indexer/internal/rpc/events.go over time: the emission order of a contract's rows, step by step.
use pulsar_app.Base.{
  ℕ, ◌^◌, ◌≤◌, ◌<◌, false, List, ◌∷◌, Option, some, Str, ltb_ℤ, ℤ, pos, ◌≤ℤ◌, ◌<ℤ◌, ok, ◌≡◌, sym,
  ap, ◌∙◌, subst, arith, All, All-map, select, select-holds, Ordered, Ordered-append_left, inl, inr,
}
use pulsar_app.Decoder.Xdr.{XdrLib}
use pulsar_app.Store.{ran, Dialect, Contract}
use pulsar_app.Store.Contracts.{get, register}
use pulsar_app.Store.Contracts.Tracked.{get-register, register-events}
use pulsar_app.Store.Events.Emission.{precedes, is_of}
use pulsar_app.Rpc.{EventInfo, Caller}
use pulsar_app.Rpc.Assemble.Uncounted.{HasSource, assemble-HasSource}
use pulsar_app.Rpc.Transaction.{TxOutcome}
use pulsar_app.Rpc.Poller.{Drained, start_of}
use pulsar_app.Rpc.Poller.Kept.{
  kept, pass-kept, pass-highest, kept-All, kept-append, kept-select-Ordered,
}
use pulsar_app.Rpc.Poller.Failed.{commit_drained_cases}
use pulsar_app.Rpc.Poller.Tick.{tick_once_complete, skipped_lem}
use pulsar_app.Indexing.{System, was_skipped, window, Step, Reach}
use pulsar_app.Indexing.Stored.{above_start}
use pulsar_app.Indexing.Invariant.{Inv, none_read, ticked_db, drained, after}
use pulsar_app.Indexing.Invariant.Steps.{Reach-Inv, was_skipped-rest, was_skipped-below}
use pulsar_app.Indexing.Order.{InOrder, InOrder-frame, other-InOrder, own-InOrder}

module _ (xdr : XdrLib) (parse_time : Str → Option ℕ) (id : Str) where
  -- The contract emits its events in the order of their ledgers and of their indices.
  abbrev pub EmitsInOrder : System → Type 0
  EmitsInOrder s = Ordered precedes (kept xdr parse_time id s.emitted)

  -- An event that can be made of a wire event of a window is past the progress before it.
  kept_later :
      (last : ℤ) (tip from : ℕ) (xs : List EventInfo)
      → start_of last ≤ from
      → tip < 2 ^ 31
      → pos 0 ≤ℤ last
      → last ≤ℤ pos tip
      → All (λ e. last <ℤ e.ledger) (kept xdr parse_time id (window from xs))
  kept_later last tip from xs up small h k =
      kept-All xdr parse_time id (λ e. last <ℤ e.ledger) (window from xs)
        (All-map
          (λ x past e made.
            let source : HasSource xdr parse_time id x (some e) =
              subst (HasSource xdr parse_time id x) made
                (assemble-HasSource xdr parse_time id x 0) in
            let below : ltb_ℤ x.ledger (pos (start_of last)) ≡ false = ground arith in
            let later = above_start last x.ledger tip small h k below in rw (source.0) later)
          (window from xs) (select-holds _ xs))

  module _ {Cursor Server : Type 0} (caller : Caller Cursor Server)
      (parse_cursor : Str → Option Cursor) (dialect : Dialect) where
    module _ (s : System) (inv : Inv xdr parse_time id s) (c : Contract)
        (tracked : get ran id s.db ≡ ok c) (o : TxOutcome) (count from : ℕ) (lost : List (ℕ × ℕ))
        (grows : (n : ℤ) → was_skipped lost n ≡ false → was_skipped s.skipped n ≡ false)
        (covers : (n : ℤ)
          → n <ℤ pos from
          → was_skipped lost n ≡ false
          → n <ℤ pos (start_of c.last_indexed_ledger))
        (later : start_of c.last_indexed_ledger ≤ from) (emits : EmitsInOrder s)
        (h : InOrder id s.db) where
      same : inv.contract ≡ c
      same = let k : ok inv.contract ≡ ok c = sym inv.tracked ∙ tracked in cc

      abbrev batch : Drained
      batch =
          drained xdr parse_time id caller parse_cursor dialect s inv c tracked o count from lost
            grows covers

      batch_kept : batch.events ≡ kept xdr parse_time id (window from s.emitted)
      batch_kept =
          pass-kept xdr parse_time caller parse_cursor id (window from s.emitted) none_read count

      batch-Ordered : Ordered precedes batch.events
      batch-Ordered =
          subst (Ordered precedes) (sym batch_kept)
            (kept-select-Ordered xdr parse_time id precedes _ s.emitted emits)

      batch_later : All (λ x. c.last_indexed_ledger <ℤ x.ledger) batch.events
      batch_later = subst (All (λ x. c.last_indexed_ledger <ℤ x.ledger)) (sym batch_kept) (
          subst
            (λ (t : Contract).
              All (λ x. t.last_indexed_ledger <ℤ x.ledger)
                (kept xdr parse_time id (window from s.emitted)))
            same
            (kept_later inv.contract.last_indexed_ledger s.tip from s.emitted
              (subst (λ (t : Contract). start_of t.last_indexed_ledger ≤ from) (sym same) later)
              inv.small inv.nonneg inv.closed))

      batch_within : All (λ x. x.ledger ≤ℤ batch.highest) batch.events
      batch_within =
          pass-highest xdr parse_time caller parse_cursor id (window from s.emitted) none_read count
            tt

      ticked-InOrder : InOrder id (
          after xdr parse_time id caller parse_cursor dialect s inv c tracked o count from lost
            grows covers)
      ticked-InOrder =
          elim (commit_drained_cases xdr parse_time caller parse_cursor dialect o id batch s.db) [
            | inl (none_kept, e) ↦ subst (λ t. InOrder id t.1) (sym e) h
            | inr (e, es, k, written) ↦
                subst (λ t. InOrder id t.1) (sym written)
                  (own-InOrder dialect id o e es batch.highest s.db c tracked h
                    (subst (Ordered precedes) k batch-Ordered)
                    (subst (All (λ x. c.last_indexed_ledger <ℤ x.ledger)) k batch_later)
                    (subst (All (λ x. x.ledger ≤ℤ batch.highest)) k batch_within))
          ]

    Step-InOrder :
        {s t : System}
        → Step xdr parse_time caller parse_cursor dialect id s t
        → Inv xdr parse_time id s
        → EmitsInOrder s
        → InOrder id s.db
        → InOrder id t.db
    Step-InOrder (Step.closes tip infos up small new) inv emits h = h
    Step-InOrder {s} (Step.reads c fuel b o r result db' r' tracked pages fits enough run) inv emits
          h =
        let whole =
          tick_once_complete xdr parse_time caller parse_cursor fuel dialect o id b s.db r.server
            r.unknown c tracked (window (start_of c.last_indexed_ledger) s.emitted) pages fits
            enough in
        subst (InOrder id) (ticked_db (sym whole ∙ run)) (
          ticked-InOrder s inv c tracked o r.unknown (start_of c.last_indexed_ledger) s.skipped
            (λ n kept_one. kept_one) (λ n below kept_one. below) (omega arith) emits h)
    Step-InOrder {s}
          (Step.skips c fuel b count o server e health result db' r' tracked range rejected below
            low pages fits enough run)
          inv emits h =
        let whole =
          skipped_lem xdr parse_time caller parse_cursor fuel dialect o id b s.db server count c
            tracked e range health (window health.oldest_ledger s.emitted) rejected below low pages
            fits enough in
        subst (InOrder id) (ticked_db (sym whole ∙ run)) (
          ticked-InOrder s inv c tracked o count health.oldest_ledger
            ((start_of c.last_indexed_ledger, health.oldest_ledger) ∷ s.skipped)
            (was_skipped-rest (start_of c.last_indexed_ledger) health.oldest_ledger s.skipped)
            (was_skipped-below (start_of c.last_indexed_ledger) health.oldest_ledger s.skipped)
            (omega arith) emits h)
    Step-InOrder (Step.idles fuel b read o r result r' run) inv emits h = h
    Step-InOrder {s} (Step.registers now o o' j) inv emits h =
        InOrder-frame id s.db (register now o o' j s.db).1
          (get-register now o o' j s.db id inv.tracked ∙ sym inv.tracked)
          (ap (select (is_of id)) (register-events now o o' j s.db)) h
    Step-InOrder {s} (Step.commits j o batch highest other theirs) inv emits h =
        other-InOrder dialect id j o batch highest s.db other theirs h

    -- What was emitted before was in order.
    Step-EmitsInOrder :
        {s t : System}
        → Step xdr parse_time caller parse_cursor dialect id s t
        → EmitsInOrder t
        → EmitsInOrder s
    Step-EmitsInOrder {s} (Step.closes tip infos up small new) k =
        Ordered-append_left precedes (kept xdr parse_time id s.emitted)
          (kept xdr parse_time id infos)
          (subst (Ordered precedes) (kept-append xdr parse_time id s.emitted infos) k)
    Step-EmitsInOrder (Step.reads _ _ _ _ _ _ _ _ _ _ _ _ _) k = k
    Step-EmitsInOrder (Step.skips _ _ _ _ _ _ _ _ _ _ _ _ _ _ _ _ _ _ _ _) k = k
    Step-EmitsInOrder (Step.idles _ _ _ _ _ _ _ _) k = k
    Step-EmitsInOrder (Step.registers _ _ _ _) k = k
    Step-EmitsInOrder (Step.commits _ _ _ _ _ _) k = k

    pub Reach-InOrder :
        {s t : System}
        → Inv xdr parse_time id s
        → InOrder id s.db
        → Reach xdr parse_time caller parse_cursor dialect id s t
        → EmitsInOrder t
        → InOrder id t.db
    Reach-InOrder inv h Reach.here k = h
    Reach-InOrder inv h (Reach.next r st) k =
        let before_it = Step-EmitsInOrder st k in
        Step-InOrder st (Reach-Inv xdr parse_time id caller parse_cursor dialect inv r) before_it
          (Reach-InOrder inv h r before_it)
