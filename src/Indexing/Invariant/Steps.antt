-- ===== src/Indexing/Invariant/Steps.antt =====
-- No event of a closed ledger is lost, but for those in skipped ledgers, whatever happens.
use pulsar_app.Base.{ℕ, List, ◌∷◌, Option, Str, ℤ, pos, ◌<ℤ◌, false, ◌≡◌, sym, ◌∙◌, subst, arith}
use pulsar_app.Decoder.Xdr.{XdrLib}
use pulsar_app.Store.{Dialect}
use pulsar_app.Store.Contracts.{register}
use pulsar_app.Store.Contracts.Tracked.{get-register, register-events}
use pulsar_app.Rpc.{Caller}
use pulsar_app.Rpc.Transaction.{commit}
use pulsar_app.Rpc.Transaction.Effects.{taken-commit, get-commit}
use pulsar_app.Rpc.Poller.{start_of}
use pulsar_app.Rpc.Poller.Tick.{tick_once_complete, skipped_lem}
use pulsar_app.Indexing.{System, was_skipped, window, Step, Reach}
use pulsar_app.Indexing.Invariant.{Inv, Inv_frame, Inv_closes, drained_Inv, ticked_db}

-- A ledger that was not skipped by now was not before, and is not between the ends of the last skip.
pub was_skipped-rest :
    (from to : ℕ) (rest : List (ℕ × ℕ)) (n : ℤ)
    → was_skipped ((from, to) ∷ rest) n ≡ false
    → was_skipped rest n ≡ false
was_skipped-rest from to rest n h = ground arith

pub was_skipped-below :
    (from to : ℕ) (rest : List (ℕ × ℕ)) (n : ℤ)
    → n <ℤ pos to
    → was_skipped ((from, to) ∷ rest) n ≡ false
    → n <ℤ pos from
was_skipped-below from to rest n h k = ground arith

module _ (xdr : XdrLib) (parse_time : Str → Option ℕ) (id : Str) {Cursor Server : Type 0}
    (caller : Caller Cursor Server) (parse_cursor : Str → Option Cursor) (dialect : Dialect) where
  Step-Inv :
      {s t : System}
      → Step xdr parse_time caller parse_cursor dialect id s t
      → Inv xdr parse_time id s
      → Inv xdr parse_time id t
  Step-Inv {s} (Step.closes tip infos up small new) inv =
      Inv_closes xdr parse_time id s tip infos up small new inv
  Step-Inv {s} (Step.reads c fuel b o r result db' r' tracked pages fits enough run) inv =
      let whole =
        tick_once_complete xdr parse_time caller parse_cursor fuel dialect o id b s.db r.server
          r.unknown c tracked (window (start_of c.last_indexed_ledger) s.emitted) pages fits
          enough in
      subst (λ t. Inv xdr parse_time id (record s { db = t })) (ticked_db (sym whole ∙ run))
        (drained_Inv xdr parse_time id caller parse_cursor dialect s inv c tracked o r.unknown
          (start_of c.last_indexed_ledger) s.skipped (λ n kept_one. kept_one)
          (λ n below kept_one. below))
  Step-Inv {s}
        (Step.skips c fuel b count o server e health result db' r' tracked range rejected below low
          pages fits enough run)
        inv =
      let whole =
        skipped_lem xdr parse_time caller parse_cursor fuel dialect o id b s.db server count c
          tracked e range health (window health.oldest_ledger s.emitted) rejected below low pages
          fits enough in
      let lost = (start_of c.last_indexed_ledger, health.oldest_ledger) ∷ s.skipped in
      subst (λ t. Inv xdr parse_time id (record s { db = t; skipped = lost }))
        (ticked_db (sym whole ∙ run))
        (drained_Inv xdr parse_time id caller parse_cursor dialect s inv c tracked o count
          health.oldest_ledger lost
          (was_skipped-rest (start_of c.last_indexed_ledger) health.oldest_ledger s.skipped)
          (was_skipped-below (start_of c.last_indexed_ledger) health.oldest_ledger s.skipped))
  Step-Inv (Step.idles fuel b read o r result r' run) inv = inv
  Step-Inv {s} (Step.registers now o o' j) inv =
      Inv_frame xdr parse_time id s (register now o o' j s.db).1
        (get-register now o o' j s.db id inv.tracked ∙ sym inv.tracked)
        (λ x t. rw (register-events now o o' j s.db) t) inv
  Step-Inv {s} (Step.commits j o batch highest other theirs) inv =
      Inv_frame xdr parse_time id s (commit dialect o j batch highest s.db).1
        (get-commit dialect o j batch highest s.db id other)
        (λ x t. taken-commit dialect o j batch highest s.db x t) inv

  pub Reach-Inv :
      {s t : System}
      → Inv xdr parse_time id s
      → Reach xdr parse_time caller parse_cursor dialect id s t
      → Inv xdr parse_time id t
  Reach-Inv inv Reach.here = inv
  Reach-Inv inv (Reach.next r st) = Step-Inv st (Reach-Inv inv r)
