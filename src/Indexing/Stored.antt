-- ===== src/Indexing/Stored.antt =====
-- indexer/internal/rpc/events.go: the events that a tick reads, and those that were read before it.
use pulsar_app.Base.{
  ℕ, suc, ◌^◌, ◌<◌, true, false, List, [], ◌∷◌, Option, none, some, Str, ltb_ℤ, ℤ, pos, negsuc,
  ◌≤ℤ◌, ◌<ℤ◌, ◌≡◌, refl, sym, ◌∙◌, subst, arith, All, inl, inr, Bool-cases,
}
use pulsar_app.Decoder.Xdr.{XdrLib}
use pulsar_app.Store.{Event}
use pulsar_app.Store.Events.{taken}
use pulsar_app.Rpc.{EventInfo}
use pulsar_app.Rpc.Assemble.Uncounted.{event_of}
use pulsar_app.Rpc.Poller.{start_of}
use pulsar_app.Rpc.Poller.Kept.{kept}
use pulsar_app.Indexing.{window, was_skipped}

start_of_lem : (n : ℕ) → n < 2 ^ 31 → start_of (pos n) ≡ suc n
unfolding start_of
start_of_lem n h = ground arith

-- Below a tick's start is at or below the recorded progress.
pub below_start :
    (last x : ℤ) (tip : ℕ)
    → tip < 2 ^ 31
    → pos 0 ≤ℤ last
    → last ≤ℤ pos tip
    → x <ℤ pos (start_of last)
    → x ≤ℤ last
below_start (pos n) x tip small h k l =
    let e = start_of_lem n (omega arith) in let m : x <ℤ pos (suc n) = rw e at l in omega arith
below_start (negsuc n) x tip small h k l = absurd (omega arith)

-- At or above a tick's start is above the recorded progress.
pub above_start :
    (last x : ℤ) (tip : ℕ)
    → tip < 2 ^ 31
    → pos 0 ≤ℤ last
    → last ≤ℤ pos tip
    → ltb_ℤ x (pos (start_of last)) ≡ false
    → last <ℤ x
above_start (pos n) x tip small h k l =
    let e = start_of_lem n (omega arith) in
    let m : ltb_ℤ x (pos (suc n)) ≡ false = rw e at l in ground arith
above_start (negsuc n) x tip small h k l = absurd (omega arith)

module _ (xdr : XdrLib) (parse_time : Str → Option ℕ) (id : Str) where
  -- If an event can be made of `x`, its place in the table is taken.
  abbrev pub IsStored : List Event → EventInfo → Type 0
  IsStored rows x = (e : Event) → event_of xdr parse_time id x ≡ some e → taken e rows ≡ true

  kept_head :
      (x : EventInfo) (xs : List EventInfo) (rows : List Event)
      → All (λ e. taken e rows ≡ true) (kept xdr parse_time id (x ∷ xs))
      → IsStored rows x × All (λ e. taken e rows ≡ true) (kept xdr parse_time id xs)
  kept_head x xs rows h = cases (event_of xdr parse_time id x) refl
    where
      cases :
          (o : Option Event)
          → event_of xdr parse_time id x ≡ o
          → IsStored rows x × All (λ e. taken e rows ≡ true) (kept xdr parse_time id xs)
      cases none e =
          let rest : All (λ e. taken e rows ≡ true) (kept xdr parse_time id xs) = rw e at h in
          (λ y k. let l : none ≡ some y = sym e ∙ k in absurd cc, rest)
      cases (some y) e =
          let both : (taken y rows ≡ true)
              × All (λ e. taken e rows ≡ true) (kept xdr parse_time id xs) =
            rw e at h in
          (
            λ z k.
                let l : some y ≡ some z = sym e ∙ k in
                let m : y ≡ z = cc in subst (λ t. taken t rows ≡ true) m both.0,
            both.1,
          )

  -- The events before a window that are stored, and the events kept of the window, are all that
  -- are not in a ledger that was skipped.
  pub window-IsStored :
      (xs : List EventInfo) (start : ℕ) (rows : List Event) (lost : List (ℕ × ℕ))
      → All (λ x. x.ledger <ℤ pos start → was_skipped lost x.ledger ≡ false → IsStored rows x) xs
      → All (λ e. taken e rows ≡ true) (kept xdr parse_time id (window start xs))
      → All (λ x. was_skipped lost x.ledger ≡ false → IsStored rows x) xs
  window-IsStored [] start rows lost old h = tt
  window-IsStored (x ∷ xs) start rows lost (ox, old) h =
      elim (Bool-cases (ltb_ℤ x.ledger (pos start))) [
        | inl b ↦
            let rest : All (λ e. taken e rows ≡ true) (kept xdr parse_time id (window start xs)) =
              rw b at h in
            (ox (ground arith), window-IsStored xs start rows lost old rest)
        | inr b ↦
            let both : All (λ e. taken e rows ≡ true)
                (kept xdr parse_time id (x ∷ window start xs)) =
              rw b at h in
            let (here, rest) = kept_head x (window start xs) rows both in
            (λ unskipped. here, window-IsStored xs start rows lost old rest)
      ]
