-- ===== src/Rpc/Poller/Kept.antt =====
-- indexer/internal/rpc/events.go: what one pass of drain over a list of events keeps.
use pulsar_app.Base.{
  ℕ, Bool, true, List, [], ◌∷◌, ◌++◌, append_assoc, append-nil, Option, none, some, Str, ℤ, ◌≤ℤ◌,
  ◌≡◌, refl, sym, ap, ◌∙◌, arith, All, All-append, All-map, Ordered, select, Bool-cases, inl, inr,
}
use pulsar_app.Decoder.Xdr.{XdrLib}
use pulsar_app.Store.{Event}
use pulsar_app.Rpc.{EventInfo, Caller}
use pulsar_app.Rpc.Assemble.{assemble}
use pulsar_app.Rpc.Assemble.Uncounted.{
  event_of, assemble-IsUncounted, HasSource, assemble-HasSource,
}
use pulsar_app.Rpc.Poller.{Drained, keep, take_page}
use pulsar_app.Rpc.Poller.Drain.{pass}

abbrev put_first : Option Event → List Event → List Event
put_first none es = es
put_first (some e) es = e ∷ es

module _ (xdr : XdrLib) (parse_time : Str → Option ℕ) (id : Str) where
  -- The events that can be assembled.
  abbrev pub kept : List EventInfo → List Event
  kept [] = []
  kept (x ∷ xs) = put_first (event_of xdr parse_time id x) (kept xs)

module _ (P : Event → Type 0) where
  put_first-All :
      (o : Option Event) (es : List Event)
      → ((e : Event) → o ≡ some e → P e)
      → All P es
      → All P (put_first o es)
  put_first-All none es first h = h
  put_first-All (some e) es first h = (first e refl, h)

  put_first-All_rest : (o : Option Event) (es : List Event) → All P (put_first o es) → All P es
  put_first-All_rest none es h = h
  put_first-All_rest (some e) es h = h.1

  put_first-All_less :
      (o : Option Event) (es fs : List Event)
      → All P (put_first o es)
      → All P fs
      → All P (put_first o fs)
  put_first-All_less none es fs h k = k
  put_first-All_less (some e) es fs h k = (h.0, k)

put_first-Ordered :
    (r : Event → Event → Bool) (o : Option Event) (es fs : List Event)
    → Ordered r (put_first o es)
    → ((P : Event → Type 0) → All P es → All P fs)
    → (Ordered r es → Ordered r fs)
    → Ordered r (put_first o fs)
put_first-Ordered r none es fs h all rest = rest h
put_first-Ordered r (some e) es fs h all rest = (all (λ f. r e f ≡ true) h.0, rest h.1)

put_first-Ordered_rest :
    (r : Event → Event → Bool) (o : Option Event) (es : List Event)
    → Ordered r (put_first o es)
    → Ordered r es
put_first-Ordered_rest r none es h = h
put_first-Ordered_rest r (some e) es h = h.1

module _ (xdr : XdrLib) (parse_time : Str → Option ℕ) (id : Str) where
  pub kept-All :
      (P : Event → Type 0) (xs : List EventInfo)
      → All (λ x. (e : Event) → event_of xdr parse_time id x ≡ some e → P e) xs
      → All P (kept xdr parse_time id xs)
  kept-All P [] h = tt
  kept-All P (x ∷ xs) (hx, h) =
      put_first-All P (event_of xdr parse_time id x) (kept xdr parse_time id xs) hx
        (kept-All P xs h)

  pub kept-append :
      (xs ys : List EventInfo)
      → kept xdr parse_time id (xs ++ ys) ≡ kept xdr parse_time id xs ++ kept xdr parse_time id ys
  kept-append [] ys = refl
  kept-append (x ∷ xs) ys =
      ap (put_first (event_of xdr parse_time id x)) (kept-append xs ys)
      ∙ put_first-append (event_of xdr parse_time id x)
    where
      put_first-append :
          (o : Option Event)
          → put_first o (kept xdr parse_time id xs ++ kept xdr parse_time id ys)
            ≡ put_first o (kept xdr parse_time id xs) ++ kept xdr parse_time id ys
      put_first-append none = refl
      put_first-append (some e) = refl

  kept-select-All :
      (p : EventInfo → Bool) (P : Event → Type 0) (xs : List EventInfo)
      → All P (kept xdr parse_time id xs)
      → All P (kept xdr parse_time id (select p xs))
  kept-select-All p P [] h = tt
  kept-select-All p P (x ∷ xs) h =
      let made = event_of xdr parse_time id x in
      let rest = kept-select-All p P xs (put_first-All_rest P made _ h) in
      elim (Bool-cases (p x)) [
        | inl t ↦ rw t (put_first-All_less P made _ _ h rest)
        | inr t ↦ rw t rest
      ]

  -- What is kept of some of the events is in the order of what is kept of all.
  pub kept-select-Ordered :
      (r : Event → Event → Bool) (p : EventInfo → Bool) (xs : List EventInfo)
      → Ordered r (kept xdr parse_time id xs)
      → Ordered r (kept xdr parse_time id (select p xs))
  kept-select-Ordered r p [] h = tt
  kept-select-Ordered r p (x ∷ xs) h =
      let made = event_of xdr parse_time id x in
      elim (Bool-cases (p x)) [
        | inl t ↦ rw t (
            put_first-Ordered r made (kept xdr parse_time id xs) _ h
              (λ P k. kept-select-All p P xs k) (λ k. kept-select-Ordered r p xs k))
        | inr t ↦ rw t (kept-select-Ordered r p xs (put_first-Ordered_rest r made _ h))
      ]

module _ (xdr : XdrLib) (parse_time : Str → Option ℕ) {Cursor Server : Type 0}
    (caller : Caller Cursor Server) (parse_cursor : Str → Option Cursor) (id : Str) where
  keep-put_first :
      (o : Option Event) (d : Drained) (es : List Event)
      → (keep xdr parse_time caller parse_cursor o d).events ++ es ≡ d.events ++ put_first o es
  keep-put_first none d es = refl
  keep-put_first (some e) d es = append_assoc d.events (e ∷ []) es

  -- A pass adds the events that can be assembled, in their order, whatever the counter is.
  pub pass-kept :
      (xs : List EventInfo) (d : Drained) (count : ℕ)
      → (pass xdr parse_time caller parse_cursor id xs d count).0.events
        ≡ d.events ++ kept xdr parse_time id xs
  unfolding take_page
  pass-kept [] d count = sym (append-nil d.events)
  pass-kept (x ∷ xs) d count =
      let made = assemble xdr parse_time id x count in
      pass-kept xs (keep xdr parse_time caller parse_cursor made.0 d) made.1
      ∙ keep-put_first made.0 d (kept xdr parse_time id xs)
      ∙ ap (λ o. d.events ++ put_first o (kept xdr parse_time id xs))
          (assemble-IsUncounted xdr parse_time id x count 0)

  keep_bounds :
      (x : EventInfo) (o : Option Event) (d : Drained) (bound : ℤ)
      → HasSource xdr parse_time id x o
      → x.ledger ≤ℤ bound
      → d.highest ≤ℤ bound
      → (d.highest ≤ℤ (keep xdr parse_time caller parse_cursor o d).highest)
        × ((keep xdr parse_time caller parse_cursor o d).highest ≤ℤ bound)
  keep_bounds x none d bound h k l = omega arith
  keep_bounds x (some e) d bound h k l = ground arith

  -- The highest ledger of a pass is no lower than before it, and no higher than its events.
  pub pass_bounds :
      (xs : List EventInfo) (d : Drained) (count : ℕ) (bound : ℤ)
      → All (λ x. x.ledger ≤ℤ bound) xs
      → d.highest ≤ℤ bound
      → (d.highest ≤ℤ (pass xdr parse_time caller parse_cursor id xs d count).0.highest)
        × ((pass xdr parse_time caller parse_cursor id xs d count).0.highest ≤ℤ bound)
  unfolding take_page
  pass_bounds [] d count bound h l = omega arith
  pass_bounds (x ∷ xs) d count bound (hx, h) l =
      let made = assemble xdr parse_time id x count in
      let (up, within) =
        keep_bounds x made.0 d bound (assemble-HasSource xdr parse_time id x count) hx l in
      let (up', within') =
        pass_bounds xs (keep xdr parse_time caller parse_cursor made.0 d) made.1 bound h within in
      (omega arith, within')

  keep-highest :
      (o : Option Event) (d : Drained)
      → All (λ e. e.ledger ≤ℤ d.highest) d.events
      → All
          (λ e. e.ledger ≤ℤ (keep xdr parse_time caller parse_cursor o d).highest)
          (keep xdr parse_time caller parse_cursor o d).events
  keep-highest none d h = h
  keep-highest (some e) d h =
      All-append _ d.events (e ∷ []) (All-map (λ x k. ground arith) d.events h) (ground arith, tt)

  -- Every event that a pass keeps is at or below the highest ledger that it reports.
  pub pass-highest :
      (xs : List EventInfo) (d : Drained) (count : ℕ)
      → All (λ e. e.ledger ≤ℤ d.highest) d.events
      → All
          (λ e. e.ledger ≤ℤ (pass xdr parse_time caller parse_cursor id xs d count).0.highest)
          (pass xdr parse_time caller parse_cursor id xs d count).0.events
  unfolding take_page
  pass-highest [] d count h = h
  pass-highest (x ∷ xs) d count h =
      let made = assemble xdr parse_time id x count in
      pass-highest xs (keep xdr parse_time caller parse_cursor made.0 d) made.1
        (keep-highest made.0 d h)
