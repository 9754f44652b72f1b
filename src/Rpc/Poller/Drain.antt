-- ===== src/Rpc/Poller/Drain.antt =====
-- indexer/internal/rpc/events.go: drain, against a server that pages through a fixed window.
use pulsar_app.Base.{
  ℕ, Bool, true, zero, suc, ◌+◌, ◌≤◌, ◌<◌, List, [], ◌∷◌, ◌++◌, append_assoc, Option, none, some,
  Str, ltb, pos, ok, ◌≡◌, refl, sym, ap, ◌∙◌, subst, arith, inl, inr, length, length-append,
  length-take, take, drop, take-eq_self, take-append-drop, Bool-cases,
}
use pulsar_app.Decoder.Xdr.{XdrLib}
use pulsar_app.Rpc.{EventInfo, Request, Caller}
use pulsar_app.Rpc.Poller.{
  Drained, Remote, Drain, take_page, page_end, page_walked, turn, drain_pages, drain,
}

-- The largest limit that a request may have.
abbrev pub limit_cap : ℕ
limit_cap = 10000

drop-append : (xs ys : List EventInfo) → drop (length xs) (xs ++ ys) ≡ ys
drop-append [] ys = refl
drop-append (x ∷ xs) ys = drop-append xs ys

length-drop : (n : ℕ) (xs : List EventInfo) → length (drop n xs) ≤ length xs
length-drop zero xs = omega arith
length-drop (suc n) [] = omega arith
length-drop (suc n) (x ∷ xs) = omega (arith, length-drop n xs)

module _ (xdr : XdrLib) (parse_time : Str → Option ℕ) {Cursor Server : Type 0}
    (caller : Caller Cursor Server) (parse_cursor : Str → Option Cursor) where
  -- A cursor of a page with events: it parses, the server gave it, and it stands at a position.
  abbrev pub StandsAt : (Cursor → Bool) → (Cursor → ℕ) → ℕ → Str → Type 0
  StandsAt issued position n text =
      (c : Cursor) × (parse_cursor text ≡ some c) × (issued c ≡ true) × (position c ≡ n)

  -- What ADR-028 records of paging, for a window of events that does not change while it is read. A
  -- request at the window's first ledger gives its first events, and a request with a cursor that
  -- the server gave those after the position of the cursor, at most the limit of them, which is
  -- from 1 to 10000; other limits may be rejected. A page with events carries a cursor that stands
  -- after its last event. Of the text that an empty page carries nothing is asked.
  pub record Pages (server : Server) (start_ledger : ℕ) (contract_id : Str)
      (stream : List EventInfo) : Type 0 where
    pub issued : Cursor → Bool
    pub position : Cursor → ℕ
    pub first_text : ℕ → Str
    pub later_text : Cursor → ℕ → Str
    pub first_page :
        (limit : ℕ)
        → 0 < limit
        → limit ≤ limit_cap
        → caller.get_events
            (record {
              start_ledger = start_ledger;
              contract_id = contract_id;
              cursor = none;
              limit = limit;
            })
            server
          ≡ (ok (record { events = take limit stream; cursor = first_text limit }), server)
    pub first_cursor :
        (limit : ℕ)
        → 0 < limit
        → limit ≤ limit_cap
        → 0 < length stream
        → StandsAt issued position (length (take limit stream)) (first_text limit)
    pub later_page :
        (c : Cursor) (limit : ℕ)
        → issued c ≡ true
        → 0 < limit
        → limit ≤ limit_cap
        → caller.get_events
            (record { start_ledger = 0; contract_id = contract_id; cursor = some c; limit = limit })
            server
          ≡ (
            ok (record {
              events = take limit (drop (position c) stream);
              cursor = later_text c limit;
            }),
            server,
          )
    pub later_cursor :
        (c : Cursor) (limit : ℕ)
        → issued c ≡ true
        → 0 < limit
        → limit ≤ limit_cap
        → 0 < length (drop (position c) stream)
        → StandsAt issued position
            (position c + length (take limit (drop (position c) stream)))
            (later_text c limit)

  take_page-append :
      (id : Str) (xs ys : List EventInfo) (d : Drained) (count : ℕ)
      → take_page xdr parse_time caller parse_cursor id (xs ++ ys) d count ≡ (
          let (d', c) = take_page xdr parse_time caller parse_cursor id xs d count in
          take_page xdr parse_time caller parse_cursor id ys d' c)
  unfolding take_page
  take_page-append id [] ys d count = refl
  take_page-append id (x ∷ xs) ys d count = take_page-append id xs ys _ _

  -- One pass over events: what is kept of them.
  abbrev pub pass : Str → List EventInfo → Drained → ℕ → Drained × ℕ
  pass = take_page xdr parse_time caller parse_cursor

  abbrev pages_of :
      ℕ
      → Str
      → ℕ
      → Request Cursor
      → Drained
      → Remote Server
      → Drain xdr parse_time caller parse_cursor
  pages_of = drain_pages xdr parse_time caller parse_cursor

  abbrev pub ended : Drained × ℕ → Server → Drain xdr parse_time caller parse_cursor
  ended (d, count) server = some (ok d, record { server = server; unknown = count })

  module _ (server : Server) (start_ledger : ℕ) (id : Str) (stream : List EventInfo) (b : ℕ)
      (w : Pages server start_ledger id stream) (fits : suc b ≤ limit_cap) where
    abbrev request : ℕ → Option Cursor → Request Cursor
    request start c = record { start_ledger = start; contract_id = id; cursor = c; limit = suc b }

    -- The answer that has the first of `rest`, and a cursor after them if there are any.
    abbrev Answers : ℕ → Option Cursor → Str → List EventInfo → List EventInfo → Type 0
    Answers start c text pre rest =
        (caller.get_events (request start c) server
          ≡ (ok (record { events = take (suc b) rest; cursor = text }), server))
        × (0 < length rest
            → StandsAt w.issued w.position (length pre + length (take (suc b) rest)) text)

    Answers-next :
        (c : Cursor) (pre rest : List EventInfo)
        → w.issued c ≡ true
        → w.position c ≡ length pre
        → stream ≡ pre ++ rest
        → Answers 0 (some c) (w.later_text c (suc b)) pre rest
    Answers-next c pre rest given at split =
        let left : drop (w.position c) stream ≡ rest =
          ap (λ n. drop n stream) at ∙ ap (drop (length pre)) split ∙ drop-append pre rest in
        (
          w.later_page c (suc b) given (omega arith) fits ∙ rw left refl,
          λ some_left.
              let more : 0 < length (drop (w.position c) stream) = rw left some_left in
              let stands = w.later_cursor c (suc b) given (omega arith) fits more in
              let place : w.position c + length (take (suc b) (drop (w.position c) stream))
                  ≡ length pre + length (take (suc b) rest) =
                ap (λ n. n + length (take (suc b) (drop (w.position c) stream))) at
                ∙ ap (λ ys. length pre + length (take (suc b) ys)) left in
              subst (λ n. StandsAt w.issued w.position n (w.later_text c (suc b))) place stands,
        )

    walk :
        (fuel start : ℕ) (c : Option Cursor) (text : Str) (pre rest : List EventInfo) (d : Drained)
        (count : ℕ)
        → stream ≡ pre ++ rest
        → Answers start c text pre rest
        → length rest < fuel
        → pages_of fuel id (suc b) (request start c) d (record { server = server; unknown = count })
          ≡ ended (pass id rest d count) server
    unfolding drain_pages turn page_walked page_end take_page
    walk zero start c text pre rest d count split answer enough = absurd (omega arith)
    walk (suc fuel) start c text pre [] d count split answer enough = rw (answer.0) refl
    walk (suc fuel) start c text pre (x ∷ xs) d count split answer enough =
        let (next, parses, given, at) = answer.1 (omega arith) in
        elim (Bool-cases (ltb (suc (length (take b xs))) (suc b))) [
          | inl short ↦
              let whole : take b xs ≡ xs = take-eq_self b xs (ground (arith, length-take b xs)) in
              rw (answer.0) (rw (parses, short) (rw whole refl))
          | inr full ↦
              let split' : stream ≡ (pre ++ x ∷ take b xs) ++ drop b xs =
                split
                ∙ (ap (λ ys. pre ++ x ∷ ys) (sym (take-append-drop b xs))
                    ∙ sym (append_assoc pre (x ∷ take b xs) (drop b xs))) in
              let place : w.position next ≡ length (pre ++ x ∷ take b xs) =
                at ∙ sym (length-append pre (x ∷ take b xs)) in
              let (d1, c1) = pass id (x ∷ take b xs) d count in
              let rest_read =
                walk fuel 0 (some next) (w.later_text next (suc b)) (pre ++ x ∷ take b xs)
                  (drop b xs) d1 c1 split'
                  (Answers-next next (pre ++ x ∷ take b xs) (drop b xs) given place split')
                  (omega (arith, length-drop b xs)) in
              rw (answer.0) (
                rw (parses, full)
                  (rest_read
                    ∙ ap (λ p. ended p server)
                        (sym (take_page-append id (x ∷ take b xs) (drop b xs) d count)
                          ∙ ap (λ ys. pass id (x ∷ ys) d count) (take-append-drop b xs))))
        ]

    -- Against a server that pages through a fixed window as ADR-028 has it, a drain with one turn
    -- more than there are events ends, and gives what one pass over the window keeps, whatever the
    -- page size, from 1 to 10000.
    pub drain_complete :
        (fuel count : ℕ)
        → length stream < fuel
        → drain xdr parse_time caller parse_cursor fuel id
            (suc b)
            start_ledger
            (record { server = server; unknown = count })
          ≡ ended (pass id stream (record { events = []; highest = pos 0 }) count) server
    unfolding drain
    drain_complete fuel count enough =
        walk fuel start_ledger none (w.first_text (suc b)) [] stream
          (record { events = []; highest = pos 0 }) count refl
          (
            w.first_page (suc b) (omega arith) fits,
            λ more.
                let stands = w.first_cursor (suc b) (omega arith) fits more in
                subst (λ n. StandsAt w.issued w.position n (w.first_text (suc b))) (omega arith)
                  stands,
          )
          enough
