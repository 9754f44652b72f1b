-- ===== src/Store/Query/Pages.antt =====
-- A client that follows the cursors of indexer/internal/store/events.go: Query, page after page.
use pulsar_app.Base.{
  ℕ, zero, suc, ◌+◌, ◌≤◌, ◌<◌, Bool, true, List, [], ◌∷◌, ◌++◌, append_assoc, Option, none, some,
  ◌≡◌, ◌≢◌, refl, sym, ap, ap₂, subst, ◌∙◌, inl, inr, arith, Str, codes, ltb, Json, ok, err, length,
  take, drop, take-append-drop, select, select-All, select-select, select-congr, Ordered,
  Ordered-select, All, Bool-cases,
}
use pulsar_app.Strconv.{max_i64}
use pulsar_app.Store.{Dialect, Event, Db, ran}
use pulsar_app.Store.Query.{
  EventQuery, supported, sorted, before, order_is_ascending, format_cursor, resolve_page_size,
  with_cursor, filters, query, rows_of, run_select, page_of, last_id, Builder,
}
use pulsar_app.Store.Query.Builders.{with_cursor-format_cursor, past}
use pulsar_app.Store.Query.Plan.{matches, answers, run_select-build_events_query}
use pulsar_app.Store.Query.Direction.{
  runs, InStep, directed, sorted-eq, directed-select, directed-Ordered, directed-All, past-runs,
  length-drop, build_events_query_ok, page_of-short, page_of-long, select-last_id_within,
  last_id-All_within, length-directed, resolve_page_size_positive,
}

module _ (topic_text : Dialect → Json → Option Str) (d : Dialect) where
  -- A client that asks for page after page, each with the cursor of the one before it, in at most
  -- `fuel` calls: the events that it was given, or nothing if a call failed or the calls ran out.
  unfoldable pub fetch_all : ℕ → EventQuery → Db → Option (List Event)
  fetch_all zero q db = none
  fetch_all (suc fuel) q db = elim (query topic_text d ran q db) [
    | err e ↦ none
    | ok page ↦ elim page.next_cursor [
      | none ↦ some page.events
      | some c ↦ elim (fetch_all fuel (record q { cursor = c }) db) [
        | none ↦ none
        | some es ↦ some (page.events ++ es)
      ]
    ]
  ]

  fetch_all_end :
      (fuel : ℕ) (q : EventQuery) (db : Db) (es : List Event)
      → query topic_text d ran q db ≡ ok (record { events = es; next_cursor = none })
      → fetch_all (suc fuel) q db ≡ some es
  unfolding fetch_all
  fetch_all_end fuel q db es h = rw (h, fetch_all)

  fetch_all_next :
      (fuel : ℕ) (q : EventQuery) (db : Db) (es more : List Event) (c : Str)
      → query topic_text d ran q db ≡ ok (record { events = es; next_cursor = some c })
      → fetch_all fuel (record q { cursor = c }) db ≡ some more
      → fetch_all (suc fuel) q db ≡ some (es ++ more)
  unfolding fetch_all
  fetch_all_next fuel q db es more c h k = rw (h, k, fetch_all)

  -- A query that the checks let through is answered by the page of its rows.
  pub query-eq :
      (q : EventQuery) (db : Db) (limit : ℕ) (ascending : Bool) (b : Builder)
      → q.contract_id ≢ []
      → supported d ≡ true
      → resolve_page_size q.limit ≡ ok limit
      → order_is_ascending q.order ≡ ok ascending
      → with_cursor q.cursor ascending (filters q d) ≡ ok b
      → query topic_text d ran q db
        ≡ ok (page_of limit (take (suc limit) (answers topic_text q d ascending db.events)))
  unfolding query rows_of
  query-eq q db limit ascending b hc hd hl ho hw =
      let (s, hs) = build_events_query_ok q d limit ascending b hc hd ho hw in
      let (same, rows) = run_select-build_events_query topic_text q d limit s db.events hs in
      let direction : s.ascending ≡ ascending = cc in
      let one : limit + 1 ≡ suc limit = omega arith in
      let read : run_select topic_text s db.events
          ≡ take (suc limit) (answers topic_text q d ascending db.events) =
        rows ∙ ap₂ (λ n a. take n (answers topic_text q d a db.events)) one direction in
      rw (hl, hs) (rw read)

  pub answers-eq :
      (q : EventQuery) (ascending : Bool) (events : List Event)
      → Ordered before (select (matches topic_text q d) events)
      → answers topic_text q d ascending events
        ≡ select
            (past q.cursor ascending)
            (directed ascending (select (matches topic_text q d) events))
  unfolding answers
  answers-eq q a events h =
      ap (sorted a) (sym (select-select (past q.cursor a) (matches topic_text q d) events))
      ∙ sorted-eq a _ (Ordered-select before (past q.cursor a) _ h)
      ∙ directed-select a (past q.cursor a) _

  module _ (q : EventQuery) (db : Db) (l : ℕ) (ascending : Bool) where
    abbrev chosen : List Event
    chosen = directed ascending (select (matches topic_text q d) db.events)

    resume :
        (pre : List Event) (x : Event) (part rest : List Event)
        → InStep (select (matches topic_text q d) db.events)
        → chosen ≡ (pre ++ x ∷ part) ++ rest
        → (select (past (format_cursor (last_id (x ∷ part))) ascending) chosen ≡ rest)
          × (last_id (x ∷ part) ≤ max_i64)
    resume pre x part rest (_, ids, bounds) split =
        let all : All (λ e. e.id ≤ max_i64) ((pre ++ x ∷ part) ++ rest) =
          subst (All (λ e. e.id ≤ max_i64)) split
            (directed-All (λ e. e.id ≤ max_i64) ascending _ bounds) in
        let in_order : Ordered (λ e f. runs ascending e.id f.id) ((pre ++ x ∷ part) ++ rest) =
          subst (Ordered (λ e f. runs ascending e.id f.id)) split
            (directed-Ordered ascending _ ids) in
        let bound = last_id-All_within (λ n. n ≤ max_i64) pre x part rest all in
        (
          select-congr _ _ chosen (λ e. past-runs ascending (last_id (x ∷ part)) e bound)
              ∙ (ap (select (λ e. runs ascending (last_id (x ∷ part)) e.id)) split
                  ∙ select-last_id_within ascending pre x part rest in_order),
          bound,
        )

    -- The walk from a cursor whose rows are `rest`.
    abbrev Walks : ℕ → Type 0
    Walks fuel =
        (cursor : Str) (pre rest : List Event) (b : Builder)
        → chosen ≡ pre ++ rest
        → select (past cursor ascending) chosen ≡ rest
        → with_cursor cursor ascending (filters q d) ≡ ok b
        → length rest < fuel
        → fetch_all fuel (record q { cursor = cursor }) db ≡ some rest

    walk_next :
        (fuel : ℕ) (here : EventQuery) (pre : List Event) (x : Event) (xs : List Event)
        → Walks fuel
        → InStep (select (matches topic_text q d) db.events)
        → record here { cursor = codes "" } ≡ record q { cursor = codes "" }
        → chosen ≡ pre ++ x ∷ xs
        → l < length xs
        → length xs < fuel
        → query topic_text d ran here db ≡ ok (page_of (suc l) (take (suc (suc l)) (x ∷ xs)))
        → fetch_all (suc fuel) here db ≡ some (x ∷ xs)
    walk_next fuel here pre x xs ih step same split more enough page =
        let tail = drop l xs in
        let whole : x ∷ take l xs ++ tail ≡ x ∷ xs = rw (take-append-drop l xs) in
        let again : chosen ≡ (pre ++ x ∷ take l xs) ++ tail =
          split ∙ (ap (◌++◌ pre) (sym whole) ∙ sym (append_assoc pre (x ∷ take l xs) tail)) in
        let (after, bound) = resume pre x (take l xs) tail step again in
        let c = format_cursor (last_id (x ∷ take l xs)) in
        let shorter : length tail < fuel = omega (arith, length-drop l xs) in
        let rest_read =
          ih c (pre ++ x ∷ take l xs) tail _ again after
            (with_cursor-format_cursor _ ascending (filters q d) bound) shorter in
        let moved : record here { cursor = c } ≡ record q { cursor = c } =
          ap (λ (r : EventQuery). record r { cursor = c }) same in
        fetch_all_next fuel here db (x ∷ take l xs) tail c
          (page ∙ ap ok (page_of-long (suc l) (x ∷ xs) (omega arith)))
          (subst (λ r. fetch_all fuel r db ≡ some tail) (sym moved) rest_read)
        ∙ ap some whole

    onward :
        (fuel : ℕ) (here : EventQuery) (pre rest : List Event)
        → Walks fuel
        → InStep (select (matches topic_text q d) db.events)
        → record here { cursor = codes "" } ≡ record q { cursor = codes "" }
        → chosen ≡ pre ++ rest
        → suc l < length rest
        → length rest < suc fuel
        → query topic_text d ran here db ≡ ok (page_of (suc l) (take (suc (suc l)) rest))
        → fetch_all (suc fuel) here db ≡ some rest
    onward fuel here pre [] ih step same split more enough page = absurd (omega arith)
    onward fuel here pre (x ∷ xs) ih step same split more enough page =
        walk_next fuel here pre x xs ih step same split (omega arith) (omega arith) page

    walk :
        (fuel : ℕ)
        → q.contract_id ≢ []
        → supported d ≡ true
        → resolve_page_size q.limit ≡ ok (suc l)
        → order_is_ascending q.order ≡ ok ascending
        → InStep (select (matches topic_text q d) db.events)
        → Walks fuel
    unfolding matches
    walk zero hc hd hl ho step cursor pre rest b split from hw enough = absurd (omega arith)
    walk (suc fuel) hc hd hl ho step cursor pre rest b split from hw enough =
        let here : EventQuery = record q { cursor = cursor } in
        let page : query topic_text d ran here db ≡ ok (page_of (suc l) (take (suc (suc l)) rest)) =
          query-eq here db (suc l) ascending b hc hd hl ho hw
          ∙ ap (λ es. ok (page_of (suc l) (take (suc (suc l)) es)))
              (answers-eq here ascending db.events step.0 ∙ from) in
        elim (Bool-cases (ltb (suc l) (length rest))) [
          | inr few ↦
              fetch_all_end fuel here db rest
                (page ∙ ap ok (page_of-short (suc l) rest (ground arith)))
          | inl more ↦
              onward fuel here pre rest (walk fuel hc hd hl ho step) step refl split (ground arith)
                enough page
        ]

  past-All : (a : Bool) (es : List Event) → All (λ e. past (codes "") a e ≡ true) es
  past-All a [] = tt
  past-All a (e ∷ es) = (unfold past in refl, past-All a es)

  -- With more calls than rows, a client that starts without a cursor is given the rows that the
  -- query matches, each once, in its direction, if those rows are in emission order, their ids
  -- ascend with it, and each id fits an int64.
  pub fetch_all_complete :
      (q : EventQuery) (db : Db) (limit fuel : ℕ) (ascending : Bool)
      → q.contract_id ≢ []
      → supported d ≡ true
      → resolve_page_size q.limit ≡ ok limit
      → order_is_ascending q.order ≡ ok ascending
      → InStep (select (matches topic_text q d) db.events)
      → length (select (matches topic_text q d) db.events) < fuel
      → fetch_all fuel (record q { cursor = codes "" }) db
        ≡ some (directed ascending (select (matches topic_text q d) db.events))
  unfolding with_cursor
  fetch_all_complete q db limit fuel ascending hc hd hl ho step enough =
      let (l, e) = resolve_page_size_positive q.limit limit hl in
      let size : resolve_page_size q.limit ≡ ok (suc l) = hl ∙ ap ok e in
      let all =
        select-All (past (codes "") ascending) (chosen q db l ascending) (past-All ascending _) in
      let count = length-directed ascending (select (matches topic_text q d) db.events) in
      walk q db l ascending fuel hc hd size ho step (codes "") [] (chosen q db l ascending)
        (filters q d) refl all refl (omega arith)
