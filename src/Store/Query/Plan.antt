-- ===== src/Store/Query/Plan.antt =====
-- The SELECT that is built selects by the query's filters, and never misnumbers a placeholder.
use pulsar_app.Base.{
  ℕ, suc, ◌+◌, ◌≤◌, Bool, true, false, ◌&&◌, ◌||◌, not, fail_if, List, [], ◌∷◌, ◌++◌, Option, some,
  ◌≡◌, refl, sym, ap, ◌∙◌, arith, Str, eq_str, if◌then◌else◌, pos, ltb_ℤ, Json, ok, length,
  length-append, take, select, select-congr, all_true, All, >>=-eq-ok,
}
use pulsar_app.Store.{Dialect, contract_id_required, unknown_dialect, Event}
use pulsar_app.Store.Query.{
  EventQuery, Clause, name_is, ledger_from, ledger_to, id_after, id_before, topic_has, Arg, text,
  number, Builder, add, add_if, non_empty, Select, first_condition, filters, cursor_clause,
  with_cursor, supported, build_events_query, topics_contain, clause_holds, holds, satisfied,
  run_select, sorted, order_is_ascending, parse_cursor,
}
use pulsar_app.Store.Query.Builders.{
  ltb_ℤ-pos, arg_at-append, arg_at_last, all_true-append, InBounds, add-InBounds, add_if-InBounds,
  passes, past, finished_select,
}

module _ (topic_text : Dialect → Json → Option Str) where
  -- More arguments behind do not change what a condition reads.
  holds-append :
      (cs : List (Clause × ℕ)) (args more : List Arg) (e : Event)
      → All (λ (c : Clause × ℕ). c.1 ≤ length args) cs
      → all_true (holds topic_text (args ++ more) e) cs ≡ all_true (holds topic_text args e) cs
  unfolding holds
  holds-append [] args more e h = refl
  holds-append ((c, n) ∷ cs) args more e (hc, h) =
      rw (arg_at-append n args more hc, holds-append cs args more e h)

  satisfied-add :
      (c : Clause) (a : Arg) (b : Builder) (e : Event)
      → InBounds b
      → satisfied topic_text (add c a b) e
        ≡ (satisfied topic_text b e && clause_holds topic_text c (some a) e)
  satisfied-add c a b e h =
      all_true-append (holds topic_text (b.args ++ a ∷ []) e) b.conditions _
      ∙ rw (holds-append b.conditions b.args (a ∷ []) e h)
          (unfold holds in rw (arg_at_last b.args a) (and_true _ _))
    where
      and_true : (x y : Bool) → (x && (y && true)) ≡ (x && y)
      and_true x y = ground arith

  satisfied-add_if :
      (t : Bool) (c : Clause) (a : Arg) (b : Builder) (e : Event)
      → InBounds b
      → satisfied topic_text (add_if t c a b) e
        ≡ (satisfied topic_text b e && (if t then clause_holds topic_text c (some a) e else true))
  satisfied-add_if true c a b e h = satisfied-add c a b e h
  satisfied-add_if false c a b e h = ground arith

  -- What a query asks of an event, cursor aside.
  unfoldable pub matches : EventQuery → Dialect → Event → Bool
  unfolding clause_holds
  matches q d e =
      eq_str e.contract_id q.contract_id
      && (eq_str q.name [] || eq_str e.name q.name)
      && (not (ltb_ℤ (pos 0) q.from_ledger) || not (ltb_ℤ e.ledger q.from_ledger))
      && (not (ltb_ℤ (pos 0) q.to_ledger) || not (ltb_ℤ q.to_ledger e.ledger))
      && (eq_str q.topic_contains [] || topics_contain topic_text d q.topic_contains e.topics_json)

  satisfied-filters :
      (q : EventQuery) (d : Dialect)
      → ((e : Event) → satisfied topic_text (filters q d) e ≡ matches q d e)
        × InBounds (filters q d)
  unfolding matches holds clause_holds
  satisfied-filters q d = (proof, in_bounds4)
    where
      b0 : Builder
      b0 = first_condition q

      b1 : Builder
      b1 = add_if (non_empty q.name) name_is (text q.name) b0

      b2 : Builder
      b2 = add_if (ltb_ℤ (pos 0) q.from_ledger) ledger_from (number q.from_ledger) b1

      b3 : Builder
      b3 = add_if (ltb_ℤ (pos 0) q.to_ledger) ledger_to (number q.to_ledger) b2

      in_bounds0 : InBounds b0
      in_bounds0 = (omega arith, tt)

      in_bounds1 : InBounds b1
      in_bounds1 = add_if-InBounds (non_empty q.name) name_is (text q.name) b0 in_bounds0

      in_bounds2 : InBounds b2
      in_bounds2 =
          add_if-InBounds (ltb_ℤ (pos 0) q.from_ledger) ledger_from (number q.from_ledger) b1
            in_bounds1

      in_bounds3 : InBounds b3
      in_bounds3 =
          add_if-InBounds (ltb_ℤ (pos 0) q.to_ledger) ledger_to (number q.to_ledger) b2 in_bounds2

      in_bounds4 : InBounds (filters q d)
      in_bounds4 =
          add_if-InBounds (non_empty q.topic_contains) (topic_has d) (text q.topic_contains) b3
            in_bounds3

      regroup :
          (a n x f y t z p w : Bool)
          → (((((a && true) && (if not n then x else true)) && (if f then y else true))
                && (if t then z else true))
              && (if not p then w else true))
            ≡ (a && (n || x) && (not f || y) && (not t || z) && (p || w))
      regroup a n x f y t z p w = ground arith

      chained :
          (e : Event)
          → satisfied topic_text (filters q d) e ≡ (
              (((satisfied topic_text b0 e
                    && (if non_empty q.name
                        then clause_holds topic_text name_is (some (text q.name)) e
                        else true))
                  && (if ltb_ℤ (pos 0) q.from_ledger
                      then clause_holds topic_text ledger_from (some (number q.from_ledger)) e
                      else true))
                && (if ltb_ℤ (pos 0) q.to_ledger
                    then clause_holds topic_text ledger_to (some (number q.to_ledger)) e
                    else true))
              && (if non_empty q.topic_contains
                  then clause_holds topic_text (topic_has d) (some (text q.topic_contains)) e
                  else true))
      chained e =
          satisfied-add_if (non_empty q.topic_contains) (topic_has d) (text q.topic_contains) b3 e
            in_bounds3
          ∙ rw
              (
                satisfied-add_if (ltb_ℤ (pos 0) q.to_ledger) ledger_to (number q.to_ledger) b2 e
                    in_bounds2,
                satisfied-add_if (ltb_ℤ (pos 0) q.from_ledger) ledger_from (number q.from_ledger) b1
                    e in_bounds1,
                satisfied-add_if (non_empty q.name) name_is (text q.name) b0 e in_bounds0,
              )
              refl

      proof : (e : Event) → satisfied topic_text (filters q d) e ≡ matches q d e
      proof e =
          chained e
          ∙ regroup (eq_str e.contract_id q.contract_id) (eq_str q.name []) (eq_str e.name q.name)
              (ltb_ℤ (pos 0) q.from_ledger) (not (ltb_ℤ e.ledger q.from_ledger))
              (ltb_ℤ (pos 0) q.to_ledger) (not (ltb_ℤ q.to_ledger e.ledger))
              (eq_str q.topic_contains [])
              (topics_contain topic_text d q.topic_contains e.topics_json)

  satisfied-add_cursor :
      (n : ℕ) (ascending : Bool) (b : Builder)
      → InBounds b
      → ((e : Event)
          → satisfied topic_text (add (cursor_clause ascending) (number (pos n)) b) e
            ≡ (satisfied topic_text b e && passes ascending (ok n) e))
        × InBounds (add (cursor_clause ascending) (number (pos n)) b)
  unfolding passes clause_holds
  satisfied-add_cursor n true b hb = (
    (λ e.
        satisfied-add id_after (number (pos n)) b e hb
        ∙ ap (◌&&◌ (satisfied topic_text b e)) (ltb_ℤ-pos _ _)),
    add-InBounds id_after _ b hb,
  )
  satisfied-add_cursor n false b hb = (
    (λ e.
        satisfied-add id_before (number (pos n)) b e hb
        ∙ ap (◌&&◌ (satisfied topic_text b e)) (ltb_ℤ-pos _ _)),
    add-InBounds id_before _ b hb,
  )

  satisfied-with_cursor :
      (cursor : Str) (ascending : Bool) (b b' : Builder)
      → InBounds b
      → with_cursor cursor ascending b ≡ ok b'
      → ((e : Event)
          → satisfied topic_text b' e ≡ (satisfied topic_text b e && past cursor ascending e))
        × InBounds b'
  unfolding with_cursor past passes
  satisfied-with_cursor [] ascending b b' hb h =
      let e : b ≡ b' = cc in rw (sym e) ((λ e. ground arith), hb)
  satisfied-with_cursor (c ∷ s) ascending b b' hb h =
      let (n, hn, k) = >>=-eq-ok (parse_cursor (c ∷ s)) _ h in
      let e : add (cursor_clause ascending) (number (pos n)) b ≡ b' = cc in
      let (lem, ib) = satisfied-add_cursor n ascending b hb in
      rw (sym e)
        ((λ ev. lem ev ∙ ap (λ r. satisfied topic_text b ev && passes ascending r ev) (sym hn)), ib)

  run_select-finished_select :
      (b : Builder) (n : ℕ) (ascending : Bool) (events : List Event)
      → InBounds b
      → run_select topic_text (finished_select b n ascending) events
        ≡ take n (sorted ascending (select (satisfied topic_text b) events))
  unfolding run_select
  run_select-finished_select b n ascending events hb =
      let count : length (b.args ++ number (pos n) ∷ []) ≡ suc (length b.args) =
        omega (arith, length-append b.args (number (pos n) ∷ [])) in
      rw (count, arg_at_last b.args (number (pos n)))
        (ap (λ es. take n (sorted ascending es))
          (select-congr _ _ events
            (λ e. holds-append b.conditions b.args (number (pos n) ∷ []) e hb)))

  -- The rows that a query selects, in its direction.
  unfoldable pub answers : EventQuery → Dialect → Bool → List Event → List Event
  unfolding matches past
  answers q d ascending events =
      sorted ascending (select (λ e. matches q d e && past q.cursor ascending e) events)

  -- The SELECT that is built reads, of the rows that the query matches past its cursor, the first
  -- `limit + 1` in its direction.
  pub run_select-build_events_query :
      (q : EventQuery) (d : Dialect) (limit : ℕ) (s : Select) (events : List Event)
      → build_events_query q d limit ≡ ok s
      → (order_is_ascending q.order ≡ ok s.ascending)
        × (run_select topic_text s events ≡ take (limit + 1) (answers q d s.ascending events))
  unfolding build_events_query answers
  run_select-build_events_query q d limit s events h =
      let (u, hu, k) = >>=-eq-ok (fail_if (eq_str q.contract_id []) contract_id_required) _ h in
      let (v, hv, l) = >>=-eq-ok (fail_if (not (supported d)) unknown_dialect) _ k in
      let (asc, ha, m) = >>=-eq-ok (order_is_ascending q.order) _ l in
      let (b, hb, n) = >>=-eq-ok (with_cursor q.cursor asc (filters q d)) _ m in
      let e : finished_select b (limit + 1) asc ≡ s = cc in
      let (past_lem, ib) =
        satisfied-with_cursor q.cursor asc (filters q d) b (satisfied-filters q d).1 hb in
      rw (sym e) (
        ha,
        run_select-finished_select b (limit + 1) asc events ib
            ∙ ap (λ es. take (limit + 1) (sorted asc es))
                (select-congr _ _ events (λ ev. past_lem ev ∙ rw ((satisfied-filters q d).0 ev))),
      )
