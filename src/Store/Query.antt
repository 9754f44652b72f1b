-- ===== src/Store/Query.antt =====
-- indexer/internal/store/events.go: Query, buildEventsQuery and their helpers. The SELECT is a value:
-- its conditions, each with the number of its placeholder, the arguments, and the direction.
pub mod Builders
pub mod Plan
pub mod Direction
pub mod Pages
use pulsar_app.Base.{
  ℕ, zero, suc, ◌+◌, Bool, true, false, ◌&&◌, ◌||◌, not, List, [], ◌∷◌, ◌++◌, Option, none, some,
  Str, codes, eq_str, ltb, if◌then◌else◌, ℤ, pos, negsuc, pos_part, ltb_ℤ, eqb_ℤ, Json, arr, Items,
  no_items, item, Result, ok, err, ◌>>=◌, ◌>>◌, fail_if, length, take, select, all_true, sort_by,
  contains,
}
use pulsar_app.Strconv.{parse_int, format_uint}
use pulsar_app.Store.{
  Outcome, ran, refused, unread, StoreError, engine, contract_id_required, unknown_dialect,
  negative_limit, over_limit, bad_order, bad_cursor, Dialect, sqlite, postgres, other_dialect,
  Event, Db,
}
use pulsar_app.Store.Events.{max_page_size, default_page_size}

-- `EventQuery`
pub record EventQuery : Type 0 where
  pub contract_id : Str
  pub name : Str
  pub from_ledger : ℤ
  pub to_ledger : ℤ
  pub limit : ℤ
  pub cursor : Str
  pub order : Str
  pub topic_contains : Str

-- `EventsPage`
pub record EventsPage : Type 0 where
  pub events : List Event
  pub next_cursor : Option Str

-- `resolvePageSize`; a size in range is a number.
unfoldable pub resolve_page_size : ℤ → Result StoreError ℕ
resolve_page_size limit =
    if eqb_ℤ limit (pos 0)
    then ok default_page_size
    else if ltb_ℤ limit (pos 0)
    then err (negative_limit limit)
    else if ltb_ℤ (pos max_page_size) limit
    then err (over_limit limit)
    else ok (pos_part limit)

-- `orderIsAscending`
unfoldable pub order_is_ascending : Str → Result StoreError Bool
order_is_ascending order =
    if eq_str order (codes "") || eq_str order (codes "asc")
    then ok true
    else if eq_str order (codes "desc")
    then ok false
    else err (bad_order order)

-- `formatCursor`
unfoldable pub format_cursor : ℕ → Str
unfolding format_uint
format_cursor id = format_uint id

cursor_of : Str → Option ℤ → Result StoreError ℕ
cursor_of cursor none = err (bad_cursor cursor)
cursor_of cursor (some (pos n)) = ok n
cursor_of cursor (some (negsuc n)) = err (bad_cursor cursor)

-- `parseCursor`
unfoldable pub parse_cursor : Str → Result StoreError ℕ
unfolding parse_int cursor_of
parse_cursor cursor = cursor_of cursor (parse_int cursor)

-- The conditions of the WHERE clause.
pub data Clause : Type 0 where
  contract_id_is name_is ledger_from ledger_to id_after id_before : Clause
  topic_has : Dialect → Clause

-- A bound argument.
pub data Arg : Type 0 where
  text : Str → Arg
  number : ℤ → Arg

-- `conditions` and `args`.
pub record Builder : Type 0 where
  pub conditions : List (Clause × ℕ)
  pub args : List Arg

-- The closure `add`: the placeholder is the number of arguments after the append.
abbrev pub add : Clause → Arg → Builder → Builder
add c a b = record {
  conditions = b.conditions ++ (c, suc (length b.args)) ∷ [];
  args = b.args ++ a ∷ [];
}

abbrev pub add_if : Bool → Clause → Arg → Builder → Builder
add_if test c a b = if test then add c a b else b

abbrev pub non_empty : Str → Bool
non_empty s = not (eq_str s [])

-- The SELECT: the last argument is the LIMIT.
pub record Select : Type 0 where
  pub conditions : List (Clause × ℕ)
  pub args : List Arg
  pub ascending : Bool

-- `contract_id = $1`
abbrev pub first_condition : EventQuery → Builder
first_condition q = record { conditions = (contract_id_is, 1) ∷ []; args = text q.contract_id ∷ [] }

-- The optional conditions before the cursor's, in order.
abbrev pub filters : EventQuery → Dialect → Builder
filters q dialect =
    add_if (non_empty q.topic_contains) (topic_has dialect) (text q.topic_contains) (
      add_if (ltb_ℤ (pos 0) q.to_ledger) ledger_to (number q.to_ledger) (
        add_if (ltb_ℤ (pos 0) q.from_ledger) ledger_from (number q.from_ledger)
          (add_if (non_empty q.name) name_is (text q.name) (first_condition q))))

abbrev pub cursor_clause : Bool → Clause
cursor_clause ascending = if ascending then id_after else id_before

unfoldable pub with_cursor : Str → Bool → Builder → Result StoreError Builder
with_cursor [] ascending b = ok b
with_cursor (c ∷ s) ascending b = do
  after ← parse_cursor (c ∷ s)
  ok (add (cursor_clause ascending) (number (pos after)) b)

abbrev pub supported : Dialect → Bool
supported sqlite = true
supported postgres = true
supported (other_dialect d) = false

-- `buildEventsQuery`
unfoldable pub build_events_query : EventQuery → Dialect → ℕ → Result StoreError Select
unfolding with_cursor
build_events_query q dialect limit = do
  fail_if (eq_str q.contract_id []) contract_id_required
  fail_if (not (supported dialect)) unknown_dialect
  ascending ← order_is_ascending q.order
  b ← with_cursor q.cursor ascending (filters q dialect)
  ok (record {
    conditions = b.conditions;
    args = b.args ++ number (pos (limit + 1)) ∷ [];
    ascending = ascending;
  })

-- Argument number `n`, from 1.
abbrev pub arg_at : ℕ → List Arg → Option Arg
arg_at zero args = none
arg_at (suc n) [] = none
arg_at (suc zero) (a ∷ args) = some a
arg_at (suc (suc n)) (a ∷ args) = arg_at (suc n) args

-- Emission order, with the id as a tiebreak: `ORDER BY ledger, event_index, id`.
abbrev pub before : Event → Event → Bool
before a b =
    ltb_ℤ a.ledger b.ledger
    || eqb_ℤ a.ledger b.ledger
      && (ltb_ℤ a.event_index b.event_index || eqb_ℤ a.event_index b.event_index && ltb a.id b.id)

-- `events[limit-1].ID`
abbrev pub last_id : List Event → ℕ
last_id [] = 0
last_id (e ∷ []) = e.id
last_id (e ∷ f ∷ es) = last_id (f ∷ es)

-- The page made of the rows read: one row past the limit says that there are more.
abbrev pub page_of : ℕ → List Event → EventsPage
page_of limit events =
    if ltb limit (length events)
    then record {
      events = take limit events;
      next_cursor = some (format_cursor (last_id (take limit events)));
    }
    else record { events = events; next_cursor = none }

abbrev pub limit_of : Option Arg → ℕ
limit_of (some (number n)) = pos_part n
limit_of _ = 0

abbrev pub sorted : Bool → List Event → List Event
sorted true es = sort_by before es
sorted false es = sort_by (λ a b. before b a) es

-- The engine's evaluation of a SELECT. Its reading of a topic, `t->>'value'` or
-- `json_extract(…, '$.value')`, is the parameter: the text of that member, if there is one.
module _ (topic_text : Dialect → Json → Option Str) where
  abbrev pub text_contains : Str → Option Str → Bool
  text_contains s none = false
  text_contains s (some t) = contains t s

  pub some_topic : Dialect → Str → Items → Bool
  some_topic d s no_items = false
  some_topic d s (item j js) = text_contains s (topic_text d j) || some_topic d s js

  -- `topicContainsClause`: false for a column that is no array.
  pub topics_contain : Dialect → Str → Option Json → Bool
  unfolding some_topic
  topics_contain d s (some (arr js)) = some_topic d s js
  topics_contain d s _ = false

  pub clause_holds : Clause → Option Arg → Event → Bool
  unfolding topics_contain
  clause_holds contract_id_is (some (text s)) e = eq_str e.contract_id s
  clause_holds name_is (some (text s)) e = eq_str e.name s
  clause_holds ledger_from (some (number n)) e = not (ltb_ℤ e.ledger n)
  clause_holds ledger_to (some (number n)) e = not (ltb_ℤ n e.ledger)
  clause_holds id_after (some (number n)) e = ltb_ℤ n (pos e.id)
  clause_holds id_before (some (number n)) e = ltb_ℤ (pos e.id) n
  clause_holds (topic_has d) (some (text s)) e = topics_contain d s e.topics_json
  clause_holds _ _ e = false

  pub holds : List Arg → Event → Clause × ℕ → Bool
  unfolding clause_holds
  holds args e (c, n) = clause_holds c (arg_at n args) e

  abbrev pub satisfied : Builder → Event → Bool
  satisfied b e = all_true (holds b.args e) b.conditions

  pub run_select : Select → List Event → List Event
  unfolding holds
  run_select s events =
      take (limit_of (arg_at (length s.args) s.args))
        (sorted s.ascending (select (λ e. all_true (holds s.args e) s.conditions) events))

  rows_of : Outcome → Select → Db → Result StoreError (List Event)
  unfolding run_select
  rows_of ran s db = ok (run_select s db.events)
  rows_of (refused f) s db = err (engine f)
  rows_of (unread f) s db = err (engine f)

  -- `Events.Query`
  unfoldable pub query : Dialect → Outcome → EventQuery → Db → Result StoreError EventsPage
  unfolding rows_of
  query dialect o q db = do
    limit ← resolve_page_size q.limit
    s ← build_events_query q dialect limit
    events ← rows_of o s db
    ok (page_of limit events)
