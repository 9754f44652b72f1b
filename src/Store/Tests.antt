-- ===== src/Store/Tests.antt =====
-- Examples of indexer/internal/store.
use pulsar_app.Base.{
  ℕ, List, [], ◌∷◌, ◌++◌, true, false, not, Option, none, some, Str, codes, pos, ok, err, Json, ◌≡◌,
  refl, arith, All, length, take, select, eq_str, if◌then◌else◌, ◌≤ℤ◌,
}
use pulsar_app.Store.{Dialect, sqlite, ran, refused, broken, Event, Db, not_found, engine}
use pulsar_app.Store.Contracts.{
  find, get, new_contract, register, set_progress, delete, with_progress, stats, ContractStats,
}
use pulsar_app.Store.Contracts.Laws.{register_idem, set_progress_lem, delete_lem, stats_lem}
use pulsar_app.Store.Events.{insert, check_batch, taken}
use pulsar_app.Store.Events.Sound.{IsSound, insert-IsSound}
use pulsar_app.Store.Events.Insert.{insert_lem, insert_again}
use pulsar_app.Store.Events.Outcomes.{insert_failed}
use pulsar_app.Store.Query.{
  EventQuery, Select, contract_id_is, ledger_from, text, number, build_events_query,
  order_is_ascending, run_select, parse_cursor, format_cursor, resolve_page_size,
}
use pulsar_app.Store.Query.Builders.{parse_cursor-format_cursor}
use pulsar_app.Store.Query.Plan.{answers, matches, run_select-build_events_query}
use pulsar_app.Store.Query.Pages.{fetch_all, fetch_all_complete}

abbrev pub alice : Str
alice = codes "CA"

abbrev pub event_at : ℕ → ℕ → Event
event_at id ledger = record {
  id = id;
  contract_id = alice;
  ledger = pos ledger;
  tx_hash = codes "t";
  event_index = pos 0;
  name = codes "";
  topics_json = none;
  data_json = none;
  raw_topics = [];
  raw_data = codes "";
  emitted_at = 0;
  in_successful_contract_call = true;
}

abbrev pub tracked : Db
tracked = record { contracts = new_contract alice 5 ∷ []; events = []; sequence = 0 }

abbrev pub filled : Db
filled = record tracked {
  events = event_at 1 10 ∷ event_at 2 11 ∷ event_at 3 12 ∷ [];
  sequence = 3;
}

register_idem_test :
    register 9 ran ran alice (register 7 ran ran alice tracked).1 ≡ register 7 ran ran alice tracked
register_idem_test = register_idem 7 9 alice tracked (λ h. cc)

alice-tracked : find alice tracked.contracts ≡ some (new_contract alice 5)
unfolding find
alice-tracked = refl

set_progress_lem_test :
    ((set_progress ran alice (pos 30) tracked).0 ≡ ok tt)
    × ((set_progress ran alice (pos 30) tracked).1.events ≡ [])
    × ((j : Str)
        → get ran j (set_progress ran alice (pos 30) tracked).1 ≡ (
            if eq_str alice j
            then ok (with_progress (pos 30) (new_contract alice 5))
            else get ran j tracked))
set_progress_lem_test = set_progress_lem alice (pos 30) tracked alice-tracked

delete_lem_test :
    ((delete ran alice filled).0 ≡ ok tt)
    × ((delete ran alice filled).1.events
        ≡ select (λ e. not (eq_str e.contract_id alice)) filled.events)
    × ((j : Str)
        → get ran j (delete ran alice filled).1
          ≡ (if eq_str alice j then err not_found else get ran j filled))
delete_lem_test = delete_lem alice filled alice-tracked

stats_lem_test :
    (s : ContractStats) × (stats ran tracked ≡ ok s)
    × (s.count ≡ length tracked.contracts)
    × All (λ c. c.last_indexed_ledger ≤ℤ s.latest_ledger) tracked.contracts
stats_lem_test = stats_lem tracked

tracked-IsSound : IsSound sqlite tracked
tracked-IsSound = record { keys_ascend = tt; places_differ = tt; below_sequence = λ e. tt }

insert-IsSound_test :
    IsSound sqlite (insert sqlite ran (some (event_at 0 10) ∷ some (event_at 0 10) ∷ []) tracked).1
insert-IsSound_test =
    insert-IsSound sqlite ran (some (event_at 0 10) ∷ some (event_at 0 10) ∷ []) tracked
      tracked-IsSound

abbrev batch : List (Option Event)
batch = some (event_at 0 10) ∷ some (event_at 0 11) ∷ []

batch-inserted : insert sqlite ran batch tracked ≡ (ok 2, (insert sqlite ran batch tracked).1)
unfolding insert
batch-inserted = refl

batch-refused : (insert sqlite (refused broken) batch tracked).0 ≡ err (engine broken)
unfolding insert
batch-refused = refl

insert_lem_example :
    (es : List Event) × (check_batch 0 batch ≡ ok es)
    × ((insert sqlite ran batch tracked).1.contracts ≡ tracked.contracts)
    × ((added : List Event) × ((insert sqlite ran batch tracked).1.events ≡ [] ++ added)
        × (2 ≡ length added))
    × All (λ e. taken e (insert sqlite ran batch tracked).1.events ≡ true) es
insert_lem_example = insert_lem sqlite batch tracked batch-inserted

insert_again_example :
    ((insert sqlite ran batch (insert sqlite ran batch tracked).1).0 ≡ ok 0)
    × ((insert sqlite ran batch (insert sqlite ran batch tracked).1).1.events
        ≡ (insert sqlite ran batch tracked).1.events)
insert_again_example = insert_again sqlite batch tracked batch-inserted

insert_failed_test : (insert sqlite (refused broken) batch tracked).1 ≡ tracked
insert_failed_test = insert_failed sqlite (refused broken) batch tracked (λ f h. cc) batch-refused

abbrev pub a_query : EventQuery
a_query = record {
  contract_id = alice;
  name = codes "";
  from_ledger = pos 11;
  to_ledger = pos 0;
  limit = pos 1;
  cursor = codes "";
  order = codes "desc";
  topic_contains = codes "";
}

abbrev no_topics : Dialect → Json → Option Str
no_topics d j = none

fetch_all_complete_example :
    fetch_all no_topics sqlite 4 a_query filled ≡ some (event_at 3 12 ∷ event_at 2 11 ∷ [])
unfolding matches resolve_page_size order_is_ascending
fetch_all_complete_example =
    fetch_all_complete no_topics sqlite a_query filled 1 4 false (λ h. cc) refl refl refl
      (((refl, tt), (tt, tt)), ((refl, tt), (tt, tt)), (omega arith, (omega arith, tt)))
      (omega arith)

parse_cursor-format_cursor_test : parse_cursor (format_cursor 42) ≡ ok 42
parse_cursor-format_cursor_test = parse_cursor-format_cursor 42 (omega arith)

abbrev a_select : Select
a_select = record {
  conditions = (contract_id_is, 1) ∷ (ledger_from, 2) ∷ [];
  args = text alice ∷ number (pos 11) ∷ number (pos 2) ∷ [];
  ascending = false;
}

run_select-build_events_query_example :
    (order_is_ascending (codes "desc") ≡ ok false)
    × (run_select no_topics a_select filled.events
        ≡ take 2 (answers no_topics a_query sqlite false filled.events))
unfolding build_events_query order_is_ascending
run_select-build_events_query_example =
    run_select-build_events_query no_topics a_query sqlite 1 a_select filled.events refl

-- A clock whose texts are a Z after as many digits as there are seconds.
abbrev strokes : ℕ → Str
strokes ℕ.zero = codes "Z"
strokes (ℕ.suc n) = b'1' ∷ strokes n

abbrev stroke_format : Str → ℕ → Str
stroke_format layout t = strokes t

abbrev count_strokes : Str → ℕ
count_strokes [] = 0
count_strokes (c ∷ s) = if eq_str s [] then 0 else ℕ.suc (count_strokes s)

abbrev stroke_parse : Str → Str → Option ℕ
stroke_parse layout raw = some (count_strokes raw)

abbrev closed_at : Event
closed_at = record (event_at 0 7) { raw_topics = codes "AAAA" ∷ codes "" ∷ []; emitted_at = 3 }
