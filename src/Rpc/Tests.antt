-- ===== src/Rpc/Tests.antt =====
-- Examples of indexer/internal/rpc, on a server whose window is ledgers 5 to 20 with two events.
use pulsar_app.Base.{
  ℕ, zero, suc, ◌+◌, ◌≤◌, ◌<◌, ◌==◌, List, [], ◌∷◌, true, false, ◌||◌, Option, none, some, Str,
  codes, ltb, if◌then◌else◌, ℤ, pos, negsuc, Result, ok, err, ◌≡◌, refl, ap, ◌∙◌, ◌⊎◌, arith, All,
  length, take, drop,
}
use pulsar_app.Strconv.{format_int}
use pulsar_app.Decoder.Tests.{symbols}
use pulsar_app.Store.{Event, too_many, sqlite, ran, refused, broken, Db, Contract}
use pulsar_app.Store.Contracts as Contracts
use pulsar_app.Store.Contracts.{with_progress, new_contract, find, set_progress}
use pulsar_app.Store.Events.{taken, insert, row_of}
use pulsar_app.Store.Tests.{tracked, alice, event_at}
use pulsar_app.Rpc.{
  inserting, EventInfo, Response, Health, CallError, Caller, not_outside, is_range_error,
  range_error_code,
}
use pulsar_app.Rpc.Backoff.{max_backoff, waits, waits_bounds, waits_reset, failures, doubling}
use pulsar_app.Rpc.Assemble.{parse_event_id, parse_event_id-format_int}
use pulsar_app.Rpc.Transaction.{TxOutcome, committed, commit}
use pulsar_app.Rpc.Poller.{drain, Remote, tick_once, start_of}
use pulsar_app.Rpc.Transaction.Commit.{
  SameRows, BothWritten, commit_atomic, commit_lem, commit_too_many,
}
use pulsar_app.Rpc.Poller.Drain.{limit_cap, Pages, pass, ended, drain_complete}
use pulsar_app.Rpc.Poller.Tick.{
  indexed_window, tick_once_complete, caught_up_lem, skipped_lem, inside_lem,
}

waits_bounds_example :
    All (λ w. (5000 ≤ w) × (w ≤ max_backoff)) (waits 5000 5000 (true ∷ true ∷ false ∷ []))
waits_bounds_example = waits_bounds 5000 (true ∷ true ∷ false ∷ []) (omega arith)

waits_reset_test : waits 20000000000 7 (false ∷ failures 3) ≡ 20000000000 ∷ doubling 3 20000000000
waits_reset_test = waits_reset 20000000000 7 3 (omega arith)

parse_event_id-format_int_test : parse_event_id (codes "12-7") ≡ some (pos 7)
unfolding format_int
parse_event_id-format_int_test =
    parse_event_id-format_int (codes "12") (pos 7) (refl, (refl, tt)) (omega arith)

-- Events.
abbrev pub info_at : Str → ℤ → EventInfo
info_at id ledger = record {
  id = id;
  ledger = ledger;
  ledger_closed_at = codes "now";
  transaction_hash = codes "t";
  topic_xdr = codes "transfer" ∷ [];
  value_xdr = codes "x";
  in_successful_contract_call = true;
}

abbrev pub stream : List EventInfo
stream =
    info_at (codes "1-0") (pos 10)
    ∷ info_at (codes "bad") (pos 11)
    ∷ info_at (codes "2-0") (pos 12)
    ∷ []

abbrev pub clock : Str → Option ℕ
clock s = some 0

-- A cursor's text has as many bytes as the position that it stands for.
abbrev pub tally : ℕ → Str
tally zero = []
tally (suc n) = b'x' ∷ tally n

abbrev pub parse_tally : Str → Option ℕ
parse_tally s = some (length s)

pub length-tally : (n : ℕ) → parse_tally (tally n) ≡ some n
length-tally zero = refl
length-tally (suc n) = ap (λ m. some m) (count n)
  where
    count : (n : ℕ) → suc (length (tally n)) ≡ suc n
    count zero = refl
    count (suc n) = ap suc (count n)

abbrev pub out_of_range : CallError
out_of_range = record { code = range_error_code; context = none }

-- The text that an empty page carries, which stands for no event.
abbrev end_marker : Str
end_marker = codes "0019097481887350783-4294967295"

abbrev text_at : List EventInfo → ℕ → Str
text_at [] n = end_marker
text_at (x ∷ xs) n = tally n

abbrev pub page : ℕ → ℕ → Response
page place limit = record {
  events = take limit (drop place stream);
  cursor =
      text_at (take limit (drop place stream)) (place + length (take limit (drop place stream)));
}

abbrev bad_limit : CallError
bad_limit = record { code = negsuc 32601; context = none }

-- A limit that is zero or over 10000 is rejected.
abbrev pub capped : ℕ → Result CallError Response → Result CallError Response
capped limit r = if limit == 0 || ltb 10000 limit then err bad_limit else r

pub capped-eq :
    (limit : ℕ) (r : Result CallError Response) → 0 < limit → limit ≤ limit_cap → capped limit r ≡ r
capped-eq limit r h k = ground arith

abbrev answer : ℕ → Option ℕ → ℕ → Result CallError Response
answer start (some c) limit = capped limit (ok (page c limit))
answer start none limit =
    if ltb start 5 || ltb 20 start then err out_of_range else capped limit (ok (page 0 limit))

take_some : (n : ℕ) (xs : List EventInfo) → 0 < n → 0 < length xs → 0 < length (take n xs)
take_some zero xs h k = absurd (omega arith)
take_some (suc n) [] h k = absurd (omega arith)
take_some (suc n) (x ∷ xs) h k = omega arith

text_at-tally : (xs : List EventInfo) (n : ℕ) → 0 < length xs → text_at xs n ≡ tally n
text_at-tally [] n h = absurd (omega arith)
text_at-tally (x ∷ xs) n h = refl

pub page_stands :
    (place limit : ℕ)
    → 0 < limit
    → 0 < length (drop place stream)
    → (c : ℕ) × (parse_tally (page place limit).cursor ≡ some c)
      × (true ≡ true)
      × (c ≡ place + length (take limit (drop place stream)))
page_stands place limit h k =
    let n = place + length (take limit (drop place stream)) in
    (
      n,
      ap parse_tally (text_at-tally _ n (take_some limit (drop place stream) h k)) ∙ length-tally n,
      refl,
      refl,
    )

abbrev pub the_window : Health
the_window = record { latest_ledger = 20; oldest_ledger = 5 }

abbrev pub server : Caller ℕ (Unit {0})
server = record {
  get_events = λ req s. (answer req.start_ledger req.cursor req.limit, s);
  get_health = λ s. (ok the_window, s);
}

-- A server that rejects every request.
abbrev stubborn : Caller ℕ (Unit {0})
stubborn = record {
  get_events = λ req s. (err out_of_range, s);
  get_health = λ s. (ok the_window, s);
}

abbrev pub pages_from :
    (id : Str) (start : ℕ)
    → ltb start 5 || ltb 20 start ≡ false
    → Pages symbols clock server parse_tally tt start id stream
pages_from id start h = record {
  issued = λ c. true;
  position = λ c. c;
  first_text = λ limit. (page 0 limit).cursor;
  later_text = λ c limit. (page c limit).cursor;
  first_page = λ limit k l. rw h (ap (λ r. (r, tt)) (capped-eq limit (ok (page 0 limit)) k l));
  first_cursor = λ limit k l more.
      let (n, parses, given, at) = page_stands 0 limit k more in
      (n, parses, given, omega (arith, at));
  later_page = λ c limit given k l. ap (λ r. (r, tt)) (capped-eq limit (ok (page c limit)) k l);
  later_cursor = λ c limit given k l more. page_stands c limit k more;
}

drain_complete_example :
    drain symbols clock server parse_tally 4 alice 2 7 (record { server = tt; unknown = 0 })
    ≡ ended symbols clock server parse_tally
        (pass symbols clock server parse_tally alice stream
          (record { events = []; highest = pos 0 })
          0)
        tt
drain_complete_example =
    drain_complete symbols clock server parse_tally tt 7 alice stream 1 (pages_from alice 7 refl)
      (omega arith) 4 0 (omega arith)

abbrev pub fair : TxOutcome
fair = record {
  begin_fault = none;
  insert_outcome = ran;
  progress_outcome = ran;
  ending = committed;
}

abbrev failing : TxOutcome
failing = record {
  begin_fault = none;
  insert_outcome = ran;
  progress_outcome = refused broken;
  ending = committed;
}

commit_atomic_example :
    SameRows tracked (commit sqlite failing alice (event_at 0 10 ∷ []) (pos 10) tracked).1
    ⊎ BothWritten sqlite failing alice
        (event_at 0 10 ∷ [])
        (pos 10)
        tracked
        (commit sqlite failing alice (event_at 0 10 ∷ []) (pos 10) tracked).1
commit_atomic_example = commit_atomic sqlite failing alice (event_at 0 10 ∷ []) (pos 10) tracked

abbrev after_commit : Db
after_commit = record {
  contracts = with_progress (pos 10) (new_contract alice 5) ∷ [];
  events = row_of 1 (event_at 0 10) ∷ [];
  sequence = 1;
}

committed_one :
    commit sqlite fair alice (event_at 0 10 ∷ []) (pos 10) tracked ≡ (ok tt, after_commit)
unfolding commit insert set_progress
committed_one = refl

commit_lem_example :
    All (λ x. taken x after_commit.events ≡ true) (event_at 0 10 ∷ [])
    × ((c : Contract) × (find alice tracked.contracts ≡ some c)
        × (Contracts.get ran alice after_commit ≡ ok (with_progress (pos 10) c)))
commit_lem_example = commit_lem sqlite fair alice (event_at 0 10) [] (pos 10) tracked committed_one

abbrev at_ledger : ℕ → Contract
at_ledger n = record (new_contract alice 5) { last_indexed_ledger = pos n }

abbrev db_at : ℕ → Db
db_at n = record tracked { contracts = at_ledger n ∷ [] }

got : (n : ℕ) → Contracts.get ran alice (db_at n) ≡ ok (at_ledger n)
unfolding Contracts.get
got n = refl

abbrev remote : Remote (Unit {0})
remote = record { server = tt; unknown = 0 }

tick_once_complete_example :
    tick_once symbols clock server parse_tally 4 sqlite ran fair alice 2 (db_at 9) remote
    ≡ indexed_window symbols clock server parse_tally sqlite fair alice stream (db_at 9) tt 0
unfolding start_of
tick_once_complete_example =
    tick_once_complete symbols clock server parse_tally 4 sqlite fair alice 1 (db_at 9) tt 0
      (at_ledger 9) (got 9) stream (pages_from alice 10 refl) (omega arith) (omega arith)

caught_up_lem_example :
    tick_once symbols clock server parse_tally 4 sqlite ran fair alice 2 (db_at 30) remote
    ≡ some (ok tt, db_at 30, remote)
unfolding start_of is_range_error
caught_up_lem_example =
    caught_up_lem symbols clock server parse_tally 4 sqlite fair alice 1 (db_at 30) tt 0
      (at_ledger 30) (got 30) out_of_range refl the_window (refl, refl, omega arith) (omega arith)

skipped_lem_example :
    tick_once symbols clock server parse_tally 4 sqlite ran fair alice 2 (db_at 0) remote
    ≡ indexed_window symbols clock server parse_tally sqlite fair alice stream (db_at 0) tt 0
unfolding start_of is_range_error
skipped_lem_example =
    skipped_lem symbols clock server parse_tally 4 sqlite fair alice 1 (db_at 0) tt 0 (at_ledger 0)
      (got 0) out_of_range refl the_window stream (refl, refl, omega arith) (omega arith)
      (omega arith) (pages_from alice 5 refl) (omega arith) (omega arith)

inside_lem_example :
    tick_once symbols clock stubborn parse_tally 4 sqlite ran fair alice 2 (db_at 9) remote
    ≡ some (err (not_outside 10 the_window out_of_range), db_at 9, remote)
unfolding start_of is_range_error
inside_lem_example =
    inside_lem symbols clock stubborn parse_tally 4 sqlite fair alice 1 (db_at 9) tt 0 (at_ledger 9)
      (got 9) out_of_range refl the_window (refl, refl, omega arith) (omega arith) (omega arith)

abbrev copies : ℕ → List Event
copies zero = []
copies (suc n) = event_at 0 10 ∷ copies n

length-copies : (n : ℕ) → length (copies n) ≡ n
length-copies zero = refl
length-copies (suc n) = ap suc (length-copies n)

commit_too_many_example :
    commit sqlite fair alice (copies 10001) (pos 10) tracked
    ≡ (err (inserting (too_many (length (copies 10001)))), tracked)
commit_too_many_example =
    commit_too_many sqlite fair alice (copies 10001) (pos 10) tracked refl
      (omega (arith, length-copies 10001))
