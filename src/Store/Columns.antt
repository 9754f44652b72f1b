-- ===== src/Store/Columns.antt =====
-- The columns of indexer/internal/store: what Insert binds for an event, and scanEvent and
-- scanContract, which read a row back, with scanTime and formatTime of store.go. The JSON in a
-- column's text is a tree; time.Parse and Time.Format are parameters.
pub mod RoundTrip
use pulsar_app.Base.{
  ℕ, Bool, List, [], ◌∷◌, Option, none, some, Str, codes, ℤ, Json, null, str, arr, Items, no_items,
  item, Result, ok, err, ◌>>=◌, ◌++◌,
}
use pulsar_app.Store.{Contract, Event, Dialect, sqlite, postgres, other_dialect}
use pulsar_app.Store.Events.{json_or_null}
use pulsar_app.Strconv.{format_int}

-- `Dialect.String`
unfoldable pub dialect_string : Dialect → Str
dialect_string sqlite = codes "sqlite"
dialect_string postgres = codes "postgres"
dialect_string (other_dialect n) = codes "Dialect(" ++ format_int n ++ codes ")"

-- The value in which a driver hands out a timestamp column.
pub data Cell : Type 0 where
  instant : ℕ → Cell
  text bytes : Str → Cell
  null_cell other_cell : Cell

pub data ScanError : Type 0 where
  null_time not_a_time not_an_array : ScanError
  bad_time : Str → ScanError

abbrev pub rfc3339_nano : Str
rfc3339_nano = codes "2006-01-02T15:04:05.999999999Z07:00"

abbrev pub rfc3339 : Str
rfc3339 = codes "2006-01-02T15:04:05Z07:00"

abbrev pub sqlite_time_layout : Str
sqlite_time_layout = codes "2006-01-02 15:04:05"

-- `formatTime`
unfoldable pub format_time : (Str → ℕ → Str) → ℕ → Str
format_time time_format t = time_format rfc3339_nano t

-- `encodeRawTopics`, and json.Marshal of the strings
pub string_items : List Str → Items
string_items [] = no_items
string_items (s ∷ ss) = item (str s) (string_items ss)

pub encode_raw_topics : List Str → Json
unfolding string_items
encode_raw_topics topics = arr (string_items topics)

-- An element of the slice that json.Unmarshal fills: null leaves it empty.
pub string_of : Json → Result ScanError Str
string_of (str s) = ok s
string_of null = ok []
string_of _ = err not_an_array

pub strings_of : Items → Result ScanError (List Str)
unfolding string_of
strings_of no_items = ok []
strings_of (item j js) = do s ← string_of j; rest ← strings_of js; ok (s ∷ rest)

-- `decodeRawTopics`, on what its text is, if it is JSON
pub decode_raw_topics : Option Json → Result ScanError (List Str)
unfolding strings_of
decode_raw_topics (some (arr js)) = strings_of js
decode_raw_topics (some null) = ok []
decode_raw_topics _ = err not_an_array

-- A row of the events table as the columns of `eventColumns`.
pub record EventRow : Type 0 where
  pub id : ℕ
  pub contract_id : Str
  pub ledger : ℤ
  pub tx_hash : Str
  pub event_index : ℤ
  pub name : Str
  pub topics_json : Option Json
  pub data_json : Option Json
  pub raw_topics : Option Json
  pub raw_data : Str
  pub emitted_at : Cell
  pub in_successful_contract_call : Bool

-- The arguments of one row of the INSERT, with the key that the engine gives it.
unfoldable pub bind_event : (Str → ℕ → Str) → ℕ → Event → EventRow
unfolding encode_raw_topics format_time
bind_event time_format id e = record {
  id = id;
  contract_id = e.contract_id;
  ledger = e.ledger;
  tx_hash = e.tx_hash;
  event_index = e.event_index;
  name = e.name;
  topics_json = some (json_or_null e.topics_json);
  data_json = some (json_or_null e.data_json);
  raw_topics = some (encode_raw_topics e.raw_topics);
  raw_data = e.raw_data;
  emitted_at = text (format_time time_format e.emitted_at);
  in_successful_contract_call = e.in_successful_contract_call;
}

-- A row of the contracts table as `contractColumns`.
pub record ContractRow : Type 0 where
  pub id : Str
  pub added_at : Cell
  pub first_indexed_ledger : Option ℤ
  pub last_indexed_ledger : ℤ
  pub status : Str

pub parsed_or : Result ScanError ℕ → Option ℕ → Result ScanError ℕ
parsed_or later none = later
parsed_or later (some t) = ok t

module _ (time_parse : Str → Str → Option ℕ) where
  -- The loop over the layouts.
  pub first_parsed : List Str → Str → Result ScanError ℕ
  unfolding parsed_or
  first_parsed [] raw = err (bad_time raw)
  first_parsed (layout ∷ ls) raw = parsed_or (first_parsed ls raw) (time_parse layout raw)

  pub parse_time_string : Str → Result ScanError ℕ
  unfolding first_parsed
  parse_time_string raw = first_parsed (rfc3339_nano ∷ rfc3339 ∷ sqlite_time_layout ∷ []) raw

  pub scan_time : Cell → Result ScanError ℕ
  unfolding parse_time_string
  scan_time (instant t) = ok t
  scan_time (text s) = parse_time_string s
  scan_time (bytes s) = parse_time_string s
  scan_time null_cell = err null_time
  scan_time other_cell = err not_a_time

  unfoldable pub scan_event : EventRow → Result ScanError Event
  unfolding decode_raw_topics scan_time
  scan_event row = do
    topics ← decode_raw_topics row.raw_topics
    emitted ← scan_time row.emitted_at
    ok (record {
      id = row.id;
      contract_id = row.contract_id;
      ledger = row.ledger;
      tx_hash = row.tx_hash;
      event_index = row.event_index;
      name = row.name;
      topics_json = row.topics_json;
      data_json = row.data_json;
      raw_topics = topics;
      raw_data = row.raw_data;
      emitted_at = emitted;
      in_successful_contract_call = row.in_successful_contract_call;
    })

  unfoldable pub scan_contract : ContractRow → Result ScanError Contract
  unfolding scan_time
  scan_contract row = do
    added ← scan_time row.added_at
    ok (record {
      id = row.id;
      added_at = added;
      first_indexed_ledger = row.first_indexed_ledger;
      last_indexed_ledger = row.last_indexed_ledger;
      status = row.status;
    })
