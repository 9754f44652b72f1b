-- ===== src/Store/Columns/RoundTrip.antt =====
-- What is read back of the columns that Insert binds and that a registration leaves to the defaults.
use pulsar_app.Base.{ℕ, Option, none, some, Str, ok, pos, ◌≡◌, refl}
use pulsar_app.Store.{status_active}
use pulsar_app.Store.Contracts.{new_contract}
use pulsar_app.Store.Columns.{
  Cell, instant, text, bytes, rfc3339_nano, rfc3339, sqlite_time_layout, parsed_or, first_parsed,
  parse_time_string, scan_time, scan_contract,
}

-- What a driver may hand out for a column in which `raw`, a text of the instant `t`, was stored.
pub data Returned (raw : Str) (t : ℕ) : Cell → Type 0 where
  as_text : Returned raw t (text raw)
  as_bytes : Returned raw t (bytes raw)
  as_instant : Returned raw t (instant t)

module _ (time_parse : Str → Str → Option ℕ) where
  -- A column is read as the instant of its text, in each shape that a driver may give it.
  scan_time-Returned :
      (raw : Str) (t : ℕ) (c : Cell)
      → parse_time_string time_parse raw ≡ ok t
      → Returned raw t c
      → scan_time time_parse c ≡ ok t
  unfolding scan_time
  scan_time-Returned raw t _ h as_text = h
  scan_time-Returned raw t _ h as_bytes = h
  scan_time-Returned raw t _ h as_instant = refl

  parse_time_string_default :
      (raw : Str) (t : ℕ)
      → time_parse rfc3339_nano raw ≡ none
      → time_parse rfc3339 raw ≡ none
      → time_parse sqlite_time_layout raw ≡ some t
      → parse_time_string time_parse raw ≡ ok t
  unfolding parse_time_string first_parsed parsed_or
  parse_time_string_default raw t a b h = rw a (rw b (rw h refl))

  -- The row of a registration, whose columns but the key are the table's defaults, is read as a new
  -- contract, in each shape that a driver may give the timestamp, if its text has SQLite's layout
  -- and not that of RFC 3339.
  scan_contract-new_contract :
      (id raw : Str) (t : ℕ) (c : Cell)
      → time_parse rfc3339_nano raw ≡ none
      → time_parse rfc3339 raw ≡ none
      → time_parse sqlite_time_layout raw ≡ some t
      → Returned raw t c
      → scan_contract time_parse (record {
        id = id;
        added_at = c;
        first_indexed_ledger = none;
        last_indexed_ledger = pos 0;
        status = status_active;
      })
        ≡ ok (new_contract id t)
  unfolding scan_contract
  scan_contract-new_contract id raw t c a b h r =
      rw (scan_time-Returned raw t c (parse_time_string_default raw t a b h) r) refl
