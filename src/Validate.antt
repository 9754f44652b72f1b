-- ===== src/Validate.antt =====
-- indexer/internal/validate: the checks on request parameters and contract IDs.
mod Tests
pub mod Accepts
pub mod Text
use pulsar_app.Base.{
  ℕ, Bool, true, false, not, ◌&&◌, ◌||◌, [], ◌∷◌, Option, none, some, Str, codes, leb, ltb, ◌==◌,
  if◌then◌else◌, eq_str, contains_byte, length, all_true, ℤ, pos, ltb_ℤ, Result, ok, err, ◌>>=◌,
  ◌>>◌, fail_if,
}
use pulsar_app.Strconv.{is_digit, parse_int}

-- The sentinels, and `validate.ErrContractID`.
pub data Sentinel : Type 0 where
  err_limit err_order err_cursor err_ledger_bound err_ledger_range err_filter_text : Sentinel
  err_event_id err_contract_id : Sentinel

abbrev pub event_limit_default : ℕ
event_limit_default = 50

abbrev pub event_limit_min : ℕ
event_limit_min = 1

abbrev pub event_limit_max : ℕ
event_limit_max = 500

-- `\A\d+\z`
abbrev pub digits_pattern : Str → Bool
digits_pattern [] = false
digits_pattern (c ∷ s) = all_true is_digit (c ∷ s)

-- The error of strconv, or its value.
abbrev pub or_else : Option ℤ → Sentinel → Result Sentinel ℤ
or_else none e = err e
or_else (some n) e = ok n

unfoldable pub event_limit : Str → Result Sentinel ℤ
unfolding parse_int
event_limit [] = ok (pos event_limit_default)
event_limit (c ∷ s) = do
  fail_if (not (digits_pattern (c ∷ s))) err_limit
  n ← or_else (parse_int (c ∷ s)) err_limit
  fail_if (ltb_ℤ n (pos event_limit_min) || ltb_ℤ (pos event_limit_max) n) err_limit
  ok n

abbrev pub asc : Str
asc = codes "asc"

abbrev pub desc : Str
desc = codes "desc"

unfoldable pub event_order : Str → Result Sentinel Str
event_order raw =
    if eq_str raw []
    then ok desc
    else if eq_str raw asc || eq_str raw desc
    then ok raw
    else err err_order

unfoldable pub event_cursor : Str → Result Sentinel Str
unfolding parse_int
event_cursor [] = ok []
event_cursor (c ∷ s) = do
  fail_if (not (digits_pattern (c ∷ s))) err_cursor
  _ ← or_else (parse_int (c ∷ s)) err_cursor
  ok (c ∷ s)

unfoldable pub ledger_bound : Str → Result Sentinel ℤ
unfolding parse_int
ledger_bound [] = ok (pos 0)
ledger_bound (c ∷ s) = do
  fail_if (not (digits_pattern (c ∷ s))) err_ledger_bound
  or_else (parse_int (c ∷ s)) err_ledger_bound

unfoldable pub ledger_range : ℤ → ℤ → Result Sentinel (Unit {0})
ledger_range from to =
    fail_if (ltb_ℤ (pos 0) from && ltb_ℤ (pos 0) to && ltb_ℤ to from) err_ledger_range

-- A continuation byte of UTF-8.
abbrev pub is_cont : ℕ → Bool
is_cont c = leb 0x80 c && leb c 0xBF

-- The second byte of a sequence of three, by its first: no surrogate and no overlong form.
abbrev pub second_of_3 : ℕ → ℕ → Bool
second_of_3 a b =
    if a == 0xE0
    then leb 0xA0 b && leb b 0xBF
    else if a == 0xED
    then leb 0x80 b && leb b 0x9F
    else leb 0xE1 a && leb a 0xEF && is_cont b

-- The same of a sequence of four: no overlong form, and nothing past U+10FFFF.
abbrev pub second_of_4 : ℕ → ℕ → Bool
second_of_4 a b =
    if a == 0xF0
    then leb 0x90 b && leb b 0xBF
    else if a == 0xF4
    then leb 0x80 b && leb b 0x8F
    else leb 0xF1 a && leb a 0xF3 && is_cont b

-- utf8.ValidString: the rest of the text from each possible width of its first character.
unfoldable pub valid_string : Str → Bool
valid_string [] = true
valid_string (a ∷ []) = ltb a 0x80
valid_string (a ∷ b ∷ []) =
    let after1 = valid_string (b ∷ []) in
    if ltb a 0x80 then after1 else leb 0xC2 a && leb a 0xDF && is_cont b
valid_string (a ∷ b ∷ c ∷ []) =
    let after1 = valid_string (b ∷ c ∷ []) in
    let after2 = valid_string (c ∷ []) in
    if ltb a 0x80
    then after1
    else if leb 0xC2 a && leb a 0xDF && is_cont b
    then after2
    else second_of_3 a b && is_cont c
valid_string (a ∷ b ∷ c ∷ d ∷ s) =
    let after1 = valid_string (b ∷ c ∷ d ∷ s) in
    let after2 = valid_string (c ∷ d ∷ s) in
    let after3 = valid_string (d ∷ s) in
    let after4 = valid_string s in
    if ltb a 0x80
    then after1
    else if leb 0xC2 a && leb a 0xDF && is_cont b
    then after2
    else if second_of_3 a b && is_cont c
    then after3
    else if second_of_4 a b && is_cont c && is_cont d
    then after4
    else false

unfoldable pub event_filter_text : Str → Result Sentinel Str
event_filter_text raw =
    if eq_str raw []
    then ok []
    else if not (valid_string raw) || contains_byte raw 0
    then err err_filter_text
    else ok raw

unfoldable pub event_id : Str → Result Sentinel ℤ
unfolding parse_int
event_id raw = do
  fail_if (not (digits_pattern raw)) err_event_id
  or_else (parse_int raw) err_event_id

abbrev pub is_base32 : ℕ → Bool
is_base32 c = leb b'A' c && leb c b'Z' || leb b'2' c && leb c b'7'

-- `\AC[A-Z2-7]{55}\z`
unfoldable pub contract_id_pattern : Str → Bool
contract_id_pattern [] = false
contract_id_pattern (c ∷ s) = c == b'C' && all_true is_base32 s && length s == 55

unfoldable pub contract_id : Str → Result Sentinel (Unit {0})
unfolding contract_id_pattern
contract_id id = fail_if (not (contract_id_pattern id)) err_contract_id
