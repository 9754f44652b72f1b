-- ===== src/Decoder/Unmarshal.antt =====
-- UnmarshalJSON of DecodedValue, and the JSON package's decoding of the slices inside it.
pub mod RoundTrip
use pulsar_app.Base.{
  Bool, true, false, ◌||◌, [], ◌∷◌, Option, none, some, Str, codes, eq_str, leb, ◌&&◌, ◌+◌, ℕ,
  if◌then◌else◌, ℤ, pos, Json, null, str, num, bool, arr, obj, Items, no_items, item, Fields,
  no_fields, field,
}
use pulsar_app.Decoder.Value.{
  DecodedValue, decoded, nil_any, of_bool, of_int, of_text, of_vec, Values, no_values, value_then,
  Entries, no_entries, entry_then, type_map, type_vec, type_u32, type_i32, type_bool,
}

infixl 5 ◌>>=◌
abbrev pub ◌>>=◌ : {A B : Type 0} → Option A → (A → Option B) → Option B
none >>= f = none
some a >>= f = f a

-- Keys are matched without regard to case.
abbrev lower : ℕ → ℕ
lower c = if leb b'A' c && leb c b'Z' then c + 32 else c

abbrev fold_key : Str → Str
fold_key [] = []
fold_key (c ∷ s) = lower c ∷ fold_key s

-- The struct `raw`, with the raw value in each of the ways in which it may be read.
pub record Raw : Type 0 where
  pub kind : Str
  pub present : Bool
  pub value : Json
  pub values : Option Values
  pub entries : Option Entries
  pub xdr : Str

abbrev pub no_raw : Raw
no_raw = record {
  kind = [];
  present = false;
  value = null;
  values = none;
  entries = none;
  xdr = [];
}

abbrev pub zero_value : DecodedValue
zero_value = decoded [] nil_any no_entries []

-- A string field: null leaves it as it is, and any other value is an error.
abbrev text_field : Json → Str → Option Str
text_field (str s) old = some s
text_field null old = some old
text_field _ old = none

pub raw_field : Str → Json → Option Values → Option Entries → Raw → Option Raw
raw_field k j vs es r =
    if eq_str (fold_key k) (codes "type")
    then (text_field j r.kind >>= λ s. some (record r { kind = s }))
    else if eq_str (fold_key k) (codes "value")
    then some (record r { present = true; value = j; values = vs; entries = es })
    else if eq_str (fold_key k) (codes "xdr")
    then (text_field j r.xdr >>= λ s. some (record r { xdr = s }))
    else some r

abbrev int_value : Json → Option ℤ
int_value (num n) = some n
int_value null = some (pos 0)
int_value _ = none

abbrev bool_value : Json → Option Bool
bool_value (bool b) = some b
bool_value null = some false
bool_value _ = none

-- The switch on the type.
pub finish : Raw → Option DecodedValue
finish r =
    if r.present
    then (if eq_str r.kind type_map
        then (r.entries >>= λ es. some (decoded r.kind nil_any es r.xdr))
        else if eq_str r.kind type_vec
        then (r.values >>= λ vs. some (decoded r.kind (of_vec vs) no_entries r.xdr))
        else if eq_str r.kind type_u32 || eq_str r.kind type_i32
        then (int_value r.value >>= λ n. some (decoded r.kind (of_int n) no_entries r.xdr))
        else if eq_str r.kind type_bool
        then (bool_value r.value >>= λ b. some (decoded r.kind (of_bool b) no_entries r.xdr))
        else (text_field r.value [] >>= λ s. some (decoded r.kind (of_text s) no_entries r.xdr)))
    else some (decoded r.kind nil_any no_entries r.xdr)

-- One field of a `MapEntry`.
pub entry_field :
    Str → Option DecodedValue → DecodedValue × DecodedValue → Option (DecodedValue × DecodedValue)
entry_field name v (key, value) =
    if eq_str (fold_key name) (codes "key")
    then (v >>= λ k. some (k, value))
    else if eq_str (fold_key name) (codes "value")
    then (v >>= λ x. some (key, x))
    else some (key, value)

unfoldable mutual
  pub unmarshal : Json → Option DecodedValue
  unmarshal null = some zero_value
  unmarshal (obj fs) = raw_fields fs (some no_raw) >>= finish
  unmarshal (bool b) = none
  unmarshal (num n) = none
  unmarshal (str s) = none
  unmarshal (arr xs) = none

  pub raw_fields : Fields → Option Raw → Option Raw
  raw_fields no_fields r = r
  raw_fields (field k j fs) r =
      raw_fields fs (r >>= λ r'. raw_field k j (values_of j) (entries_of j) r')

  pub values_of : Json → Option Values
  values_of null = some no_values
  values_of (arr xs) = item_values xs
  values_of (bool b) = none
  values_of (num n) = none
  values_of (str s) = none
  values_of (obj fs) = none

  pub item_values : Items → Option Values
  item_values no_items = some no_values
  item_values (item j xs) =
      let vs = item_values xs in unmarshal j >>= λ v. vs >>= λ rest. some (value_then v rest)

  pub entries_of : Json → Option Entries
  entries_of null = some no_entries
  entries_of (arr xs) = item_entries xs
  entries_of (bool b) = none
  entries_of (num n) = none
  entries_of (str s) = none
  entries_of (obj fs) = none

  pub item_entries : Items → Option Entries
  item_entries no_items = some no_entries
  item_entries (item j xs) =
      let es = item_entries xs in entry_of j >>= λ e. es >>= λ rest. some (entry_then e.0 e.1 rest)

  pub entry_of : Json → Option (DecodedValue × DecodedValue)
  entry_of null = some (zero_value, zero_value)
  entry_of (obj fs) = entry_fields fs (some (zero_value, zero_value))
  entry_of (bool b) = none
  entry_of (num n) = none
  entry_of (str s) = none
  entry_of (arr xs) = none

  pub entry_fields :
      Fields → Option (DecodedValue × DecodedValue) → Option (DecodedValue × DecodedValue)
  entry_fields no_fields e = e
  entry_fields (field k j fs) e = entry_fields fs (e >>= λ e'. entry_field k (unmarshal j) e')
