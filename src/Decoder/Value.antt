-- ===== src/Decoder/Value.antt =====
-- DecodedValue, MapEntry, the variant names, and MarshalJSON.
use pulsar_app.Base.{
  ℕ, zero, suc, Bool, false, ◌&&◌, leb, ltb, [], ◌∷◌, Option, none, some, Str, codes, eq_str,
  if◌then◌else◌, ℤ, Json, str, num, bool, arr, obj, Items, no_items, item, Fields, no_fields, field,
}
use pulsar_app.Validate.{is_cont, second_of_3, second_of_4}

abbrev pub type_address : Str
type_address = codes "address"

abbrev pub type_symbol : Str
type_symbol = codes "symbol"

abbrev pub type_string : Str
type_string = codes "string"

abbrev pub type_bool : Str
type_bool = codes "bool"

abbrev pub type_bytes : Str
type_bytes = codes "bytes"

abbrev pub type_u32 : Str
type_u32 = codes "u32"

abbrev pub type_i32 : Str
type_i32 = codes "i32"

abbrev pub type_u64 : Str
type_u64 = codes "u64"

abbrev pub type_i64 : Str
type_i64 = codes "i64"

abbrev pub type_u128 : Str
type_u128 = codes "u128"

abbrev pub type_i128 : Str
type_i128 = codes "i128"

abbrev pub type_u256 : Str
type_u256 = codes "u256"

abbrev pub type_i256 : Str
type_i256 = codes "i256"

abbrev pub type_timepoint : Str
type_timepoint = codes "timepoint"

abbrev pub type_duration : Str
type_duration = codes "duration"

abbrev pub type_vec : Str
type_vec = codes "vec"

abbrev pub type_map : Str
type_map = codes "map"

abbrev pub type_void : Str
type_void = codes "void"

abbrev pub type_unknown : Str
type_unknown = codes "unknown"

mutual
  -- The fields Type, Value, Entries and XDR. A nil slice of entries and an empty one are not told
  -- apart.
  pub data DecodedValue : Type 0 where
    decoded : Str → Any → Entries → Str → DecodedValue

  -- What the field `Value any` holds.
  pub data Any : Type 0 where
    nil_any : Any
    of_bool : Bool → Any
    of_int : ℤ → Any
    of_text : Str → Any
    of_vec : Values → Any

  pub data Values : Type 0 where
    no_values : Values
    value_then : DecodedValue → Values → Values

  -- `MapEntry`, in a list.
  pub data Entries : Type 0 where
    no_entries : Entries
    entry_then : DecodedValue → DecodedValue → Entries → Entries

abbrev pub plain : Str → Any → DecodedValue
plain t a = decoded t a no_entries []

abbrev pub value_type : DecodedValue → Str
value_type (decoded t a es x) = t

abbrev pub value_any : DecodedValue → Any
value_any (decoded t a es x) = a

abbrev starts_2 : ℕ → Str → Bool
starts_2 a [] = false
starts_2 a (b ∷ s) = leb 0xC2 a && leb a 0xDF && is_cont b

abbrev starts_3 : ℕ → Str → Bool
starts_3 a [] = false
starts_3 a (b ∷ []) = false
starts_3 a (b ∷ c ∷ s) = second_of_3 a b && is_cont c

abbrev starts_4 : ℕ → Str → Bool
starts_4 a [] = false
starts_4 a (b ∷ []) = false
starts_4 a (b ∷ c ∷ []) = false
starts_4 a (b ∷ c ∷ d ∷ s) = second_of_4 a b && is_cont c && is_cont d

-- utf8.DecodeRune: how many bytes after `a` belong to its character, if it begins one.
abbrev pub rune_rest : ℕ → Str → Option ℕ
rune_rest a s =
    if ltb a 0x80
    then some 0
    else if starts_2 a s
    then some 1
    else if starts_3 a s
    then some 2
    else if starts_4 a s
    then some 3
    else none

-- The text from where the first `n` bytes belong to a character that began before.
abbrev pub to_valid_from : ℕ → Str → Str
to_valid_from n [] = []
to_valid_from (suc n) (a ∷ s) = a ∷ to_valid_from n s
to_valid_from zero (a ∷ s) = elim (rune_rest a s) [
  | none ↦ 0xEF ∷ 0xBF ∷ 0xBD ∷ to_valid_from 0 s
  | some n ↦ a ∷ to_valid_from n s
]

-- A text as encoding/json writes it: each byte that is of no valid character becomes U+FFFD.
abbrev pub to_valid : Str → Str
to_valid s = to_valid_from 0 s

abbrev pub json_text : Str → Json
json_text s = str (to_valid s)

-- `omitempty`
abbrev pub omit_text : Str → Str → Fields
omit_text k [] = no_fields
omit_text k (c ∷ s) = field k (json_text (c ∷ s)) no_fields

abbrev pub omit_json : Str → Option Json → Fields → Fields
omit_json k none fs = fs
omit_json k (some j) fs = field k j fs

-- The fields of `payload`, in order.
abbrev pub payload : Str → Option Json → Str → Json
payload t v x =
    obj
      (field (codes "type") (json_text t) (omit_json (codes "value") v (omit_text (codes "xdr") x)))

unfoldable mutual
  -- MarshalJSON
  pub marshal : DecodedValue → Json
  marshal (decoded t a es x) =
      let value = marshal_any a in
      let entries = some (arr (marshal_entries es)) in
      payload t (if eq_str t type_map then entries else if eq_str t type_void then none else value)
        x

  pub marshal_any : Any → Option Json
  marshal_any nil_any = none
  marshal_any (of_bool b) = some (bool b)
  marshal_any (of_int n) = some (num n)
  marshal_any (of_text s) = some (json_text s)
  marshal_any (of_vec vs) = some (arr (marshal_values vs))

  pub marshal_values : Values → Items
  marshal_values no_values = no_items
  marshal_values (value_then v vs) = item (marshal v) (marshal_values vs)

  pub marshal_entries : Entries → Items
  marshal_entries no_entries = no_items
  marshal_entries (entry_then k v es) =
      item (obj (field (codes "key") (marshal k) (field (codes "value") (marshal v) no_fields)))
        (marshal_entries es)
