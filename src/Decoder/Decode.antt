-- ===== src/Decoder/Decode.antt =====
-- Decode, unknown, DecodeBase64 and DecodeTopics. Every function takes the counter of the Decoder and
-- returns it. `Decode` recurs on fuel, one more than the depth of the value; `decode-eq` is its
-- equation without fuel.
pub mod Count
pub mod Shape
pub mod Uncounted
use pulsar_app.Base.{
  ℕ, zero, suc, ◌+◌, ◌-◌, ◌/◌, ◌%◌, List, [], ◌∷◌, Option, none, some, Str, codes, ltb,
  if◌then◌else◌, pos,
}
use pulsar_app.Strconv.{format_uint, format_int}
use pulsar_app.Decoder.Xdr
use pulsar_app.Decoder.Xdr.{
  XdrLib, ScValType, scv_bool, scv_void, scv_u32, scv_i32, scv_u64, scv_i64, scv_timepoint,
  scv_duration, scv_u128, scv_i128, scv_u256, scv_i256, scv_bytes, scv_string, scv_symbol,
  scv_address, scv_vec, scv_map, scv_other,
}
use pulsar_app.Decoder.Value.{
  DecodedValue, decoded, nil_any, of_bool, of_int, of_text, of_vec, Values, no_values, value_then,
  Entries, no_entries, entry_then, plain, type_address, type_symbol, type_string, type_bool,
  type_bytes, type_u32, type_i32, type_u64, type_i64, type_u128, type_i128, type_u256, type_i256,
  type_timepoint, type_duration, type_vec, type_map, type_void, type_unknown,
}
use pulsar_app.Decoder.Wide.{int128_string, uint128_string, int256_string, uint256_string}

abbrev hex_digit : ℕ → ℕ
hex_digit n = if ltb n 10 then b'0' + n else b'a' + (n - 10)

-- hex.EncodeToString
hex_encode : Str → Str
hex_encode [] = []
hex_encode (b ∷ s) = hex_digit (b / 16) ∷ hex_digit (b % 16) ∷ hex_encode s

abbrev pub unencodable_marker : Str
unencodable_marker = codes "="

-- A result, with the counter after it.
abbrev pub Counted {ℓ} : Type ℓ → Type ℓ
Counted A = A × ℕ

module _ (xdr : XdrLib) where
  open xdr use {ScVal}

  unknown_of : Option Str → DecodedValue
  unknown_of none = decoded type_unknown nil_any no_entries unencodable_marker
  unknown_of (some encoded) = decoded type_unknown nil_any no_entries encoded

  pub unknown : ScVal → ℕ → Counted DecodedValue
  unfolding unknown_of
  unknown value count = (unknown_of (xdr.marshal_base64 value), count + 1)

  -- `if x, ok := value.GetX(); ok { return … }`, and the fallback after the switch.
  abbrev scalar {ℓ} :
      {A : Type ℓ} → Option A → (A → DecodedValue) → ScVal → ℕ → Counted DecodedValue
  scalar none f value count = unknown value count
  scalar (some a) f value count = (f a, count)

  abbrev address_of : Option Str → ScVal → ℕ → Counted DecodedValue
  address_of none value count = unknown value count
  address_of (some []) value count = unknown value count
  address_of (some (c ∷ s)) value count = (plain type_address (of_text (c ∷ s)), count)

  abbrev address_case : Option xdr.Address → ScVal → ℕ → Counted DecodedValue
  address_case none value count = unknown value count
  address_case (some a) value count = address_of (xdr.address_string a) value count

  -- The loops over a vector and over a map; `d` is the recursive call.
  pub decode_items : (ScVal → ℕ → Counted DecodedValue) → List ScVal → ℕ → Counted Values
  decode_items d [] count = (no_values, count)
  decode_items d (x ∷ xs) count =
      let (v, c) = d x count in let (vs, c') = decode_items d xs c in (value_then v vs, c')

  pub decode_pairs : (ScVal → ℕ → Counted DecodedValue) → List (ScVal × ScVal) → ℕ → Counted Entries
  decode_pairs d [] count = (no_entries, count)
  decode_pairs d ((k, x) ∷ xs) count =
      let (kv, c) = d k count in
      let (v, c') = d x c in let (es, c'') = decode_pairs d xs c' in (entry_then kv v es, c'')

  pub vec_case :
      (ScVal → ℕ → Counted DecodedValue)
      → Option (Option (List ScVal))
      → ScVal
      → ℕ
      → Counted DecodedValue
  vec_case d (some (some xs)) value count =
      let (vs, c) = decode_items d xs count in (plain type_vec (of_vec vs), c)
  vec_case d _ value count = unknown value count

  pub map_case :
      (ScVal → ℕ → Counted DecodedValue)
      → Option (Option (List (ScVal × ScVal)))
      → ScVal
      → ℕ
      → Counted DecodedValue
  map_case d (some (some xs)) value count =
      let (es, c) = decode_pairs d xs count in (decoded type_map nil_any es [], c)
  map_case d _ value count = unknown value count

  -- The switch of `Decode`.
  pub decode_case :
      (ScVal → ℕ → Counted DecodedValue) → ScValType → ScVal → ℕ → Counted DecodedValue
  unfolding vec_case map_case
  decode_case d scv_bool v = scalar (xdr.get_b v) (λ b. plain type_bool (of_bool b)) v
  decode_case d scv_void v = λ count. (plain type_void nil_any, count)
  decode_case d scv_u32 v = scalar (xdr.get_u32 v) (λ n. plain type_u32 (of_int (pos n))) v
  decode_case d scv_i32 v = scalar (xdr.get_i32 v) (λ n. plain type_i32 (of_int n)) v
  decode_case d scv_u64 v = scalar (xdr.get_u64 v) (λ n. plain type_u64 (of_text (format_uint n))) v
  decode_case d scv_i64 v = scalar (xdr.get_i64 v) (λ n. plain type_i64 (of_text (format_int n))) v
  decode_case d scv_timepoint v =
      scalar (xdr.get_timepoint v) (λ n. plain type_timepoint (of_text (format_uint n))) v
  decode_case d scv_duration v =
      scalar (xdr.get_duration v) (λ n. plain type_duration (of_text (format_uint n))) v
  decode_case d scv_u128 v =
      scalar (xdr.get_u128 v) (λ p. plain type_u128 (of_text (uint128_string p))) v
  decode_case d scv_i128 v =
      scalar (xdr.get_i128 v) (λ p. plain type_i128 (of_text (int128_string p))) v
  decode_case d scv_u256 v =
      scalar (xdr.get_u256 v) (λ p. plain type_u256 (of_text (uint256_string p))) v
  decode_case d scv_i256 v =
      scalar (xdr.get_i256 v) (λ p. plain type_i256 (of_text (int256_string p))) v
  decode_case d scv_bytes v =
      scalar (xdr.get_bytes v) (λ b. plain type_bytes (of_text (hex_encode b))) v
  decode_case d scv_string v = scalar (xdr.get_str v) (λ s. plain type_string (of_text s)) v
  decode_case d scv_symbol v = scalar (xdr.get_sym v) (λ s. plain type_symbol (of_text s)) v
  decode_case d scv_address v = address_case (xdr.get_address v) v
  decode_case d scv_vec v = vec_case d (xdr.get_vec v) v
  decode_case d scv_map v = map_case d (xdr.get_map v) v
  decode_case d scv_other v = unknown v

  pub decode_fuel : ℕ → ScVal → ℕ → Counted DecodedValue
  decode_fuel zero v count = unknown v count
  decode_fuel (suc fuel) v count = decode_case (decode_fuel fuel) (xdr.type_of v) v count

  unfoldable pub decode : ScVal → ℕ → Counted DecodedValue
  unfolding decode_fuel decode_case decode_items decode_pairs unknown hex_encode
  decode v = decode_fuel (suc (xdr.depth v)) v

  base64_case : Option ScVal → ℕ → Option DecodedValue × ℕ
  base64_case none count = (none, count)
  base64_case (some v) count = let (value, c) = decode v count in (some value, c)

  -- DecodeBase64; an error is `none`.
  unfoldable pub decode_base64 : Str → ℕ → Option DecodedValue × ℕ
  unfolding base64_case decode
  decode_base64 encoded = base64_case (xdr.safe_unmarshal_base64 encoded)

  prepend : DecodedValue → Option Values × ℕ → Option Values × ℕ
  prepend v (none, c) = (none, c)
  prepend v (some vs, c) = (some (value_then v vs), c)

  more_topics : Option DecodedValue × ℕ → (ℕ → Option Values × ℕ) → Option Values × ℕ
  unfolding prepend
  more_topics (none, c) rest = (none, c)
  more_topics (some v, c) rest = prepend v (rest c)

  -- DecodeTopics: it stops at the first topic that is not XDR.
  unfoldable pub decode_topics : List Str → ℕ → Option Values × ℕ
  unfolding decode_base64 more_topics
  decode_topics [] count = (some no_values, count)
  decode_topics (raw ∷ rest) count =
      let tail = λ (c : ℕ). decode_topics rest c in more_topics (decode_base64 raw count) tail
