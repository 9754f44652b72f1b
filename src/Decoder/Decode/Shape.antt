-- ===== src/Decoder/Decode/Shape.antt =====
-- Every decoded value has the shape of the union, and survives the trip through JSON but for bytes that are not UTF-8.
use pulsar_app.Base.{ℕ, zero, suc, List, [], ◌∷◌, Option, none, some, ◌≡◌, ◌≢◌, refl, arith, Str}
use pulsar_app.Decoder.Xdr.{
  XdrLib, ScValType, scv_bool, scv_void, scv_u32, scv_i32, scv_u64, scv_i64, scv_timepoint,
  scv_duration, scv_u128, scv_i128, scv_u256, scv_i256, scv_bytes, scv_string, scv_symbol,
  scv_address, scv_vec, scv_map, scv_other,
}
use pulsar_app.Decoder.Value.{DecodedValue, marshal}
use pulsar_app.Decoder.Unmarshal.{unmarshal}
use pulsar_app.Decoder.Unmarshal.RoundTrip.{
  IsShaped, shaped_bool, shaped_void, shaped_u32, shaped_i32, shaped_text, shaped_vec, shaped_map,
  shaped_unknown, AllShaped, none_left, one_more, EntriesShaped, no_more, entry_more, repaired,
  round,
}
use pulsar_app.Decoder.Decode.{
  Counted, unknown, unknown_of, scalar, address_of, address_case, decode_items, decode_pairs,
  decode_case, decode_fuel, decode, vec_case, map_case,
}

-- The base64 of an encoded value is never the empty text.
abbrev pub NonEmpty : XdrLib → Type 0
NonEmpty xdr = (v : xdr.ScVal) (s : Str) → xdr.marshal_base64 v ≡ some s → s ≢ []

module _ (xdr : XdrLib) (encoded_ne_nil : NonEmpty xdr) where
  open xdr use {ScVal}

  abbrev Shapes : (ScVal → ℕ → Counted DecodedValue) → Type 0
  Shapes d = (v : ScVal) (n : ℕ) → IsShaped (d v n).0

  unknown_of-IsShaped :
      (v : ScVal) (o : Option Str) → xdr.marshal_base64 v ≡ o → IsShaped (unknown_of xdr o)
  unfolding unknown_of
  unknown_of-IsShaped v none e = shaped_unknown cc
  unknown_of-IsShaped v (some s) e = shaped_unknown (encoded_ne_nil v s e)

  unknown-IsShaped : Shapes (unknown xdr)
  unfolding unknown
  unknown-IsShaped v n = unknown_of-IsShaped v (xdr.marshal_base64 v) refl

  scalar-IsShaped :
      {A : Type 0} (o : Option A) (f : A → DecodedValue)
      → ((a : A) → IsShaped (f a))
      → Shapes (scalar xdr o f)
  scalar-IsShaped none f h v n = unknown-IsShaped v n
  scalar-IsShaped (some a) f h v n = h a

  address_of-IsShaped : (o : Option Str) → Shapes (address_of xdr o)
  address_of-IsShaped none v n = unknown-IsShaped v n
  address_of-IsShaped (some []) v n = unknown-IsShaped v n
  address_of-IsShaped (some (c ∷ s)) v n = shaped_text (c ∷ s) (ground arith)

  address_case-IsShaped : (o : Option xdr.Address) → Shapes (address_case xdr o)
  address_case-IsShaped none v n = unknown-IsShaped v n
  address_case-IsShaped (some a) v n = address_of-IsShaped (xdr.address_string a) v n

  items-IsShaped :
      (d : ScVal → ℕ → Counted DecodedValue) (xs : List ScVal)
      → Shapes d
      → (n : ℕ) → AllShaped (decode_items xdr d xs n).0
  unfolding decode_items
  items-IsShaped d [] h n = none_left
  items-IsShaped d (x ∷ xs) h n = one_more (h x n) (items-IsShaped d xs h (d x n).1)

  pairs-IsShaped :
      (d : ScVal → ℕ → Counted DecodedValue) (xs : List (ScVal × ScVal))
      → Shapes d
      → (n : ℕ) → EntriesShaped (decode_pairs xdr d xs n).0
  unfolding decode_pairs
  pairs-IsShaped d [] h n = no_more
  pairs-IsShaped d ((k, x) ∷ xs) h n =
      entry_more (h k n) (h x (d k n).1) (pairs-IsShaped d xs h (d x (d k n).1).1)

  vec_case-IsShaped :
      (d : ScVal → ℕ → Counted DecodedValue) (o : Option (Option (List ScVal)))
      → Shapes d
      → Shapes (vec_case xdr d o)
  unfolding vec_case
  vec_case-IsShaped d none h v n = unknown-IsShaped v n
  vec_case-IsShaped d (some none) h v n = unknown-IsShaped v n
  vec_case-IsShaped d (some (some xs)) h v n = shaped_vec (items-IsShaped d xs h n)

  map_case-IsShaped :
      (d : ScVal → ℕ → Counted DecodedValue) (o : Option (Option (List (ScVal × ScVal))))
      → Shapes d
      → Shapes (map_case xdr d o)
  unfolding map_case
  map_case-IsShaped d none h v n = unknown-IsShaped v n
  map_case-IsShaped d (some none) h v n = unknown-IsShaped v n
  map_case-IsShaped d (some (some xs)) h v n = shaped_map (pairs-IsShaped d xs h n)

  case-IsShaped :
      (d : ScVal → ℕ → Counted DecodedValue) (t : ScValType)
      → Shapes d
      → Shapes (decode_case xdr d t)
  unfolding decode_case
  case-IsShaped d scv_bool h v n = scalar-IsShaped (xdr.get_b v) _ shaped_bool v n
  case-IsShaped d scv_void h v n = shaped_void
  case-IsShaped d scv_u32 h v n = scalar-IsShaped (xdr.get_u32 v) _ (λ a. shaped_u32 _) v n
  case-IsShaped d scv_i32 h v n = scalar-IsShaped (xdr.get_i32 v) _ shaped_i32 v n
  case-IsShaped d scv_u64 h v n =
      scalar-IsShaped (xdr.get_u64 v) _ (λ a. shaped_text _ (ground arith)) v n
  case-IsShaped d scv_i64 h v n =
      scalar-IsShaped (xdr.get_i64 v) _ (λ a. shaped_text _ (ground arith)) v n
  case-IsShaped d scv_timepoint h v n =
      scalar-IsShaped (xdr.get_timepoint v) _ (λ a. shaped_text _ (ground arith)) v n
  case-IsShaped d scv_duration h v n =
      scalar-IsShaped (xdr.get_duration v) _ (λ a. shaped_text _ (ground arith)) v n
  case-IsShaped d scv_u128 h v n =
      scalar-IsShaped (xdr.get_u128 v) _ (λ a. shaped_text _ (ground arith)) v n
  case-IsShaped d scv_i128 h v n =
      scalar-IsShaped (xdr.get_i128 v) _ (λ a. shaped_text _ (ground arith)) v n
  case-IsShaped d scv_u256 h v n =
      scalar-IsShaped (xdr.get_u256 v) _ (λ a. shaped_text _ (ground arith)) v n
  case-IsShaped d scv_i256 h v n =
      scalar-IsShaped (xdr.get_i256 v) _ (λ a. shaped_text _ (ground arith)) v n
  case-IsShaped d scv_bytes h v n =
      scalar-IsShaped (xdr.get_bytes v) _ (λ a. shaped_text _ (ground arith)) v n
  case-IsShaped d scv_string h v n =
      scalar-IsShaped (xdr.get_str v) _ (λ a. shaped_text _ (ground arith)) v n
  case-IsShaped d scv_symbol h v n =
      scalar-IsShaped (xdr.get_sym v) _ (λ a. shaped_text _ (ground arith)) v n
  case-IsShaped d scv_address h v n = address_case-IsShaped (xdr.get_address v) v n
  case-IsShaped d scv_vec h v n = vec_case-IsShaped d (xdr.get_vec v) h v n
  case-IsShaped d scv_map h v n = map_case-IsShaped d (xdr.get_map v) h v n
  case-IsShaped d scv_other h v n = unknown-IsShaped v n

  fuel-IsShaped : (f : ℕ) → Shapes (decode_fuel xdr f)
  unfolding decode_fuel
  fuel-IsShaped zero v n = unknown-IsShaped v n
  fuel-IsShaped (suc f) v n =
      case-IsShaped (decode_fuel xdr f) (xdr.type_of v) (fuel-IsShaped f) v n

  -- A decoded value carries exactly the part of the union that its type calls for, at every depth,
  -- if the base64 of an encoded value is never empty.
  pub decode-IsShaped : (v : ScVal) (count : ℕ) → IsShaped (decode xdr v count).0
  unfolding decode
  decode-IsShaped v count = fuel-IsShaped (suc (xdr.depth v)) v count

  -- A decoded value is read back from the JSON that it is stored as, at every depth of its vectors and
  -- maps, with its texts as they were but for U+FFFD in the place of each byte that is not UTF-8, if
  -- the base64 of an encoded value is never empty.
  pub unmarshal-marshal-decode :
      (v : ScVal) (count : ℕ)
      → unmarshal (marshal (decode xdr v count).0) ≡ some (repaired (decode xdr v count).0)
  unmarshal-marshal-decode v count = round (decode-IsShaped v count)
