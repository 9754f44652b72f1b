-- ===== src/Decoder/Decode/Uncounted.antt =====
-- indexer/internal/decoder/decoder.go: Decode apart from the counter that it carries along.
use pulsar_app.Base.{ℕ, zero, suc, List, [], ◌∷◌, Option, none, some, Str, ◌≡◌, refl, ap, ap₂, ◌∙◌}
use pulsar_app.Decoder.Xdr.{
  XdrLib, ScValType, scv_bool, scv_void, scv_u32, scv_i32, scv_u64, scv_i64, scv_timepoint,
  scv_duration, scv_u128, scv_i128, scv_u256, scv_i256, scv_bytes, scv_string, scv_symbol,
  scv_address, scv_vec, scv_map, scv_other,
}
use pulsar_app.Decoder.Value.{
  DecodedValue, decoded, nil_any, of_vec, Values, value_then, Entries, entry_then, plain, type_vec,
  type_map,
}
use pulsar_app.Decoder.Decode.{
  Counted, unknown, scalar, address_of, address_case, decode_items, decode_pairs, vec_case,
  map_case, decode_case, decode_fuel, decode, base64_case, decode_base64, prepend, more_topics,
  decode_topics,
}

-- The results of a counted function do not depend on the counter.
abbrev pub IsUncounted {ℓ} : {A : Type ℓ} → (ℕ → Counted A) → Type ℓ
IsUncounted f = (m n : ℕ) → (f m).0 ≡ (f n).0

module _ (xdr : XdrLib) where
  open xdr use {ScVal}

  unknown-IsUncounted : (v : ScVal) → IsUncounted (unknown xdr v)
  unfolding unknown
  unknown-IsUncounted v m n = refl

  scalar-IsUncounted {ℓ} :
      {A : Type ℓ} (o : Option A) (f : A → DecodedValue) (v : ScVal)
      → IsUncounted (scalar xdr o f v)
  scalar-IsUncounted none f v m n = unknown-IsUncounted v m n
  scalar-IsUncounted (some a) f v m n = refl

  address-IsUncounted : (o : Option xdr.Address) (v : ScVal) → IsUncounted (address_case xdr o v)
  address-IsUncounted none v = unknown-IsUncounted v
  address-IsUncounted (some a) v = cases (xdr.address_string a)
    where
      cases : (s : Option Str) → IsUncounted (address_of xdr s v)
      cases none m n = unknown-IsUncounted v m n
      cases (some []) m n = unknown-IsUncounted v m n
      cases (some (c ∷ s)) m n = refl

  module _ (d : ScVal → ℕ → Counted DecodedValue) (pure : (v : ScVal) → IsUncounted (d v)) where
    items-IsUncounted : (xs : List ScVal) → IsUncounted (decode_items xdr d xs)
    unfolding decode_items
    items-IsUncounted [] m n = refl
    items-IsUncounted (x ∷ xs) m n =
        ap₂ value_then (pure x m n) (items-IsUncounted xs (d x m).1 (d x n).1)

    pairs-IsUncounted : (xs : List (ScVal × ScVal)) → IsUncounted (decode_pairs xdr d xs)
    unfolding decode_pairs
    pairs-IsUncounted [] m n = refl
    pairs-IsUncounted ((k, x) ∷ xs) m n =
        ap₂ (λ (f : Entries → Entries) es. f es)
          (ap₂ (λ a b es. entry_then a b es) (pure k m n) (pure x (d k m).1 (d k n).1))
          (pairs-IsUncounted xs (d x (d k m).1).1 (d x (d k n).1).1)

    vec-IsUncounted :
        (o : Option (Option (List ScVal))) (v : ScVal) → IsUncounted (vec_case xdr d o v)
    unfolding vec_case
    vec-IsUncounted none v m n = unknown-IsUncounted v m n
    vec-IsUncounted (some none) v m n = unknown-IsUncounted v m n
    vec-IsUncounted (some (some xs)) v m n =
        ap (λ vs. plain type_vec (of_vec vs)) (items-IsUncounted xs m n)

    map-IsUncounted :
        (o : Option (Option (List (ScVal × ScVal)))) (v : ScVal) → IsUncounted (map_case xdr d o v)
    unfolding map_case
    map-IsUncounted none v m n = unknown-IsUncounted v m n
    map-IsUncounted (some none) v m n = unknown-IsUncounted v m n
    map-IsUncounted (some (some xs)) v m n =
        ap (λ es. decoded type_map nil_any es []) (pairs-IsUncounted xs m n)

    case-IsUncounted : (t : ScValType) (v : ScVal) → IsUncounted (decode_case xdr d t v)
    unfolding decode_case
    case-IsUncounted scv_bool v = scalar-IsUncounted (xdr.get_b v) _ v
    case-IsUncounted scv_void v = λ m n. refl
    case-IsUncounted scv_u32 v = scalar-IsUncounted (xdr.get_u32 v) _ v
    case-IsUncounted scv_i32 v = scalar-IsUncounted (xdr.get_i32 v) _ v
    case-IsUncounted scv_u64 v = scalar-IsUncounted (xdr.get_u64 v) _ v
    case-IsUncounted scv_i64 v = scalar-IsUncounted (xdr.get_i64 v) _ v
    case-IsUncounted scv_timepoint v = scalar-IsUncounted (xdr.get_timepoint v) _ v
    case-IsUncounted scv_duration v = scalar-IsUncounted (xdr.get_duration v) _ v
    case-IsUncounted scv_u128 v = scalar-IsUncounted (xdr.get_u128 v) _ v
    case-IsUncounted scv_i128 v = scalar-IsUncounted (xdr.get_i128 v) _ v
    case-IsUncounted scv_u256 v = scalar-IsUncounted (xdr.get_u256 v) _ v
    case-IsUncounted scv_i256 v = scalar-IsUncounted (xdr.get_i256 v) _ v
    case-IsUncounted scv_bytes v = scalar-IsUncounted (xdr.get_bytes v) _ v
    case-IsUncounted scv_string v = scalar-IsUncounted (xdr.get_str v) _ v
    case-IsUncounted scv_symbol v = scalar-IsUncounted (xdr.get_sym v) _ v
    case-IsUncounted scv_address v = address-IsUncounted (xdr.get_address v) v
    case-IsUncounted scv_vec v = vec-IsUncounted (xdr.get_vec v) v
    case-IsUncounted scv_map v = map-IsUncounted (xdr.get_map v) v
    case-IsUncounted scv_other v = unknown-IsUncounted v

  fuel-IsUncounted : (fuel : ℕ) (v : ScVal) → IsUncounted (decode_fuel xdr fuel v)
  unfolding decode_fuel
  fuel-IsUncounted zero v = unknown-IsUncounted v
  fuel-IsUncounted (suc fuel) v =
      case-IsUncounted (decode_fuel xdr fuel) (fuel-IsUncounted fuel) (xdr.type_of v) v

  -- What a value decodes to does not depend on the counter.
  pub decode-IsUncounted : (v : ScVal) → IsUncounted (decode xdr v)
  unfolding decode
  decode-IsUncounted v = fuel-IsUncounted (suc (xdr.depth v)) v

  -- The same of a value in base64, which may fail to be read.
  pub decode_base64-IsUncounted : (s : Str) → IsUncounted (decode_base64 xdr s)
  unfolding decode_base64 base64_case
  decode_base64-IsUncounted s = cases (xdr.safe_unmarshal_base64 s)
    where
      cases : (o : Option ScVal) → IsUncounted (base64_case xdr o)
      cases none m n = refl
      cases (some v) m n = ap (λ x. some x) (decode-IsUncounted v m n)

  -- The same of a list of topics.
  pub decode_topics-IsUncounted : (raws : List Str) → IsUncounted (decode_topics xdr raws)
  unfolding decode_topics more_topics prepend
  decode_topics-IsUncounted [] m n = refl
  decode_topics-IsUncounted (raw ∷ rest) m n =
      cases (decode_base64 xdr raw m) (decode_base64 xdr raw n) (decode_base64-IsUncounted raw m n)
        (decode_topics-IsUncounted rest)
    where
      prepended :
          (v : DecodedValue) (p q : Option Values × ℕ)
          → p.0 ≡ q.0
          → (prepend xdr v p).0 ≡ (prepend xdr v q).0
      prepended v (none, c) (none, e) h = refl
      prepended v (none, c) (some ws, e) h = absurd cc
      prepended v (some vs, c) (none, e) h = absurd cc
      prepended v (some vs, c) (some ws, e) h =
          let k : vs ≡ ws = cc in ap (λ x. some (value_then v x)) k

      cases :
          (p q : Option DecodedValue × ℕ)
          → p.0 ≡ q.0
          → IsUncounted (decode_topics xdr rest)
          → (more_topics xdr p (decode_topics xdr rest)).0
            ≡ (more_topics xdr q (decode_topics xdr rest)).0
      cases (none, c) (none, e) h later = refl
      cases (none, c) (some w, e) h later = absurd cc
      cases (some v, c) (none, e) h later = absurd cc
      cases (some v, c) (some w, e) h later =
          let k : v ≡ w = cc in
          ap (λ x. (prepend xdr x (decode_topics xdr rest c)).0) k ∙ prepended w _ _ (later c e)
