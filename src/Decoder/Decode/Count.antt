-- ===== src/Decoder/Decode/Count.antt =====
-- The fuel of `decode` is enough, and the counter counts the unknown values.
use pulsar_app.Base.{
  ℕ, zero, suc, ◌+◌, ◌<◌, List, [], ◌∷◌, Option, none, some, ◌≡◌, refl, arith, eq_str,
  if◌then◌else◌, All, All-map,
}
use mathlib.Core.Path.{fun_ext}
use pulsar_app.Decoder.Xdr.{XdrLib, ScValType, scv_vec, scv_map}
use pulsar_app.Decoder.Value.{
  DecodedValue, decoded, Any, nil_any, of_bool, of_int, of_text, of_vec, Values, no_values,
  value_then, Entries, no_entries, entry_then, type_unknown,
}
use pulsar_app.Decoder.Decode.{
  Counted, unknown, decode_items, decode_pairs, decode_case, decode_fuel, decode, vec_case,
  map_case,
}

-- The number of values of type unknown in a decoded value, at any depth.
unfoldable mutual
  pub unknowns : DecodedValue → ℕ
  unknowns (decoded t a es x) =
      (if eq_str t type_unknown then 1 else 0) + (unknowns_any a + unknowns_entries es)

  pub unknowns_any : Any → ℕ
  unknowns_any nil_any = 0
  unknowns_any (of_bool b) = 0
  unknowns_any (of_int n) = 0
  unknowns_any (of_text s) = 0
  unknowns_any (of_vec vs) = unknowns_values vs

  pub unknowns_values : Values → ℕ
  unknowns_values no_values = 0
  unknowns_values (value_then v vs) = unknowns v + unknowns_values vs

  pub unknowns_entries : Entries → ℕ
  unknowns_entries no_entries = 0
  unknowns_entries (entry_then k v es) = unknowns k + (unknowns v + unknowns_entries es)

module _ (xdr : XdrLib) where
  open xdr use {ScVal, depth}

  items-congr :
      (d e : ScVal → ℕ → Counted DecodedValue) (xs : List ScVal)
      → All (λ x. d x ≡ e x) xs
      → (n : ℕ) → decode_items xdr d xs n ≡ decode_items xdr e xs n
  unfolding decode_items
  items-congr d e [] h n = refl
  items-congr d e (x ∷ xs) (hx, h) n = rw (hx, items-congr d e xs h (e x n).1)

  pairs-congr :
      (d e : ScVal → ℕ → Counted DecodedValue) (xs : List (ScVal × ScVal))
      → All (λ p. (d p.0 ≡ e p.0) × (d p.1 ≡ e p.1)) xs
      → (n : ℕ) → decode_pairs xdr d xs n ≡ decode_pairs xdr e xs n
  unfolding decode_pairs
  pairs-congr d e [] h n = refl
  pairs-congr d e ((k, x) ∷ xs) ((hk, hx), h) n =
      rw (hk, hx, pairs-congr d e xs h (e x (e k n).1).1)

  vec-congr :
      (d e : ScVal → ℕ → Counted DecodedValue) (v : ScVal)
      → ((x : ScVal) → depth x < depth v → d x ≡ e x)
      → (o : Option (Option (List ScVal))) → xdr.get_vec v ≡ o
      → (n : ℕ) → vec_case xdr d o v n ≡ vec_case xdr e o v n
  unfolding vec_case
  vec-congr d e v h none p n = refl
  vec-congr d e v h (some none) p n = refl
  vec-congr d e v h (some (some xs)) p n =
      rw (items-congr d e xs (All-map h xs (xdr.vec_depth v xs p)) n)

  map-congr :
      (d e : ScVal → ℕ → Counted DecodedValue) (v : ScVal)
      → ((x : ScVal) → depth x < depth v → d x ≡ e x)
      → (o : Option (Option (List (ScVal × ScVal)))) → xdr.get_map v ≡ o
      → (n : ℕ) → map_case xdr d o v n ≡ map_case xdr e o v n
  unfolding map_case
  map-congr d e v h none p n = refl
  map-congr d e v h (some none) p n = refl
  map-congr d e v h (some (some xs)) p n =
      rw (
        pairs-congr d e xs (All-map (λ a lt. (h a.0 lt.0, h a.1 lt.1)) xs (xdr.map_depth v xs p)) n)

  -- Two recursive calls that agree on the parts of a value give one result.
  case-congr :
      (d e : ScVal → ℕ → Counted DecodedValue) (t : ScValType) (v : ScVal)
      → ((x : ScVal) → depth x < depth v → d x ≡ e x)
      → (n : ℕ) → decode_case xdr d t v n ≡ decode_case xdr e t v n
  unfolding decode_case vec_case map_case
  case-congr d e scv_vec v h n = vec-congr d e v h (xdr.get_vec v) refl n
  case-congr d e scv_map v h n = map-congr d e v h (xdr.get_map v) refl n
  case-congr d e _ v h n = refl

  fuel-eq :
      (f g : ℕ) (v : ScVal) → depth v < f → depth v < g → decode_fuel xdr f v ≡ decode_fuel xdr g v
  unfolding decode_fuel
  fuel-eq zero g v h k = absurd (omega arith)
  fuel-eq (suc f) zero v h k = absurd (omega arith)
  fuel-eq (suc f) (suc g) v h k = fun_ext (
      case-congr (decode_fuel xdr f) (decode_fuel xdr g) (xdr.type_of v) v
        λ x lt. fuel-eq f g x (omega arith) (omega arith))

  -- The decoding of a value is that of the switch over its type, with the decodings of its parts:
  -- the recursion of the source, with no bound on the depth.
  pub decode-eq :
      (v : ScVal) (count : ℕ)
      → decode xdr v count ≡ decode_case xdr (decode xdr) (xdr.type_of v) v count
  unfolding decode decode_fuel
  decode-eq v count =
      case-congr _ _ (xdr.type_of v) v
        (λ x lt. fuel-eq (depth v) (suc (depth x)) x lt (omega arith)) count

  -- The counter after a call is the counter before it and the unknown values of the result.
  abbrev Counts : (ScVal → ℕ → Counted DecodedValue) → Type 0
  Counts d = (v : ScVal) (n : ℕ) → (d v n).1 ≡ n + unknowns (d v n).0

  unknown-Counts : Counts (unknown xdr)
  unfolding unknown unknowns
  unknown-Counts v n = ground arith

  items-Counts :
      (d : ScVal → ℕ → Counted DecodedValue) (xs : List ScVal)
      → Counts d
      → (n : ℕ) → (decode_items xdr d xs n).1 ≡ n + unknowns_values (decode_items xdr d xs n).0
  unfolding decode_items unknowns_values
  items-Counts d [] h n = omega arith
  items-Counts d (x ∷ xs) h n = omega (arith, h x n, items-Counts d xs h (d x n).1)

  pairs-Counts :
      (d : ScVal → ℕ → Counted DecodedValue) (xs : List (ScVal × ScVal))
      → Counts d
      → (n : ℕ) → (decode_pairs xdr d xs n).1 ≡ n + unknowns_entries (decode_pairs xdr d xs n).0
  unfolding decode_pairs unknowns_entries
  pairs-Counts d [] h n = omega arith
  pairs-Counts d ((k, x) ∷ xs) h n =
      omega (arith, h k n, h x (d k n).1, pairs-Counts d xs h (d x (d k n).1).1)

  vec_case-Counts :
      (d : ScVal → ℕ → Counted DecodedValue) (o : Option (Option (List ScVal)))
      → Counts d
      → Counts (vec_case xdr d o)
  unfolding vec_case
  vec_case-Counts d none h v n = unknown-Counts v n
  vec_case-Counts d (some none) h v n = unknown-Counts v n
  vec_case-Counts d (some (some xs)) h v n =
      unfold unknowns unknowns_any unknowns_entries in omega (arith, items-Counts d xs h n)

  map_case-Counts :
      (d : ScVal → ℕ → Counted DecodedValue) (o : Option (Option (List (ScVal × ScVal))))
      → Counts d
      → Counts (map_case xdr d o)
  unfolding map_case
  map_case-Counts d none h v n = unknown-Counts v n
  map_case-Counts d (some none) h v n = unknown-Counts v n
  map_case-Counts d (some (some xs)) h v n =
      unfold unknowns unknowns_any unknowns_entries in omega (arith, pairs-Counts d xs h n)

  case-Counts :
      (d : ScVal → ℕ → Counted DecodedValue) (t : ScValType)
      → Counts d
      → Counts (decode_case xdr d t)
  unfolding decode_case unknowns
  case-Counts d scv_vec h v n = vec_case-Counts d (xdr.get_vec v) h v n
  case-Counts d scv_map h v n = map_case-Counts d (xdr.get_map v) h v n
  case-Counts d _ h v n = ground (arith, unknown-Counts v n)

  fuel-Counts : (f : ℕ) → Counts (decode_fuel xdr f)
  unfolding decode_fuel
  fuel-Counts zero v n = unknown-Counts v n
  fuel-Counts (suc f) v n = case-Counts (decode_fuel xdr f) (xdr.type_of v) (fuel-Counts f) v n

  -- Decoding a value adds to the counter exactly the number of unknown values in the result, at any
  -- depth.
  pub decode-unknowns :
      (v : ScVal) (count : ℕ) → (decode xdr v count).1 ≡ count + unknowns (decode xdr v count).0
  unfolding decode
  decode-unknowns v count = fuel-Counts (suc (depth v)) v count
