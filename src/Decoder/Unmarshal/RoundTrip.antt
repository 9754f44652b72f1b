-- ===== src/Decoder/Unmarshal/RoundTrip.antt =====
-- What the decoder produces has the shape of the discriminated union, and is read back from its JSON.
use pulsar_app.Base.{
  Bool, true, false, ◌&&◌, leb, ltb, Bool-cases, inl, inr, ap, ◌∙◌, none, ℕ, List, [], ◌∷◌, some,
  ◌≡◌, ◌≢◌, ◌⊎◌, refl, arith, Str, ℤ,
}
use pulsar_app.Decoder.Value.{
  DecodedValue, decoded, Any, nil_any, of_bool, of_int, of_text, of_vec, Values, no_values,
  value_then, Entries, no_entries, entry_then, plain, type_address, type_symbol, type_string,
  type_bool, type_bytes, type_u32, type_i32, type_u64, type_i64, type_u128, type_i128, type_u256,
  type_i256, type_timepoint, type_duration, type_vec, type_map, type_void, type_unknown, to_valid,
  to_valid_from, rune_rest, marshal, marshal_values, marshal_entries,
}
use pulsar_app.Validate.{valid_string, is_cont, second_of_3, second_of_4}
use pulsar_app.Decoder.Unmarshal.{
  unmarshal, raw_fields, raw_field, finish, values_of, item_values, entries_of, item_entries,
  entry_of, entry_fields, entry_field,
}

-- The variants whose value is a text.
abbrev pub text_types : List Str
text_types =
    type_address ∷ type_symbol ∷ type_string ∷ type_bytes ∷ type_u64 ∷ type_i64 ∷ type_u128
    ∷ type_i128 ∷ type_u256 ∷ type_i256 ∷ type_timepoint ∷ type_duration ∷ []

abbrev pub OneOf : Str → List Str → Type 0
OneOf t [] = ⊥
OneOf t (u ∷ us) = (t ≡ u) ⊎ OneOf t us

-- The variants by the part of the union that carries their content, and the parts of a value.
mutual
  pub data IsShaped : DecodedValue → Type 0 where
    shaped_bool : (b : Bool) → IsShaped (plain type_bool (of_bool b))
    shaped_void : IsShaped (plain type_void nil_any)
    shaped_u32 : (n : ℤ) → IsShaped (plain type_u32 (of_int n))
    shaped_i32 : (n : ℤ) → IsShaped (plain type_i32 (of_int n))
    shaped_text : {t : Str} (s : Str) → OneOf t text_types → IsShaped (plain t (of_text s))
    shaped_vec : {vs : Values} → AllShaped vs → IsShaped (plain type_vec (of_vec vs))
    shaped_map : {es : Entries} → EntriesShaped es → IsShaped (decoded type_map nil_any es [])
    shaped_unknown : {x : Str} → x ≢ [] → IsShaped (decoded type_unknown nil_any no_entries x)

  pub data AllShaped : Values → Type 0 where
    none_left : AllShaped no_values
    one_more :
        {v : DecodedValue} {vs : Values} → IsShaped v → AllShaped vs → AllShaped (value_then v vs)

  pub data EntriesShaped : Entries → Type 0 where
    no_more : EntriesShaped no_entries
    entry_more :
        {k v : DecodedValue} {es : Entries}
        → IsShaped k
        → IsShaped v
        → EntriesShaped es
        → EntriesShaped (entry_then k v es)

-- The first character is kept whole.
to_valid_rune :
    (n a : ℕ) (s : Str) → rune_rest a s ≡ some n → to_valid (a ∷ s) ≡ a ∷ to_valid_from n s
to_valid_rune n a s =
    ap (λ o. elim o [
      | none ↦ 0xEF ∷ 0xBF ∷ 0xBD ∷ to_valid_from 0 s
      | some n ↦ a ∷ to_valid_from n s
    ])

-- A text that is UTF-8 stays as it is.
to_valid_lem : (s : Str) → valid_string s ≡ true → to_valid s ≡ s
unfolding valid_string
to_valid_lem [] h = refl
to_valid_lem (a ∷ []) h = ground arith
to_valid_lem (a ∷ b ∷ []) h = ground (arith, to_valid_lem (b ∷ []))
to_valid_lem (a ∷ b ∷ c ∷ []) h = ground (arith, to_valid_lem (b ∷ c ∷ []), to_valid_lem (c ∷ []))
to_valid_lem (a ∷ b ∷ c ∷ d ∷ s) h = elim (Bool-cases (ltb a 0x80)) [
  | inl e ↦
      let rest : valid_string (b ∷ c ∷ d ∷ s) ≡ true = rw e at h in
      to_valid_rune 0 a (b ∷ c ∷ d ∷ s) (rw e refl)
      ∙ (ap (λ t. a ∷ t) (to_valid_lem (b ∷ c ∷ d ∷ s) rest))
  | inr e ↦ elim (Bool-cases (leb 0xC2 a && leb a 0xDF && is_cont b)) [
    | inl two ↦
        let rest : valid_string (c ∷ d ∷ s) ≡ true = rw (e, two) at h in
        to_valid_rune 1 a (b ∷ c ∷ d ∷ s) (rw (e, two) refl)
        ∙ (ap (λ t. a ∷ b ∷ t) (to_valid_lem (c ∷ d ∷ s) rest))
    | inr two ↦ elim (Bool-cases (second_of_3 a b && is_cont c)) [
      | inl three ↦
          let rest : valid_string (d ∷ s) ≡ true = rw (e, two, three) at h in
          to_valid_rune 2 a (b ∷ c ∷ d ∷ s) (rw (e, two, three) refl)
          ∙ (ap (λ t. a ∷ b ∷ c ∷ t) (to_valid_lem (d ∷ s) rest))
      | inr three ↦ elim (Bool-cases (second_of_4 a b && is_cont c && is_cont d)) [
        | inl four ↦
            let rest : valid_string s ≡ true = rw (e, two, three, four) at h in
            to_valid_rune 3 a (b ∷ c ∷ d ∷ s) (rw (e, two, three, four) refl)
            ∙ (ap (λ t. a ∷ b ∷ c ∷ d ∷ t) (to_valid_lem s rest))
        | inr four ↦ let none_left : false ≡ true = rw (e, two, three, four) at h in absurd cc
      ]
    ]
  ]
]

abbrev mutual
  -- The value with its texts as JSON gives them back: with U+FFFD for what is not UTF-8.
  pub repaired : DecodedValue → DecodedValue
  repaired (decoded t a es x) = decoded t (repaired_any a) (repaired_entries es) (to_valid x)

  repaired_any : Any → Any
  repaired_any nil_any = nil_any
  repaired_any (of_bool b) = of_bool b
  repaired_any (of_int n) = of_int n
  repaired_any (of_text s) = of_text (to_valid s)
  repaired_any (of_vec vs) = of_vec (repaired_values vs)

  repaired_values : Values → Values
  repaired_values no_values = no_values
  repaired_values (value_then v vs) = value_then (repaired v) (repaired_values vs)

  repaired_entries : Entries → Entries
  repaired_entries no_entries = no_entries
  repaired_entries (entry_then k v es) = entry_then (repaired k) (repaired v) (repaired_entries es)

round_text :
    {t : Str} (s : Str)
    → OneOf t text_types
    → unmarshal (marshal (plain t (of_text s))) ≡ some (plain t (of_text (to_valid s)))
unfolding unmarshal raw_fields raw_field finish marshal values_of entries_of
round_text s h = ground arith

round_unknown :
    (x : Str)
    → x ≢ []
    → unmarshal (marshal (decoded type_unknown nil_any no_entries x))
      ≡ some (decoded type_unknown nil_any no_entries (to_valid x))
unfolding unmarshal raw_fields raw_field finish marshal values_of entries_of
round_unknown [] h = absurd (h refl)
round_unknown (c ∷ s) h = refl

mutual
  unfolding unmarshal raw_fields raw_field finish marshal values_of entries_of item_values
      item_entries entry_of entry_fields entry_field marshal_values marshal_entries

  pub round : {v : DecodedValue} → IsShaped v → unmarshal (marshal v) ≡ some (repaired v)
  round (shaped_bool b) = refl
  round shaped_void = refl
  round (shaped_u32 n) = refl
  round (shaped_i32 n) = refl
  round (shaped_text s h) = round_text s h
  round (shaped_vec h) = rw (round_values h)
  round (shaped_map h) = rw (round_entries h)
  round (shaped_unknown {x} h) = round_unknown x h

  round_values :
      {vs : Values} → AllShaped vs → item_values (marshal_values vs) ≡ some (repaired_values vs)
  round_values none_left = refl
  round_values (one_more h t) = rw (round h, round_values t)

  round_entries :
      {es : Entries}
      → EntriesShaped es
      → item_entries (marshal_entries es) ≡ some (repaired_entries es)
  round_entries no_more = refl
  round_entries (entry_more k v t) = rw (round k, round v, round_entries t)
