-- ===== src/Validate/Text.antt =====
-- What the text filters and the contract ID check accept, against the definition of UTF-8.
use mathlib.Core.Bool.{false≢true}
use mathlib.Core.Path.{subst}
use pulsar_app.Base.{
  ℕ, ◌+◌, ◌-◌, ◌*◌, ◌/◌, ◌%◌, ◌≤◌, ◌<◌, true, false, ◌&&◌, [], ◌∷◌, ◌++◌, ◌≡◌, ◌≢◌, ◌↔◌, ◌⊎◌, inl,
  inr, refl, arith, Str, leb, ltb, All, Bool-cases, all_true, contains_byte, ok, if◌then◌else◌,
  length,
}
use pulsar_app.Validate.{
  is_cont, second_of_3, second_of_4, valid_string, event_filter_text, is_base32, contract_id,
}

-- A Unicode scalar value: no surrogate.
abbrev pub IsScalar : ℕ → Type 0
IsScalar cp = (cp < 0xD800) ⊎ (0xE000 ≤ cp) × (cp < 0x110000)

-- The UTF-8 encoding of a scalar value.
pub encode : ℕ → Str
encode cp =
    if ltb cp 0x80
    then cp ∷ []
    else if ltb cp 0x800
    then (0xC0 + cp / 64) ∷ (0x80 + cp % 64) ∷ []
    else if ltb cp 0x10000
    then (0xE0 + cp / 4096) ∷ (0x80 + cp / 64 % 64) ∷ (0x80 + cp % 64) ∷ []
    else (0xF0 + cp / 262144)
      ∷ (0x80 + cp / 4096 % 64)
      ∷ (0x80 + cp / 64 % 64)
      ∷ (0x80 + cp % 64)
      ∷ []

-- A concatenation of encodings.
pub data IsUtf8 : Str → Type 0 where
  done : IsUtf8 []
  char : {t : Str} (cp : ℕ) (s : Str) → IsScalar cp → t ≡ encode cp ++ s → IsUtf8 s → IsUtf8 t

encode_1 : (a : ℕ) → ltb a 0x80 ≡ true → IsScalar a × (encode a ≡ a ∷ [])
unfolding encode
encode_1 a h = (inl (ground arith), rw h)

value_2 : ℕ → ℕ → ℕ
value_2 a b = (a - 0xC0) * 64 + (b - 0x80)

encode_2 :
    (a b : ℕ)
    → leb 0xC2 a && leb a 0xDF && is_cont b ≡ true
    → IsScalar (value_2 a b) × (encode (value_2 a b) ≡ a ∷ b ∷ [])
unfolding encode value_2
encode_2 a b h = ground arith

value_3 : ℕ → ℕ → ℕ → ℕ
value_3 a b c = (a - 0xE0) * 4096 + (b - 0x80) * 64 + (c - 0x80)

encode_3 :
    (a b c : ℕ)
    → second_of_3 a b && is_cont c ≡ true
    → IsScalar (value_3 a b c) × (encode (value_3 a b c) ≡ a ∷ b ∷ c ∷ [])
unfolding encode value_3
encode_3 a b c h = ground arith

value_4 : ℕ → ℕ → ℕ → ℕ → ℕ
value_4 a b c d = (a - 0xF0) * 262144 + (b - 0x80) * 4096 + (c - 0x80) * 64 + (d - 0x80)

encode_4 :
    (a b c d : ℕ)
    → second_of_4 a b && is_cont c && is_cont d ≡ true
    → IsScalar (value_4 a b c d) × (encode (value_4 a b c d) ≡ a ∷ b ∷ c ∷ d ∷ [])
unfolding encode value_4
encode_4 a b c d h = ground arith

char_1 : (a : ℕ) (s : Str) → ltb a 0x80 ≡ true → IsUtf8 s → IsUtf8 (a ∷ s)
char_1 a s h t = let (sc, e) = encode_1 a h in char a s sc (rw e) t

char_2 :
    (a b : ℕ) (s : Str)
    → leb 0xC2 a && leb a 0xDF && is_cont b ≡ true
    → IsUtf8 s
    → IsUtf8 (a ∷ b ∷ s)
char_2 a b s h t = let (sc, e) = encode_2 a b h in char (value_2 a b) s sc (rw e) t

char_3 :
    (a b c : ℕ) (s : Str) → second_of_3 a b && is_cont c ≡ true → IsUtf8 s → IsUtf8 (a ∷ b ∷ c ∷ s)
char_3 a b c s h t = let (sc, e) = encode_3 a b c h in char (value_3 a b c) s sc (rw e) t

char_4 :
    (a b c d : ℕ) (s : Str)
    → second_of_4 a b && is_cont c && is_cont d ≡ true
    → IsUtf8 s
    → IsUtf8 (a ∷ b ∷ c ∷ d ∷ s)
char_4 a b c d s h t = let (sc, e) = encode_4 a b c d h in char (value_4 a b c d) s sc (rw e) t

-- Each case of the scanner reads one encoding off the front.
pub valid_string_sound : (s : Str) → valid_string s ≡ true → IsUtf8 s
unfolding valid_string
valid_string_sound [] h = done
valid_string_sound (a ∷ []) h = let (sc, e) = encode_1 a h in char a [] sc (rw e) done
valid_string_sound (a ∷ b ∷ []) h = elim (Bool-cases (ltb a 0x80)) [
  | inl one ↦ char_1 a (b ∷ []) one (valid_string_sound (b ∷ []) (rw one at h))
  | inr more ↦ char_2 a b [] (rw more at h) done
]
valid_string_sound (a ∷ b ∷ c ∷ []) h = elim (Bool-cases (ltb a 0x80)) [
  | inl one ↦ char_1 a _ one (valid_string_sound (b ∷ c ∷ []) (rw one at h))
  | inr more ↦ elim (Bool-cases (leb 0xC2 a && leb a 0xDF && is_cont b)) [
    | inl two ↦ char_2 a b _ two (valid_string_sound (c ∷ []) (rw (more, two) at h))
    | inr not2 ↦ char_3 a b c [] (rw (more, not2) at h) done
  ]
]
valid_string_sound (a ∷ b ∷ c ∷ d ∷ s) h = elim (Bool-cases (ltb a 0x80)) [
  | inl one ↦ char_1 a _ one (valid_string_sound (b ∷ c ∷ d ∷ s) (rw one at h))
  | inr more ↦ elim (Bool-cases (leb 0xC2 a && leb a 0xDF && is_cont b)) [
    | inl two ↦ char_2 a b _ two (valid_string_sound (c ∷ d ∷ s) (rw (more, two) at h))
    | inr not2 ↦ elim (Bool-cases (second_of_3 a b && is_cont c)) [
      | inl three ↦ char_3 a b c _ three (valid_string_sound (d ∷ s) (rw (more, not2, three) at h))
      | inr not3 ↦ elim (Bool-cases (second_of_4 a b && is_cont c && is_cont d)) [
        | inl four ↦ char_4 a b c d s four (valid_string_sound s (rw (more, not2, not3, four) at h))
        | inr not4 ↦ absurd (false≢true (rw (more, not2, not3, not4) at h))
      ]
    ]
  ]
]

step_1 : (a : ℕ) (s : Str) → ltb a 0x80 ≡ true → valid_string s ≡ true → valid_string (a ∷ s) ≡ true
unfolding valid_string
step_1 a [] h v = h
step_1 a (b ∷ []) h v = ground arith
step_1 a (b ∷ c ∷ []) h v = ground arith
step_1 a (b ∷ c ∷ d ∷ s) h v = rw h v

step_2 :
    (a b : ℕ) (s : Str)
    → leb 0xC2 a && leb a 0xDF && is_cont b ≡ true
    → valid_string s ≡ true
    → valid_string (a ∷ b ∷ s) ≡ true
unfolding valid_string
step_2 a b [] h v = ground arith
step_2 a b (c ∷ []) h v = ground arith
step_2 a b (c ∷ d ∷ s) h v = ground arith

step_3 :
    (a b c : ℕ) (s : Str)
    → second_of_3 a b && is_cont c ≡ true
    → valid_string s ≡ true
    → valid_string (a ∷ b ∷ c ∷ s) ≡ true
unfolding valid_string
step_3 a b c [] h v = ground arith
step_3 a b c (d ∷ s) h v = ground arith

not_shorter :
    (a b c d : ℕ)
    → second_of_4 a b && is_cont c && is_cont d ≡ true
    → (ltb a 0x80 ≡ false)
      × ((leb 0xC2 a && leb a 0xDF && is_cont b) ≡ false)
      × ((second_of_3 a b && is_cont c) ≡ false)
not_shorter a b c d h = ground arith

step_4 :
    (a b c d : ℕ) (s : Str)
    → second_of_4 a b && is_cont c && is_cont d ≡ true
    → valid_string s ≡ true
    → valid_string (a ∷ b ∷ c ∷ d ∷ s) ≡ true
unfolding valid_string
step_4 a b c d s h v = let (n1, n2, n3) = not_shorter a b c d h in rw (n1, n2, n3, h) v

-- The scanner steps over one encoding, whatever follows it.
valid-encode :
    (cp : ℕ) (s : Str) → IsScalar cp → valid_string s ≡ true → valid_string (encode cp ++ s) ≡ true
unfolding encode
valid-encode cp s h v = elim (Bool-cases (ltb cp 0x80)) [
  | inl one ↦ rw one (step_1 cp s one v)
  | inr more ↦ elim (Bool-cases (ltb cp 0x800)) [
    | inl two ↦ rw (more, two) (step_2 _ _ s (ground arith) v)
    | inr not2 ↦ elim (Bool-cases (ltb cp 0x10000)) [
      | inl three ↦ rw (more, not2, three) (step_3 _ _ _ s (ground arith) v)
      | inr not3 ↦ rw (more, not2, not3) (step_4 _ _ _ _ s (ground arith) v)
    ]
  ]
]

pub valid_string_complete : {s : Str} → IsUtf8 s → valid_string s ≡ true
valid_string_complete done = unfold valid_string in refl
valid_string_complete (char cp s h e t) = rw e (valid-encode cp s h (valid_string_complete t))

lacks_zero : (s : Str) → (contains_byte s 0 ≡ false) ↔ All (λ c. c ≢ 0) s
unfolding contains_byte
lacks_zero [] = (λ h. tt, λ h. refl)
lacks_zero (c ∷ s) = (
  λ h. (ground arith, (lacks_zero s).0 (ground arith)),
  λ h. ground (arith, (lacks_zero s).1 h.1, h.0),
)

-- A text filter is accepted exactly if it is well-formed UTF-8 with no NUL byte, the empty filter
-- included, and it is passed on unchanged.
pub event_filter_text_iff :
    (raw text : Str)
    → (event_filter_text raw ≡ ok text) ↔ ((text ≡ raw) × IsUtf8 raw × All (λ c. c ≢ 0) raw)
event_filter_text_iff [] text = unfold event_filter_text in (λ h. (cc, done, tt), λ h. cc)
event_filter_text_iff (c ∷ s) text = (
  λ h. let (v, z, e) = accepted h in (e, valid_string_sound (c ∷ s) v, (lacks_zero (c ∷ s)).0 z),
  λ h. unfold event_filter_text in rw (valid_string_complete h.1, (lacks_zero (c ∷ s)).1 h.2) (cc),
)
  where
    accepted :
        event_filter_text (c ∷ s) ≡ ok text
        → (valid_string (c ∷ s) ≡ true) × (contains_byte (c ∷ s) 0 ≡ false) × (text ≡ c ∷ s)
    accepted h = unfold event_filter_text in ground arith

abbrev pub IsBase32 : ℕ → Type 0
IsBase32 c = (b'A' ≤ c) × (c ≤ b'Z') ⊎ (b'2' ≤ c) × (c ≤ b'7')

All-IsBase32_iff : (s : Str) → (all_true is_base32 s ≡ true) ↔ All IsBase32 s
All-IsBase32_iff [] = (λ h. tt, λ h. refl)
All-IsBase32_iff (c ∷ s) = (
  λ h. (ground arith, (All-IsBase32_iff s).0 (ground arith)),
  λ h. ground (arith, All-IsBase32_iff s),
)

-- A contract ID is accepted exactly if it is 56 bytes, a C followed by letters A to Z and digits
-- 2 to 7.
pub contract_id_iff :
    (id : Str)
    → (contract_id id ≡ ok tt)
      ↔ ((length id ≡ 56) × ((rest : Str) × (id ≡ b'C' ∷ rest) × All IsBase32 rest))
unfolding contract_id
contract_id_iff [] = (λ h. cc, λ h. absurd (omega (arith, h.0)))
contract_id_iff (c ∷ s) = (
  λ h. (ground arith, (s, ground arith, (All-IsBase32_iff s).0 (ground arith))),
  λ h.
      let base : all_true is_base32 s ≡ true =
        (All-IsBase32_iff s).1 (tail_All h.1.0 h.1.1 h.1.2) in
      ground (arith, h.0, h.1.1),
)
  where
    tail_All : (rest : Str) → c ∷ s ≡ b'C' ∷ rest → All IsBase32 rest → All IsBase32 s
    tail_All rest e h = subst (All IsBase32) (cc) h
