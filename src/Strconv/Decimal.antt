-- ===== src/Strconv/Decimal.antt =====
-- What the parsers accept, and the value that they read.
use mathlib.Core.List.{foldl}
use pulsar_app.Base.{
  ℕ, ◌+◌, ◌-◌, ◌*◌, ◌≤◌, [], ◌∷◌, none, some, ◌≡◌, ◌≢◌, refl, sym, ◌∙◌, arith, Str, All, pos, false,
  inl, inr, leb, leb→le, if◌then◌else◌, Bool-cases, Option-cases,
}
use pulsar_app.Strconv.{max_u64, max_i64, scan, parse_uint, int_of, parse_int}

abbrev pub IsDigit : ℕ → Type 0
IsDigit c = (b'0' ≤ c) × (c ≤ b'9')

-- The number that digits spell behind `n`, with no bound.
abbrev pub value_from : ℕ → Str → ℕ
value_from = foldl (λ n c. n * 10 + (c - b'0'))

abbrev pub value : Str → ℕ
value = value_from 0

-- Text of digits that spells an int64.
abbrev pub IsNumber : Str → Type 0
IsNumber s = (s ≢ []) × All IsDigit s × (value s ≤ max_i64)

scan_sound :
    (s : Str) (n read : ℕ)
    → n ≤ max_u64
    → scan s n ≡ some read
    → All IsDigit s × (read ≡ value_from n s) × (read ≤ max_u64)
unfolding scan
scan_sound [] n read bound h = ground arith
scan_sound (c ∷ s) n read bound h = ground (arith, scan_sound s (n * 10 + (c - b'0')) read)

le-value_from : (s : Str) (n : ℕ) → n ≤ value_from n s
le-value_from [] n = omega arith
le-value_from (c ∷ s) n = omega (arith, le-value_from s (n * 10 + (c - b'0')))

scan_complete :
    (s : Str) (n : ℕ) → All IsDigit s → value_from n s ≤ max_u64 → scan s n ≡ some (value_from n s)
unfolding scan
scan_complete [] n _ _ = refl
scan_complete (c ∷ s) n (hc, rest) bound =
    let m = n * 10 + (c - b'0') in ground (arith, scan_complete s m rest bound, le-value_from s m)

parse_uint_sound :
    (s : Str) (r : ℕ)
    → parse_uint s ≡ some r
    → (s ≢ []) × All IsDigit s × (r ≡ value s) × (r ≤ max_u64)
unfolding parse_uint
parse_uint_sound [] r h = cc
parse_uint_sound (c ∷ s) r h =
    let (all, e, bound) = scan_sound (c ∷ s) 0 r (omega arith) h in (cc, all, e, bound)

pub parse_uint_complete :
    (s : Str) → s ≢ [] → All IsDigit s → value s ≤ max_u64 → parse_uint s ≡ some (value s)
unfolding parse_uint
parse_uint_complete [] some_digit all bound = absurd (some_digit refl)
parse_uint_complete (c ∷ s) some_digit all bound = scan_complete (c ∷ s) 0 all bound

int_of_digits :
    (s : Str)
    → s ≢ []
    → All IsDigit s
    → int_of false (parse_uint s) ≡ (if leb (value s) max_i64 then some (pos (value s)) else none)
unfolding int_of
int_of_digits s ne ds = elim (Option-cases (parse_uint s)) [
  | inl e ↦ elim (Bool-cases (leb (value s) max_i64)) [
    | inl fits ↦
        absurd (none≢some (sym e ∙ parse_uint_complete s ne ds (omega (arith, leb→le _ _ fits))))
    | inr big ↦ rw (e, big)
  ]
  | inr (n, e) ↦ rw e (ground (arith, parse_uint_sound s n e))
]
  where
    none≢some : {n : ℕ} → none ≡ some n → ⊥
    none≢some h = cc

-- Text of digits alone is read exactly if it spells an int64.
pub parse_int_digits :
    (s : Str)
    → s ≢ []
    → All IsDigit s
    → parse_int s ≡ (if leb (value s) max_i64 then some (pos (value s)) else none)
unfolding parse_int
parse_int_digits [] ne ds = absurd (ne refl)
parse_int_digits (c ∷ s) ne ds = ground (arith, int_of_digits (c ∷ s) ne ds, ds.0)
