-- ===== src/Strconv/RoundTrip.antt =====
-- Numbers are read back from their decimal print.
use pulsar_app.Base.{
  ℕ, zero, suc, ◌+◌, ◌/◌, ◌%◌, ◌≤◌, false, [], ◌∷◌, some, ◌≡◌, ◌≢◌, arith, Str, All, inl, inr,
  Bool-cases, ◌==◌, pos, ap, ◌∙◌, ℤ, negsuc,
}
use pulsar_app.Strconv.{
  max_u64, max_i64, scan, parse_uint, int_of, parse_int, digits, format_uint, format_int,
}
use pulsar_app.Strconv.Decimal.{IsDigit, value, value_from, parse_uint_complete, parse_int_digits}

scan_last : (n : ℕ) (out : Str) → n ≤ max_u64 → scan ((b'0' + n % 10) ∷ out) (n / 10) ≡ scan out n
unfolding scan
scan_last n out h = ground arith

value_last : (n : ℕ) (out : Str) → value_from (n / 10) ((b'0' + n % 10) ∷ out) ≡ value_from n out
value_last n out = ground arith

-- Reading what the loop printed before `out` gives `n`.
value-digits :
    (fuel n : ℕ) (out : Str) → n ≤ fuel → value_from 0 (digits fuel n out) ≡ value_from n out
unfolding digits
value-digits zero n out h = ground arith
value-digits (suc fuel) n out h =
    ground (arith, value-digits fuel (n / 10) ((b'0' + n % 10) ∷ out), value_last n out)

digits-IsDigit : (fuel n : ℕ) (out : Str) → All IsDigit out → All IsDigit (digits fuel n out)
unfolding digits
digits-IsDigit zero n out h = h
digits-IsDigit (suc fuel) n out h = elim (Bool-cases (n == 0)) [
  | inl e ↦ rw e h
  | inr e ↦ rw e (digits-IsDigit fuel (n / 10) _ ((omega arith, omega arith), h))
]

digits-ne-nil : (fuel n : ℕ) (out : Str) → out ≢ [] → digits fuel n out ≢ []
unfolding digits
digits-ne-nil zero n out h = h
digits-ne-nil (suc fuel) n out h = elim (Bool-cases (n == 0)) [
  | inl e ↦ rw e h
  | inr e ↦ rw e (digits-ne-nil fuel (n / 10) _ cc)
]

-- The print of a number is a non-empty run of digits that spells it.
pub format_uint-IsDigit :
    (n : ℕ) → (format_uint n ≢ []) × All IsDigit (format_uint n) × (value (format_uint n) ≡ n)
unfolding format_uint
format_uint-IsDigit n = elim (Bool-cases (n == 0)) [
  | inl e ↦ rw e (cc, ((omega arith, omega arith), tt), ground arith)
  | inr e ↦ rw e (nonzero-ne-nil n e, digits-IsDigit n n [] tt, value-digits n n [] (omega arith))
]
  where
    nonzero-ne-nil : (n : ℕ) → (n == 0) ≡ false → digits n n [] ≢ []
    nonzero-ne-nil zero e = cc
    nonzero-ne-nil (suc m) e =
        unfold digits in rw e (digits-ne-nil m (suc m / 10) ((b'0' + suc m % 10) ∷ []) cc)

parse_uint-format_uint : (n : ℕ) → n ≤ max_u64 → parse_uint (format_uint n) ≡ some n
parse_uint-format_uint n h =
    let (ne, ds, v) = format_uint-IsDigit n in
    parse_uint_complete (format_uint n) ne ds (rw v h) ∙ ap some v

-- An identifier or a cursor is read back from its decimal print.
pub parse_int-format_uint : (n : ℕ) → n ≤ max_i64 → parse_int (format_uint n) ≡ some (pos n)
parse_int-format_uint n h =
    let (ne, ds, v) = format_uint-IsDigit n in
    parse_int_digits (format_uint n) ne ds ∙ rw v (ground arith)

abbrev pub InInt64 : ℤ → Type 0
InInt64 (pos n) = n ≤ max_i64
InInt64 (negsuc n) = n ≤ max_i64

-- Every int64 is read back from its decimal print.
pub parse_int-format_int : (i : ℤ) → InInt64 i → parse_int (format_int i) ≡ some i
unfolding format_int
parse_int-format_int (pos n) h = parse_int-format_uint n h
parse_int-format_int (negsuc n) h =
    unfold parse_int int_of in rw (parse_uint-format_uint (suc n) (omega arith)) (ground arith)
