-- ===== src/Validate/Accepts.antt =====
-- What the validators of numbers accept, stated by the digits and the value that they spell.
use pulsar_app.Base.{
  ◌≤◌, true, ◌&&◌, [], ◌∷◌, ◌≡◌, ◌≢◌, ◌↔◌, ◌⊎◌, inl, inr, refl, arith, Str, leb, All, Bool-cases,
  all_true, ℤ, pos, ok, err, if◌then◌else◌, Result, ◌<ℤ◌,
}
use pulsar_app.Strconv.{is_digit, max_i64}
use pulsar_app.Strconv.Decimal.{IsDigit, value, parse_int_digits}
use pulsar_app.Validate.{
  Sentinel, err_limit, err_cursor, err_ledger_bound, err_event_id, digits_pattern, event_limit,
  event_cursor, ledger_bound, event_id, err_ledger_range, ledger_range,
}

all_true-IsDigit : (s : Str) → (all_true is_digit s ≡ true) ↔ All IsDigit s
all_true-IsDigit [] = (λ _. tt, λ _. refl)
all_true-IsDigit (c ∷ s) =
    (λ h. ground (arith, all_true-IsDigit s), λ h. ground (arith, all_true-IsDigit s, h.0, h.1))

pub digits_pattern_iff : (s : Str) → (digits_pattern s ≡ true) ↔ ((s ≢ []) × All IsDigit s)
digits_pattern_iff [] = (λ h. cc, λ h. absurd (h.0 refl))
digits_pattern_iff (c ∷ s) =
    (λ h. (cc, (all_true-IsDigit (c ∷ s)).0 h), λ h. (all_true-IsDigit (c ∷ s)).1 h.1)

-- The common part of the validators: the text spells an int64 in digits, or it is refused.
abbrev pub number_or : Sentinel → Str → Result Sentinel ℤ
number_or e s = if digits_pattern s && leb (value s) max_i64 then ok (pos (value s)) else err e

pub event_id-eq : (s : Str) → event_id s ≡ number_or err_event_id s
unfolding event_id
event_id-eq s = elim (Bool-cases (digits_pattern s)) [
  | inl d ↦
      let (ne, ds) = (digits_pattern_iff s).0 d in rw (d, parse_int_digits s ne ds) (ground arith)
  | inr d ↦ rw d
]

pub ledger_bound-eq : (s : Str) → s ≢ [] → ledger_bound s ≡ number_or err_ledger_bound s
ledger_bound-eq [] ne = absurd (ne refl)
ledger_bound-eq (c ∷ s) ne = elim (Bool-cases (digits_pattern (c ∷ s))) [
  | inl d ↦
      let (_, ds) = (digits_pattern_iff (c ∷ s)).0 d in
      unfold ledger_bound in rw (d, parse_int_digits (c ∷ s) ne ds) (ground arith)
  | inr d ↦ unfold ledger_bound in rw d
]

pub event_cursor-eq :
    (s : Str)
    → s ≢ []
    → event_cursor s ≡ (if digits_pattern s && leb (value s) max_i64 then ok s else err err_cursor)
event_cursor-eq [] ne = absurd (ne refl)
event_cursor-eq (c ∷ s) ne = elim (Bool-cases (digits_pattern (c ∷ s))) [
  | inl d ↦
      let (_, ds) = (digits_pattern_iff (c ∷ s)).0 d in
      unfold event_cursor in rw (d, parse_int_digits (c ∷ s) ne ds) (ground arith)
  | inr d ↦ unfold event_cursor in rw d
]

pub event_limit-eq :
    (s : Str)
    → s ≢ []
    → event_limit s ≡ (
        if digits_pattern s && (leb 1 (value s) && leb (value s) 500)
        then ok (pos (value s))
        else err err_limit)
event_limit-eq [] ne = absurd (ne refl)
event_limit-eq (c ∷ s) ne = elim (Bool-cases (digits_pattern (c ∷ s))) [
  | inl d ↦
      let (_, ds) = (digits_pattern_iff (c ∷ s)).0 d in
      unfold event_limit in rw (d, parse_int_digits (c ∷ s) ne ds) (ground arith)
  | inr d ↦ unfold event_limit in rw d
]

-- The limit parameter is accepted exactly if it is empty, and is then 50, or if it is decimal
-- digits that spell a number from 1 to 500, which is the limit.
pub event_limit_iff :
    (raw : Str) (n : ℤ)
    → (event_limit raw ≡ ok n) ↔ (
        (raw ≡ []) × (n ≡ pos 50)
        ⊎ (raw ≢ [])
          × All IsDigit raw
          × (1 ≤ value raw)
          × (value raw ≤ 500)
          × (n ≡ pos (value raw)))
event_limit_iff [] n = (
  λ h. inl (refl, unfold event_limit in cc),
  elim [ inl h ↦ unfold event_limit in cc | inr h ↦ absurd (h.0 refl) ],
)
event_limit_iff (c ∷ s) n = rw (event_limit-eq (c ∷ s) cc) (
  λ h. inr (ground (arith, digits_pattern_iff (c ∷ s))),
  elim [ inl h ↦ cc | inr h ↦ ground (arith, digits_pattern_iff (c ∷ s)) ],
)

-- An event id is accepted exactly if it is a non-empty run of decimal digits whose value fits an
-- int64, and it is then that value.
pub event_id_iff :
    (raw : Str) (n : ℤ)
    → (event_id raw ≡ ok n)
      ↔ ((raw ≢ []) × All IsDigit raw × (value raw ≤ max_i64) × (n ≡ pos (value raw)))
event_id_iff raw n =
    rw event_id-eq
      (λ h. ground (arith, digits_pattern_iff raw), λ h. ground (arith, digits_pattern_iff raw))

-- A ledger bound is accepted exactly if it is empty, and is then 0, or if it is decimal digits
-- whose value fits an int64, and is then that value.
pub ledger_bound_iff :
    (raw : Str) (n : ℤ)
    → (ledger_bound raw ≡ ok n) ↔ (
        (raw ≡ []) × (n ≡ pos 0)
        ⊎ (raw ≢ []) × All IsDigit raw × (value raw ≤ max_i64) × (n ≡ pos (value raw)))
ledger_bound_iff [] n = (
  λ h. inl (refl, unfold ledger_bound in cc),
  elim [ inl h ↦ unfold ledger_bound in cc | inr h ↦ absurd (h.0 refl) ],
)
ledger_bound_iff (c ∷ s) n = rw (ledger_bound-eq (c ∷ s) cc) (
  λ h. inr (ground (arith, digits_pattern_iff (c ∷ s))),
  elim [ inl h ↦ cc | inr h ↦ ground (arith, digits_pattern_iff (c ∷ s)) ],
)

-- A cursor is accepted exactly if it is empty or decimal digits whose value fits an int64, and it
-- is passed on unchanged.
pub event_cursor_iff :
    (raw cursor : Str)
    → (event_cursor raw ≡ ok cursor)
      ↔ ((cursor ≡ raw) × ((raw ≡ []) ⊎ (raw ≢ []) × All IsDigit raw × (value raw ≤ max_i64)))
event_cursor_iff [] cursor =
    (λ h. (unfold event_cursor in cc, inl refl), λ h. unfold event_cursor in cc)
event_cursor_iff (c ∷ s) cursor = rw (event_cursor-eq (c ∷ s) cc) (
  λ h. ground (arith, digits_pattern_iff (c ∷ s)),
  λ h. ground (arith, digits_pattern_iff (c ∷ s)),
)

-- The window check fails exactly if both bounds are set and the lower is above the upper.
pub ledger_range_iff :
    (from to : ℤ)
    → (ledger_range from to ≡ err err_ledger_range)
      ↔ ((pos 0 <ℤ from) × (pos 0 <ℤ to) × (to <ℤ from))
unfolding ledger_range
ledger_range_iff from to = (λ h. ground arith, λ h. ground arith)
