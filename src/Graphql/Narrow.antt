-- ===== src/Graphql/Narrow.antt =====
-- indexer/internal/api/graphql.go: the int32 of the arguments and of the results.
use pulsar_app.Base.{
  ℕ, ◌≤◌, ◌<◌, [], some, ℤ, pos, negsuc, wrap, All, ok, ◌≤ℤ◌, ◌≡◌, ◌≢◌, ◌↔◌, inl, inr, refl, sym,
  ap, ◌∙◌, arith,
}
use pulsar_app.Strconv.{format_int}
use pulsar_app.Strconv.Decimal.{IsDigit, value}
use pulsar_app.Strconv.RoundTrip.{format_uint-IsDigit}
use pulsar_app.Validate.{event_limit, ledger_bound}
use pulsar_app.Validate.Accepts.{event_limit_iff, ledger_bound_iff}
use pulsar_app.Graphql.{int32_ptr_string}

-- A number of 32 bits is served as it is exactly when it is below 2 ^ 31.
pub wrap_iff : (n : ℕ) → n < 4294967296 → (wrap 32 (pos n) ≡ pos n) ↔ (n < 2147483648)
wrap_iff n h = (λ e. ground arith, λ k. ground arith)

format_neg : (n : ℕ) → (format_int (negsuc n) ≢ []) × (All IsDigit (format_int (negsuc n)) → ⊥)
unfolding format_int
format_neg n = (λ e. cc, λ ds. omega (arith, ds.0))

pos-inj : (m n : ℕ) → pos m ≡ pos n → m ≡ n
pos-inj m n h = cc

format_pos :
    (n : ℕ)
    → (format_int (pos n) ≢ [])
      × All IsDigit (format_int (pos n))
      × (value (format_int (pos n)) ≡ n)
unfolding format_int
format_pos n = format_uint-IsDigit n

-- A limit argument is accepted exactly if it is from 1 to 500, and it is then the limit.
pub event_limit-int32_ptr_string :
    (n m : ℤ)
    → (event_limit (int32_ptr_string (some n)) ≡ ok m)
      ↔ ((k : ℕ) × (n ≡ pos k) × (m ≡ pos k) × (1 ≤ k) × (k ≤ 500))
unfolding int32_ptr_string
event_limit-int32_ptr_string (pos k) m =
    let (ne, ds, v) = format_pos k in
    let (to, from) = event_limit_iff (format_int (pos k)) m in
    (
      λ h. elim (to h) [
        | inl e ↦ absurd (ne e.0)
        | inr (_, _, low, high, e) ↦ (k, refl, e ∙ ap pos v, omega arith, omega arith)
      ],
      λ (j, e, em, low, high).
          let same = pos-inj k j e in
          from (inr (ne, ds, omega arith, omega arith, em ∙ ap pos (sym same ∙ sym v))),
    )
event_limit-int32_ptr_string (negsuc k) m =
    let (ne, nd) = format_neg k in
    let (to, from) = event_limit_iff (format_int (negsuc k)) m in
    (
      λ h. elim (to h) [ inl e ↦ absurd (ne e.0) | inr (_, ds, _, _, _) ↦ absurd (nd ds) ],
      λ (j, e, _, _, _). absurd cc,
    )

-- A ledger argument that an int32 can hold is accepted exactly if it is not negative, and it is
-- then the bound.
pub ledger_bound-int32_ptr_string :
    (n m : ℤ)
    → n ≤ℤ pos 2147483647
    → (ledger_bound (int32_ptr_string (some n)) ≡ ok m) ↔ ((k : ℕ) × (n ≡ pos k) × (m ≡ pos k))
unfolding int32_ptr_string
ledger_bound-int32_ptr_string (pos k) m fits =
    let (ne, ds, v) = format_pos k in
    let (to, from) = ledger_bound_iff (format_int (pos k)) m in
    (
      λ h. elim (to h) [ inl e ↦ absurd (ne e.0) | inr (_, _, bound, e) ↦ (k, refl, e ∙ ap pos v) ],
      λ (j, e, em).
          let same = pos-inj k j e in
          from (inr (ne, ds, omega arith, em ∙ ap pos (sym same ∙ sym v))),
    )
ledger_bound-int32_ptr_string (negsuc k) m fits =
    let (ne, nd) = format_neg k in
    let (to, from) = ledger_bound_iff (format_int (negsuc k)) m in
    (
      λ h. elim (to h) [ inl e ↦ absurd (ne e.0) | inr (_, ds, _, _) ↦ absurd (nd ds) ],
      λ (j, e, _). absurd cc,
    )
