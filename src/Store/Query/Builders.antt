-- ===== src/Store/Query/Builders.antt =====
-- The placeholders of a SELECT that is built, and its cursor.
use pulsar_app.Base.{
  ℕ, zero, suc, ◌≤◌, Bool, true, false, ◌&&◌, List, [], ◌∷◌, ◌++◌, some, ◌≡◌, ◌≢◌, refl, ap₂, ◌∙◌,
  arith, Str, leb, if◌then◌else◌, ltb, pos, ltb_ℤ, Result, ok, err, length, length-append, all_true,
  All, All-map, All-append, ◌>>=◌,
}
use pulsar_app.Strconv.{max_i64}
use pulsar_app.Strconv.Decimal.{IsDigit, value, parse_int_digits}
use pulsar_app.Strconv.RoundTrip.{format_uint-IsDigit, parse_int-format_uint}
use pulsar_app.Store.{StoreError, Event}
use pulsar_app.Store.Query.{
  Clause, Arg, number, Builder, add, add_if, Select, cursor_clause, with_cursor, arg_at,
  parse_cursor, format_cursor, cursor_of,
}

pub ltb_ℤ-pos : (m n : ℕ) → ltb_ℤ (pos m) (pos n) ≡ ltb m n
ltb_ℤ-pos m n = ap₂ ltb (omega arith) (omega arith)

pub arg_at-append :
    (n : ℕ) (args more : List Arg) → n ≤ length args → arg_at n (args ++ more) ≡ arg_at n args
arg_at-append zero args more h = refl
arg_at-append (suc n) [] more h = absurd (omega arith)
arg_at-append (suc zero) (a ∷ args) more h = refl
arg_at-append (suc (suc n)) (a ∷ args) more h = arg_at-append (suc n) args more (omega arith)

pub arg_at_last : (args : List Arg) (a : Arg) → arg_at (suc (length args)) (args ++ a ∷ []) ≡ some a
arg_at_last [] a = refl
arg_at_last (b ∷ args) a = arg_at_last args a

pub all_true-append {ℓ} :
    {A : Type ℓ} (p : A → Bool) (xs ys : List A)
    → all_true p (xs ++ ys) ≡ (all_true p xs && all_true p ys)
all_true-append p [] ys = refl
all_true-append p (x ∷ xs) ys = ground (arith, all_true-append p xs ys)

-- Every placeholder of a builder has its argument.
abbrev pub InBounds : Builder → Type 0
InBounds b = All (λ (c : Clause × ℕ). c.1 ≤ length b.args) b.conditions

pub add-InBounds : (c : Clause) (a : Arg) (b : Builder) → InBounds b → InBounds (add c a b)
add-InBounds c a b h =
    All-append _ b.conditions _
      (All-map (λ x le. omega (arith, length-append b.args (a ∷ []))) b.conditions h)
      (omega (arith, length-append b.args (a ∷ [])), tt)

pub add_if-InBounds :
    (t : Bool) (c : Clause) (a : Arg) (b : Builder) → InBounds b → InBounds (add_if t c a b)
add_if-InBounds true c a b h = add-InBounds c a b h
add_if-InBounds false c a b h = h

unfoldable pub passes : Bool → Result StoreError ℕ → Event → Bool
passes ascending (err e) ev = false
passes true (ok id) ev = ltb id ev.id
passes false (ok id) ev = ltb ev.id id

-- What a cursor asks of an event: to lie past it, in the query's direction.
unfoldable pub past : Str → Bool → Event → Bool
unfolding passes
past [] ascending e = true
past (c ∷ s) ascending e = passes ascending (parse_cursor (c ∷ s)) e

-- A cursor made of an id that fits an int64 is read back as that id.
pub parse_cursor-format_cursor : (n : ℕ) → n ≤ max_i64 → parse_cursor (format_cursor n) ≡ ok n
unfolding parse_cursor cursor_of format_cursor
parse_cursor-format_cursor n h = rw (parse_int-format_uint n h)

pub format_cursor-ne-nil : (n : ℕ) → format_cursor n ≢ []
unfolding format_cursor
format_cursor-ne-nil n = (format_uint-IsDigit n).0

pub with_cursor_cons :
    (s : Str) (a : Bool) (b : Builder)
    → s ≢ []
    → with_cursor s a b ≡ (parse_cursor s >>= λ n. ok (add (cursor_clause a) (number (pos n)) b))
unfolding with_cursor
with_cursor_cons [] a b h = absurd (h refl)
with_cursor_cons (c ∷ s) a b h = refl

pub with_cursor-format_cursor :
    (n : ℕ) (a : Bool) (b : Builder)
    → n ≤ max_i64
    → with_cursor (format_cursor n) a b ≡ ok (add (cursor_clause a) (number (pos n)) b)
with_cursor-format_cursor n a b h =
    with_cursor_cons _ a b (format_cursor-ne-nil n) ∙ rw (parse_cursor-format_cursor n h)

pub parse_cursor-digits :
    (s : Str) → s ≢ [] → All IsDigit s → value s ≤ max_i64 → parse_cursor s ≡ ok (value s)
unfolding parse_cursor cursor_of
parse_cursor-digits s ne all bound =
    let fits : leb (value s) max_i64 ≡ true = ground arith in
    rw (parse_int_digits s ne all) (rw fits)

pub past_cons : (s : Str) (a : Bool) (e : Event) → s ≢ [] → past s a e ≡ passes a (parse_cursor s) e
unfolding past
past_cons [] a e h = absurd (h refl)
past_cons (c ∷ s) a e h = refl

pub past-format_cursor :
    (a : Bool) (n : ℕ) (e : Event)
    → n ≤ max_i64
    → past (format_cursor n) a e ≡ (if a then ltb n e.id else ltb e.id n)
unfolding passes
past-format_cursor true n e h =
    past_cons _ true e (format_cursor-ne-nil n) ∙ rw (parse_cursor-format_cursor n h)
past-format_cursor false n e h =
    past_cons _ false e (format_cursor-ne-nil n) ∙ rw (parse_cursor-format_cursor n h)

abbrev pub finished_select : Builder → ℕ → Bool → Select
finished_select b n ascending = record {
  conditions = b.conditions;
  args = b.args ++ number (pos n) ∷ [];
  ascending = ascending;
}
