-- ===== src/Strconv.antt =====
-- The calls of package strconv that the indexer makes, base 10: ParseInt(s, 10, 64) and Atoi,
-- FormatInt and FormatUint. An error is `none`: the source never tells the errors apart.
pub mod Decimal
pub mod RoundTrip
use pulsar_app.Base.{
  ℕ, zero, suc, ◌+◌, ◌-◌, ◌*◌, ◌/◌, ◌%◌, ◌^◌, Bool, ◌&&◌, [], ◌∷◌, Option, none, some, ◌≡◌, refl,
  Str, codes, ltb, leb, ◌==◌, if◌then◌else◌, ℤ, pos, negsuc, neg_ℕ,
}

abbrev pub max_u64 : ℕ
max_u64 = 2 ^ 64 - 1

abbrev pub max_i64 : ℕ
max_i64 = 2 ^ 63 - 1

abbrev pub is_digit : ℕ → Bool
is_digit c = leb b'0' c && leb c b'9'

-- The loop of ParseUint: it stops at a byte that is no digit, and where the value passes a uint64.
pub scan : Str → ℕ → Option ℕ
scan [] n = some n
scan (c ∷ s) n =
    let rest = scan s (n * 10 + (c - b'0')) in
    if is_digit c then (if ltb max_u64 (n * 10 + (c - b'0')) then none else rest) else none

pub parse_uint : Str → Option ℕ
unfolding scan
parse_uint [] = none
parse_uint (c ∷ s) = scan (c ∷ s) 0

-- What ParseInt makes of the magnitude, after a sign or none.
pub int_of : Bool → Option ℕ → Option ℤ
int_of negative none = none
int_of negative (some n) =
    if negative
    then (if ltb (2 ^ 63) n then none else some (neg_ℕ n))
    else (if ltb max_i64 n then none else some (pos n))

-- strconv.ParseInt(s, 10, 64), and strconv.Atoi where int has 64 bits.
unfoldable pub parse_int : Str → Option ℤ
unfolding parse_uint int_of
parse_int [] = none
parse_int (c ∷ s) =
    if c == b'+'
    then int_of Bool.false (parse_uint s)
    else if c == b'-'
    then int_of Bool.true (parse_uint s)
    else int_of Bool.false (parse_uint (c ∷ s))

-- The loop of FormatUint; `n` rounds are more than enough, since each divides by ten.
pub digits : ℕ → ℕ → Str → Str
digits zero n out = out
digits (suc fuel) n out =
    let rest = digits fuel (n / 10) ((b'0' + n % 10) ∷ out) in if n == 0 then out else rest

-- strconv.FormatUint(n, 10)
unfoldable pub format_uint : ℕ → Str
unfolding digits
format_uint n = if n == 0 then b'0' ∷ [] else digits n n []

-- strconv.FormatInt(i, 10)
unfoldable pub format_int : ℤ → Str
unfolding format_uint
format_int (pos n) = format_uint n
format_int (negsuc n) = b'-' ∷ format_uint (suc n)

parse_int_tests :
    (parse_int (codes "-12") ≡ some (negsuc 11))
    × (parse_int (codes "9223372036854775808") ≡ none)
    × (parse_int (codes "-9223372036854775808") ≡ some (negsuc 9223372036854775807))
    × (parse_int (codes "1x") ≡ none)
unfolding parse_int
parse_int_tests = (refl, refl, refl, refl)

format_int_test : format_int (negsuc 9223372036854775807) ≡ codes "-9223372036854775808"
unfolding format_int
format_int_test = refl
