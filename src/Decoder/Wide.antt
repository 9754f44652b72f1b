-- ===== src/Decoder/Wide.antt =====
-- The decimal texts of 128- and 256-bit integers, from their 64-bit parts, and their exactness.
use pulsar_app.Base.{
  ℕ, suc, ◌+◌, ◌-◌, ◌*◌, ◌%◌, ◌^◌, ◌<◌, [], ◌∷◌, List, ◌≡◌, refl, arith, Str, codes, ltb,
  if◌then◌else◌, ℤ, pos, negsuc,
}
use pulsar_app.Strconv.{format_int}

-- `n.Lsh(n, 64)`, then `n.Add(n, limb)`.
pub lsh_add : ℤ → ℕ → ℤ
lsh_add (pos n) limb = pos (n * 2 ^ 64 + limb)
lsh_add (negsuc n) limb =
    let m = suc n * 2 ^ 64 in if ltb limb m then negsuc (m - limb - 1) else pos (limb - m)

unfoldable pub int128_string : ℤ × ℕ → Str
unfolding lsh_add format_int
int128_string (hi, lo) = format_int (lsh_add hi lo)

unfoldable pub uint128_string : ℕ × ℕ → Str
unfolding lsh_add format_int
uint128_string (hi, lo) = format_int (lsh_add (pos hi) lo)

lsh_adds : ℤ → List ℕ → ℤ
lsh_adds n [] = n
lsh_adds n (limb ∷ limbs) = lsh_adds (lsh_add n limb) limbs

unfoldable pub int256_string : ℤ × ℕ × ℕ × ℕ → Str
unfolding lsh_adds lsh_add format_int
int256_string (hi_hi, hi_lo, lo_hi, lo_lo) =
    format_int (lsh_adds hi_hi (hi_lo ∷ lo_hi ∷ lo_lo ∷ []))

unfoldable pub uint256_string : ℕ × ℕ × ℕ × ℕ → Str
unfolding lsh_adds lsh_add format_int
uint256_string (hi_hi, hi_lo, lo_hi, lo_lo) =
    format_int (lsh_adds (pos hi_hi) (hi_lo ∷ lo_hi ∷ lo_lo ∷ []))

minus_one : int128_string (negsuc 0, 2 ^ 64 - 1) ≡ codes "-1"
unfolding int128_string
minus_one = refl

least : int128_string (negsuc (2 ^ 63 - 1), 0) ≡ codes "-170141183460469231731687303715884105728"
unfolding int128_string
least = refl

large :
    uint256_string (1, 0, 0, 0) ≡ codes "6277101735386680763835789423207666416102355444464034512896"
unfolding uint256_string
large = refl

-- The w-bit two's complement pattern of an integer.
abbrev pub to_word : ℕ → ℤ → ℕ
to_word w (pos n) = n % 2 ^ w
to_word w (negsuc n) = 2 ^ w - 1 - n % 2 ^ w

-- The integers of w + 1 bits.
abbrev pub Fits : ℕ → ℤ → Type 0
Fits w (pos n) = n < 2 ^ w
Fits w (negsuc n) = n < 2 ^ w

lsh_add_word :
    (hi : ℤ) (lo : ℕ)
    → Fits 63 hi
    → lo < 2 ^ 64
    → (to_word 128 (lsh_add hi lo) ≡ to_word 64 hi * 2 ^ 64 + lo) × Fits 127 (lsh_add hi lo)
unfolding lsh_add
lsh_add_word (pos n) lo h k = (omega arith, omega arith)
lsh_add_word (negsuc n) lo h k = ground arith

-- The text of an i128 is the decimal print of the integer whose 128-bit two's complement pattern is
-- the two parts side by side, for every int64 high part and uint64 low part.
pub int128_string_exact :
    (hi : ℤ) (lo : ℕ)
    → Fits 63 hi
    → lo < 2 ^ 64
    → (n : ℤ) × (int128_string (hi, lo) ≡ format_int n)
      × (to_word 128 n ≡ to_word 64 hi * 2 ^ 64 + lo)
      × Fits 127 n
unfolding int128_string
int128_string_exact hi lo h k =
    let (e, fits) = lsh_add_word hi lo h k in (lsh_add hi lo, refl, e, fits)

lsh_add_word256 :
    (a : ℤ) (b c d : ℕ)
    → Fits 63 a
    → b < 2 ^ 64
    → c < 2 ^ 64
    → d < 2 ^ 64
    → (to_word 256 (lsh_adds a (b ∷ c ∷ d ∷ []))
        ≡ to_word 64 a * 2 ^ 192 + b * 2 ^ 128 + c * 2 ^ 64 + d)
      × Fits 255 (lsh_adds a (b ∷ c ∷ d ∷ []))
unfolding lsh_adds lsh_add
lsh_add_word256 (pos n) b c d h k l m = (omega arith, omega arith)
lsh_add_word256 (negsuc n) b c d h k l m = ground arith

-- The same of an i256 and its four parts.
pub int256_string_exact :
    (a : ℤ) (b c d : ℕ)
    → Fits 63 a
    → b < 2 ^ 64
    → c < 2 ^ 64
    → d < 2 ^ 64
    → (n : ℤ) × (int256_string (a, b, c, d) ≡ format_int n)
      × (to_word 256 n ≡ to_word 64 a * 2 ^ 192 + b * 2 ^ 128 + c * 2 ^ 64 + d)
      × Fits 255 n
unfolding int256_string
int256_string_exact a b c d h k l m =
    let (e, fits) = lsh_add_word256 a b c d h k l m in (lsh_adds a (b ∷ c ∷ d ∷ []), refl, e, fits)
