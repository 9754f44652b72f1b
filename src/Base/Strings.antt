-- ===== src/Base/Strings.antt =====
-- Go strings as lists of bytes, with the functions of package strings that the source calls.
use Prim.Native.Nat.{ℕ, ◌-◌}
use Prim.Native.Char.{code}
use Prim.Native.String.{String}
use mathlib.Core.Path.{◌≡◌, refl}
use mathlib.Core.Logic.{◌↔◌}
use mathlib.Core.Bool.{Bool, true, false, ◌&&◌, ◌||◌}
use mathlib.Core.List.{List, [], ◌∷◌, reverse}
use native.Mathlib.Omega.{arith}
use pulsar_app.Base.Tests.{leb, ltb, ◌==◌, if◌then◌else◌}
use pulsar_app.Base.Lists.{length, take}

abbrev pub Str : Type 0
Str = List ℕ

-- The bytes of a literal; every literal here is ASCII.
abbrev pub codes : String → Str
codes String.[] = []
codes (String.◌∷◌ c s) = code c ∷ codes s

-- `a == b`
abbrev pub eq_str : Str → Str → Bool
eq_str [] [] = true
eq_str [] (y ∷ b) = false
eq_str (x ∷ a) [] = false
eq_str (x ∷ a) (y ∷ b) = x == y && eq_str a b

pub eq_str_iff : (a b : Str) → (eq_str a b ≡ true) ↔ (a ≡ b)
eq_str_iff [] [] = ground arith
eq_str_iff [] (y ∷ b) = ground arith
eq_str_iff (x ∷ a) [] = ground arith
eq_str_iff (x ∷ a) (y ∷ b) = ground (arith, eq_str_iff a b)

pub eq_str_refl : (a : Str) → eq_str a a ≡ true
eq_str_refl a = (eq_str_iff a a).1 refl

-- `a < b`: by bytes.
abbrev pub lt_str : Str → Str → Bool
lt_str a [] = false
lt_str [] (y ∷ b) = true
lt_str (x ∷ a) (y ∷ b) = if ltb x y then true else if x == y then lt_str a b else false

-- strings.HasPrefix
unfoldable pub has_prefix : Str → Str → Bool
has_prefix s [] = true
has_prefix [] (p ∷ ps) = false
has_prefix (c ∷ s) (p ∷ ps) = c == p && has_prefix s ps

-- strings.HasSuffix
unfoldable pub has_suffix : Str → Str → Bool
unfolding has_prefix
has_suffix s p = has_prefix (reverse s) (reverse p)

-- strings.TrimSuffix
unfoldable pub trim_suffix : Str → Str → Str
unfolding has_suffix
trim_suffix s p = if has_suffix s p then take (length s - length p) s else s

-- strings.Contains
unfoldable pub contains : Str → Str → Bool
unfolding has_prefix
contains [] p = has_prefix [] p
contains (c ∷ s) p = has_prefix (c ∷ s) p || contains s p

-- strings.IndexByte(s, c) >= 0
unfoldable pub contains_byte : Str → ℕ → Bool
contains_byte [] b = false
contains_byte (c ∷ s) b = c == b || contains_byte s b

-- strings.Split at a separator of one byte: the part being read, and those after it.
split_from : ℕ → Str → Str × List Str
split_from sep [] = ([], [])
split_from sep (c ∷ s) =
    let (cur, rest) = split_from sep s in if c == sep then ([], cur ∷ rest) else (c ∷ cur, rest)

unfoldable pub split : Str → ℕ → List Str
unfolding split_from
split s sep = let (cur, rest) = split_from sep s in cur ∷ rest

-- strings.Cut at a separator of one byte: before, after, found.
unfoldable pub cut : Str → ℕ → Str × Str × Bool
cut [] sep = ([], [], false)
cut (c ∷ s) sep =
    let (before, after, found) = cut s sep in
    if c == sep then ([], s, true) else (c ∷ before, after, found)

-- The ASCII white space of Go's unicode.IsSpace.
abbrev is_space1 : ℕ → Bool
is_space1 c = leb 9 c && leb c 13 || c == 32

-- U+0085 and U+00A0.
abbrev is_space2 : ℕ → ℕ → Bool
is_space2 a b = a == 0xC2 && (b == 0x85 || b == 0xA0)

-- U+1680, U+2000 to U+200A, U+2028, U+2029, U+202F, U+205F and U+3000.
abbrev is_space3 : ℕ → ℕ → ℕ → Bool
is_space3 a b c =
    a == 0xE1 && b == 0x9A && c == 0x80
    || a == 0xE2
      && (b == 0x80 && (leb 0x80 c && leb c 0x8A || c == 0xA8 || c == 0xA9 || c == 0xAF)
          || b == 0x81 && c == 0x9F)
    || a == 0xE3 && b == 0x80 && c == 0x80

trim_left : Str → Str
trim_left [] = []
trim_left (a ∷ []) = if is_space1 a then [] else a ∷ []
trim_left (a ∷ b ∷ []) =
    let skip1 = trim_left (b ∷ []) in
    if is_space1 a then skip1 else if is_space2 a b then [] else a ∷ b ∷ []
trim_left (a ∷ b ∷ c ∷ s) =
    let skip1 = trim_left (b ∷ c ∷ s) in
    let skip2 = trim_left (c ∷ s) in
    let skip3 = trim_left s in
    if is_space1 a
    then skip1
    else if is_space2 a b
    then skip2
    else if is_space3 a b c
    then skip3
    else a ∷ b ∷ c ∷ s

-- The same from the other end, over the reversed text.
trim_right_rev : Str → Str
trim_right_rev [] = []
trim_right_rev (a ∷ []) = if is_space1 a then [] else a ∷ []
trim_right_rev (a ∷ b ∷ []) =
    let skip1 = trim_right_rev (b ∷ []) in
    if is_space1 a then skip1 else if is_space2 b a then [] else a ∷ b ∷ []
trim_right_rev (a ∷ b ∷ c ∷ s) =
    let skip1 = trim_right_rev (b ∷ c ∷ s) in
    let skip2 = trim_right_rev (c ∷ s) in
    let skip3 = trim_right_rev s in
    if is_space1 a
    then skip1
    else if is_space2 b a
    then skip2
    else if is_space3 c b a
    then skip3
    else a ∷ b ∷ c ∷ s

-- strings.TrimSpace
unfoldable pub trim_space : Str → Str
unfolding trim_left trim_right_rev
trim_space s = reverse (trim_right_rev (reverse (trim_left s)))

trim_space_test : trim_space (codes " \t a b\n") ≡ codes "a b"
unfolding trim_space
trim_space_test = refl

split_test : split (codes "a,,b") b',' ≡ codes "a" ∷ [] ∷ codes "b" ∷ []
unfolding split
split_test = refl
