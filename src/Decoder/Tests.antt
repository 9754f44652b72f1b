-- ===== src/Decoder/Tests.antt =====
-- Examples of indexer/internal/decoder, over a library whose values are all symbols.
use pulsar_app.Base.{
  ◌+◌, ◌*◌, ◌^◌, [], ◌∷◌, refl, none, some, Str, codes, ℤ, negsuc, ◌≡◌, arith, if◌then◌else◌,
  eq_str,
}
use pulsar_app.Strconv.{format_int}
use pulsar_app.Decoder.Value.{marshal, to_valid}
use pulsar_app.Decoder.Unmarshal.RoundTrip.{repaired}
use pulsar_app.Decoder.Xdr.{XdrLib, scv_symbol, scv_other}
use pulsar_app.Decoder.Wide.{
  int128_string, int256_string, to_word, Fits, int128_string_exact, int256_string_exact,
}
use pulsar_app.Decoder.Decode.{decode}
use pulsar_app.Decoder.Decode.Count.{unknowns, decode-unknowns}
use pulsar_app.Decoder.Decode.Shape.{unmarshal-marshal-decode}
use pulsar_app.Decoder.Unmarshal.{unmarshal}

-- A value is a text: a symbol, or of a kind with no variant if it is empty.
abbrev pub symbols : XdrLib
symbols = record {
  ScVal = Str;
  Address = Str;
  type_of = λ v. if eq_str v [] then scv_other else scv_symbol;
  get_b = λ v. none;
  get_u32 = λ v. none;
  get_i32 = λ v. none;
  get_u64 = λ v. none;
  get_i64 = λ v. none;
  get_timepoint = λ v. none;
  get_duration = λ v. none;
  get_u128 = λ v. none;
  get_i128 = λ v. none;
  get_u256 = λ v. none;
  get_i256 = λ v. none;
  get_bytes = λ v. none;
  get_str = λ v. none;
  get_sym = λ v. some v;
  get_address = λ v. none;
  address_string = λ a. none;
  get_vec = λ v. none;
  get_map = λ v. none;
  safe_unmarshal_base64 = λ s. some s;
  marshal_base64 = λ v. some (codes "AAAA");
  depth = λ v. 0;
  vec_depth = λ v xs h. absurd cc;
  map_depth = λ v xs h. absurd cc;
}

decode-unknowns_example :
    (decode symbols (codes "") 4).1 ≡ 4 + unknowns (decode symbols (codes "") 4).0
decode-unknowns_example = decode-unknowns symbols (codes "") 4

unmarshal-marshal-decode_example :
    unmarshal (marshal (decode symbols (b'a' ∷ 0xFF ∷ []) 0).0)
    ≡ some (repaired (decode symbols (b'a' ∷ 0xFF ∷ []) 0).0)
unmarshal-marshal-decode_example =
    unmarshal-marshal-decode symbols (λ v s h k. cc) (b'a' ∷ 0xFF ∷ []) 0

to_valid_test :
    to_valid (b'a' ∷ 0xFF ∷ 0xC3 ∷ 0xA9 ∷ []) ≡ b'a' ∷ 0xEF ∷ 0xBF ∷ 0xBD ∷ 0xC3 ∷ 0xA9 ∷ []
to_valid_test = refl

int128_string_exact_test :
    (n : ℤ) × (int128_string (negsuc 4, 7) ≡ format_int n)
    × (to_word 128 n ≡ to_word 64 (negsuc 4) * 2 ^ 64 + 7)
    × Fits 127 n
int128_string_exact_test = int128_string_exact (negsuc 4) 7 (omega arith) (omega arith)

int256_string_exact_example :
    (n : ℤ) × (int256_string (negsuc 4, 7, 8, 9) ≡ format_int n)
    × (to_word 256 n ≡ to_word 64 (negsuc 4) * 2 ^ 192 + 7 * 2 ^ 128 + 8 * 2 ^ 64 + 9)
    × Fits 255 n
int256_string_exact_example =
    int256_string_exact (negsuc 4) 7 8 9 (omega arith) (omega arith) (omega arith) (omega arith)
