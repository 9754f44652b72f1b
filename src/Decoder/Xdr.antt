-- ===== src/Decoder/Xdr.antt =====
-- What the decoder uses of the XDR library (github.com/stellar/go-stellar-sdk/xdr): the type of
-- parsed values with its accessors, and the base64 codec.
use pulsar_app.Base.{ℕ, ◌<◌, Bool, List, Option, some, ◌≡◌, Str, All, ℤ}

-- The values of `xdr.ScValType` that the decoder names, and all others.
pub data ScValType : Type 0 where
  scv_bool scv_void scv_u32 scv_i32 scv_u64 scv_i64 scv_timepoint scv_duration : ScValType
  scv_u128 scv_i128 scv_u256 scv_i256 scv_bytes scv_string scv_symbol : ScValType
  scv_address scv_vec scv_map scv_other : ScValType

-- An accessor `GetX() (x, ok)` is a function into `Option`. `GetVec` and `GetMap` give a pointer,
-- which may be nil. A parsed value is a finite tree: `depth` and the two laws say so.
pub record XdrLib : Type 1 where
  pub ScVal : Type 0
  pub Address : Type 0
  pub type_of : ScVal → ScValType
  pub get_b : ScVal → Option Bool
  pub get_u32 : ScVal → Option ℕ
  pub get_i32 : ScVal → Option ℤ
  pub get_u64 : ScVal → Option ℕ
  pub get_i64 : ScVal → Option ℤ
  pub get_timepoint : ScVal → Option ℕ
  pub get_duration : ScVal → Option ℕ
  pub get_u128 : ScVal → Option (ℕ × ℕ)
  pub get_i128 : ScVal → Option (ℤ × ℕ)
  pub get_u256 : ScVal → Option (ℕ × ℕ × ℕ × ℕ)
  pub get_i256 : ScVal → Option (ℤ × ℕ × ℕ × ℕ)
  pub get_bytes : ScVal → Option Str
  pub get_str : ScVal → Option Str
  pub get_sym : ScVal → Option Str
  pub get_address : ScVal → Option Address
  pub address_string : Address → Option Str
  pub get_vec : ScVal → Option (Option (List ScVal))
  pub get_map : ScVal → Option (Option (List (ScVal × ScVal)))
  pub safe_unmarshal_base64 : Str → Option ScVal
  pub marshal_base64 : ScVal → Option Str
  pub depth : ScVal → ℕ
  pub vec_depth :
      (v : ScVal) (xs : List ScVal) → get_vec v ≡ some (some xs) → All (λ x. depth x < depth v) xs
  pub map_depth :
      (v : ScVal) (xs : List (ScVal × ScVal))
      → get_map v ≡ some (some xs)
      → All (λ e. (depth e.0 < depth v) × (depth e.1 < depth v)) xs
