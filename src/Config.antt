-- ===== src/Config.antt =====
-- indexer/internal/config/config.go. The environment is a function, and url.Parse a parameter that
-- gives the two parts of a URL that are read. An error names its variable first.
mod Tests
pub mod Load
pub mod Readers
pub mod Stages
pub mod Loaded
use pulsar_app.Base.{
  ℕ, suc, ◌*◌, ◌-◌, Bool, true, false, ◌&&◌, not, List, [], ◌∷◌, Option, none, some, Str, codes,
  eq_str, split, trim_space, if◌then◌else◌, ℤ, pos, negsuc, ltb_ℤ, wrap, Result, ok, err, ◌>>=◌,
  ◌>>◌, fail_if, map_err,
}
use pulsar_app.Strconv.{parse_int}
use pulsar_app.Validate.{Sentinel, contract_id}

abbrev pub max_batch_size : ℕ
max_batch_size = 10000

abbrev pub min_admin_token_len : ℕ
min_admin_token_len = 16

-- `Config`; a time.Duration is its nanoseconds.
pub record Config : Type 0 where
  pub listen_addr : Str
  pub log_level : Str
  pub log_format : Str
  pub db_driver : Str
  pub db_url : Str
  pub db_pool_max : ℤ
  pub db_pool_min : ℤ
  pub db_allow_insecure_tls : Bool
  pub rpc_url : Str
  pub network : Str
  pub poll_interval : ℤ
  pub batch_size : ℤ
  pub bootstrap_contracts : List Str
  pub admin_token : Str
  pub write_rate_per_sec : ℤ
  pub write_rate_burst : ℤ
  pub read_timeout : ℤ

abbrev pub Getenv : Type 0
Getenv = Str → Str

pub data ConfigError : Type 0 where
  not_set bad_url no_host : Str → ConfigError
  not_one_of : Str → Str → List Str → ConfigError
  bad_scheme not_whole not_boolean : Str → Str → ConfigError
  not_positive : Str → ℤ → ConfigError
  over_batch_size : ℤ → ConfigError
  short_token : ℕ → ConfigError
  empty_entry : Str → ℕ → ConfigError
  bad_entry : Str → ℕ → Str → Sentinel → ConfigError

abbrev pub valid_log_levels : List Str
valid_log_levels = codes "debug" ∷ codes "info" ∷ codes "warn" ∷ codes "error" ∷ []

abbrev pub valid_log_formats : List Str
valid_log_formats = codes "json" ∷ codes "text" ∷ []

abbrev pub valid_db_drivers : List Str
valid_db_drivers = codes "sqlite" ∷ codes "postgres" ∷ []

abbrev pub valid_networks : List Str
valid_networks = codes "testnet" ∷ codes "futurenet" ∷ codes "mainnet" ∷ codes "local" ∷ []

nonempty_or : Str → Str → Str
nonempty_or [] fallback = fallback
nonempty_or (c ∷ s) fallback = c ∷ s

-- `withDefault`
unfoldable pub with_default : Getenv → Str → Str → Str
unfolding trim_space nonempty_or
with_default getenv name fallback = nonempty_or (trim_space (getenv name)) fallback

required_value : Str → Str → Result ConfigError Str
required_value name [] = err (not_set name)
required_value name (c ∷ s) = ok (c ∷ s)

-- `required`
unfoldable pub required : Getenv → Str → Result ConfigError Str
unfolding trim_space required_value
required getenv name = required_value name (trim_space (getenv name))

-- The loop of `oneOf`, over what is left of the list `all`.
one_of_from : Str → Str → List Str → List Str → Result ConfigError (Unit {0})
one_of_from name value all [] = err (not_one_of name value all)
one_of_from name value all (a ∷ allowed) =
    let rest = one_of_from name value all allowed in if eq_str value a then ok tt else rest

-- `oneOf`
unfoldable pub one_of : Str → Str → List Str → Result ConfigError (Unit {0})
unfolding one_of_from
one_of name value allowed = one_of_from name value allowed allowed

pub record Url : Type 0 where
  pub scheme : Str
  pub host : Str

check_url : Str → Option Url → Result ConfigError (Unit {0})
check_url name none = err (bad_url name)
check_url name (some u) = do
  fail_if (not (eq_str u.scheme (codes "http")) && not (eq_str u.scheme (codes "https")))
      (bad_scheme name u.scheme)
  fail_if (eq_str u.host []) (no_host name)

positive : Str → Str → Option ℤ → Result ConfigError ℤ
positive name raw none = err (not_whole name raw)
positive name raw (some n) = do fail_if (not (ltb_ℤ (pos 0) n)) (not_positive name n); ok n

positive_text : Str → Str → ℕ → Result ConfigError ℤ
unfolding positive parse_int
positive_text name [] fallback = ok (pos fallback)
positive_text name (c ∷ s) fallback = positive name (c ∷ s) (parse_int (c ∷ s))

-- `positiveInt`
unfoldable pub positive_int : Getenv → Str → ℕ → Result ConfigError ℤ
unfolding trim_space positive_text
positive_int getenv name fallback = positive_text name (trim_space (getenv name)) fallback

-- `optionalPositiveInt`
unfoldable pub optional_positive_int : Getenv → Str → Result ConfigError ℤ
unfolding trim_space positive_int
optional_positive_int getenv name =
    if eq_str (trim_space (getenv name)) [] then ok (pos 0) else positive_int getenv name 0

-- strconv.ParseBool
unfoldable pub parse_bool : Str → Option Bool
parse_bool s =
    if is_in s (codes "1" ∷ codes "t" ∷ codes "T" ∷ codes "TRUE" ∷ codes "true" ∷ codes "True" ∷ [])
    then some true
    else if is_in s
        (codes "0" ∷ codes "f" ∷ codes "F" ∷ codes "FALSE" ∷ codes "false" ∷ codes "False" ∷ [])
    then some false
    else none
  where
    is_in : Str → List Str → Bool
    is_in s [] = false
    is_in s (t ∷ ts) = if eq_str s t then true else is_in s ts

bool_or : Str → Str → Option Bool → Result ConfigError Bool
bool_or name raw none = err (not_boolean name raw)
bool_or name raw (some b) = ok b

bool_text : Str → Str → Bool → Result ConfigError Bool
unfolding bool_or parse_bool
bool_text name [] fallback = ok fallback
bool_text name (c ∷ s) fallback = bool_or name (c ∷ s) (parse_bool (c ∷ s))

-- `boolean`
unfoldable pub boolean : Getenv → Str → Bool → Result ConfigError Bool
unfolding trim_space bool_text
boolean getenv name fallback = bool_text name (trim_space (getenv name)) fallback

-- One entry of the list, trimmed, at position `i` from 1.
check_entry : Str → ℕ → Str → Result ConfigError (Unit {0})
unfolding contract_id
check_entry name i id = do
  fail_if (eq_str id []) (empty_entry name i)
  map_err (bad_entry name i id) (contract_id id)

entries : Str → ℕ → List Str → Result ConfigError (List Str)
unfolding check_entry trim_space
entries name i [] = ok []
entries name i (p ∷ parts) = do
  check_entry name i (trim_space p)
  ids ← entries name (suc i) parts
  ok (trim_space p ∷ ids)

list_text : Str → Str → Result ConfigError (List Str)
unfolding entries split
list_text name [] = ok []
list_text name (c ∷ s) = entries name 1 (split (c ∷ s) b',')

-- `contractList`
unfoldable pub contract_list : Getenv → Str → Result ConfigError (List Str)
unfolding trim_space list_text
contract_list getenv name = list_text name (trim_space (getenv name))

times_second : ℤ → ℤ
times_second (pos n) = pos (n * 1000000000)
times_second (negsuc n) = negsuc (suc n * 1000000000 - 1)

-- `time.Duration(n) * time.Second`, in the 64 bits of a Duration.
unfoldable pub seconds : ℤ → ℤ
unfolding times_second
seconds n = wrap 64 (times_second n)
