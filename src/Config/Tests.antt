-- ===== src/Config/Tests.antt =====
-- Examples of indexer/internal/config: a small environment, and one whose read timeout wraps.
use pulsar_app.Base.{
  Bool, List, [], ◌∷◌, Option, some, Str, codes, eq_str, if◌then◌else◌, pos, negsuc, ok, ◌≡◌, ◌<ℤ◌,
  refl, arith, trim_space, split,
}
use pulsar_app.Strconv.{parse_int}
use pulsar_app.Validate.{contract_id}
use pulsar_app.Config.{
  Config, Getenv, Url, seconds, with_default, required, one_of, positive_int, optional_positive_int,
  boolean, contract_list,
}
use pulsar_app.Config.Load.{http_url, load, start}
use pulsar_app.Config.Loaded.{IsValid, load-IsValid, seconds_lem}

abbrev an_id : Str
an_id = codes "CAAAAAAAAAAAAAAAAAAAAAAAAAAAAAAAAAAAAAAAAAAAAAAAAAAAAAAA"

abbrev variables : List (Str × Str)
variables =
    (codes "PULSAR_INDEXER_DB_URL", codes " indexer.db")
    ∷ (codes "PULSAR_INDEXER_RPC_URL", codes "https://rpc.example")
    ∷ (codes "PULSAR_INDEXER_NETWORK", codes "testnet")
    ∷ (codes "PULSAR_INDEXER_ADMIN_TOKEN", codes "0123456789abcdef")
    ∷ (
      codes "PULSAR_INDEXER_BOOTSTRAP_CONTRACTS",
      codes " CAAAAAAAAAAAAAAAAAAAAAAAAAAAAAAAAAAAAAAAAAAAAAAAAAAAAAAA ",
    )
    ∷ (codes "PULSAR_INDEXER_READ_TIMEOUT_SEC", codes "9223372037")
    ∷ []

abbrev value_of : Str → List (Str × Str) → Str
value_of name [] = []
value_of name ((k, v) ∷ vars) = let rest = value_of name vars in if eq_str k name then v else rest

abbrev env : Getenv
env name = value_of name variables

abbrev https : Str → Option Url
https text = some (record { scheme = codes "https"; host = text })

abbrev loaded : Config
loaded = record {
  listen_addr = codes ":8080";
  log_level = codes "info";
  log_format = codes "json";
  db_driver = codes "sqlite";
  db_url = codes "indexer.db";
  db_pool_max = pos 0;
  db_pool_min = pos 0;
  db_allow_insecure_tls = Bool.false;
  rpc_url = codes "https://rpc.example";
  network = codes "testnet";
  poll_interval = pos 5000000000;
  batch_size = pos 100;
  bootstrap_contracts = an_id ∷ [];
  admin_token = codes "0123456789abcdef";
  write_rate_per_sec = pos 5;
  write_rate_burst = pos 10;
  read_timeout = negsuc 9223372036709551615;
}

env-loaded : load https env ≡ ok loaded
unfolding load with_default required one_of positive_int http_url optional_positive_int boolean
    contract_list seconds trim_space split parse_int contract_id start
env-loaded = refl

load-IsValid_example : IsValid env loaded
load-IsValid_example = load-IsValid https env env-loaded

seconds_lem_test : (seconds (pos 15) ≡ pos 15000000000) × (pos 0 <ℤ seconds (pos 15))
seconds_lem_test = seconds_lem 15 (omega arith) (omega arith)
