-- ===== src/Config/Load.antt =====
-- indexer/internal/config/config.go: Load, in stages.
use pulsar_app.Base.{
  false, [], Option, Str, codes, length, ltb, pos, ltb_ℤ, Result, ok, ◌>>=◌, ◌>>◌, fail_if,
}
use pulsar_app.Config.{
  max_batch_size, min_admin_token_len, Config, Getenv, ConfigError, valid_log_levels,
  valid_log_formats, valid_db_drivers, valid_networks, with_default, required, one_of, Url,
  check_url, positive_int, optional_positive_int, boolean, contract_list, seconds, over_batch_size,
  short_token,
}

-- The settings that have a default, as `Load` reads them.
abbrev pub log_level_of : Getenv → Str
unfolding with_default
log_level_of getenv = with_default getenv (codes "PULSAR_INDEXER_LOG_LEVEL") (codes "info")

abbrev pub log_format_of : Getenv → Str
unfolding with_default
log_format_of getenv = with_default getenv (codes "PULSAR_INDEXER_LOG_FORMAT") (codes "json")

abbrev pub db_driver_of : Getenv → Str
unfolding with_default
db_driver_of getenv = with_default getenv (codes "PULSAR_INDEXER_DB_DRIVER") (codes "sqlite")

-- What `Load` starts from, with Go's zero values for what is still to be read.
unfoldable pub start : Getenv → Config
unfolding with_default
start getenv = record {
  listen_addr = with_default getenv (codes "PULSAR_INDEXER_LISTEN_ADDR") (codes ":8080");
  log_level = log_level_of getenv;
  log_format = log_format_of getenv;
  db_driver = db_driver_of getenv;
  db_url = [];
  db_pool_max = pos 0;
  db_pool_min = pos 0;
  db_allow_insecure_tls = false;
  rpc_url = [];
  network = [];
  poll_interval = pos 0;
  batch_size = pos 0;
  bootstrap_contracts = [];
  admin_token = [];
  write_rate_per_sec = pos 0;
  write_rate_burst = pos 0;
  read_timeout = pos 0;
}

-- The stages of `Load`, in its order, each with the configuration so far.
unfoldable pub load_names : Getenv → Config → Result ConfigError Config
unfolding one_of
load_names getenv cfg = do
  one_of (codes "PULSAR_INDEXER_LOG_LEVEL") cfg.log_level valid_log_levels
  one_of (codes "PULSAR_INDEXER_LOG_FORMAT") cfg.log_format valid_log_formats
  one_of (codes "PULSAR_INDEXER_DB_DRIVER") cfg.db_driver valid_db_drivers
  ok cfg

unfoldable pub load_database : Getenv → Config → Result ConfigError Config
unfolding required optional_positive_int boolean
load_database getenv cfg = do
  db_url ← required getenv (codes "PULSAR_INDEXER_DB_URL")
  pool_max ← optional_positive_int getenv (codes "PULSAR_INDEXER_DB_POOL_MAX")
  pool_min ← optional_positive_int getenv (codes "PULSAR_INDEXER_DB_POOL_MIN")
  allow_insecure ← boolean getenv (codes "PULSAR_INDEXER_DB_ALLOW_INSECURE_TLS") false
  ok (record cfg {
    db_url = db_url;
    db_pool_max = pool_max;
    db_pool_min = pool_min;
    db_allow_insecure_tls = allow_insecure;
  })

unfoldable pub load_polling : Getenv → Config → Result ConfigError Config
unfolding positive_int contract_list seconds
load_polling getenv cfg = do
  poll_sec ← positive_int getenv (codes "PULSAR_INDEXER_POLL_INTERVAL_SEC") 5
  batch_size ← positive_int getenv (codes "PULSAR_INDEXER_BATCH_SIZE") 100
  fail_if (ltb_ℤ (pos max_batch_size) batch_size) (over_batch_size batch_size)
  contracts ← contract_list getenv (codes "PULSAR_INDEXER_BOOTSTRAP_CONTRACTS")
  ok (record cfg {
    poll_interval = seconds poll_sec;
    batch_size = batch_size;
    bootstrap_contracts = contracts;
  })

unfoldable pub load_guards : Getenv → Config → Result ConfigError Config
unfolding required positive_int seconds
load_guards getenv cfg = do
  token ← required getenv (codes "PULSAR_INDEXER_ADMIN_TOKEN")
  fail_if (ltb (length token) min_admin_token_len) (short_token (length token))
  per_sec ← positive_int getenv (codes "PULSAR_INDEXER_WRITE_RATE_PER_SEC") 5
  burst ← positive_int getenv (codes "PULSAR_INDEXER_WRITE_RATE_BURST") 10
  read_sec ← positive_int getenv (codes "PULSAR_INDEXER_READ_TIMEOUT_SEC") 15
  ok (record cfg {
    admin_token = token;
    write_rate_per_sec = per_sec;
    write_rate_burst = burst;
    read_timeout = seconds read_sec;
  })

module _ (url_parse : Str → Option Url) where
  -- `httpURL`
  unfoldable pub http_url : Str → Str → Result ConfigError (Unit {0})
  unfolding check_url
  http_url name value = check_url name (url_parse value)

  unfoldable pub load_rpc : Getenv → Config → Result ConfigError Config
  unfolding required http_url one_of
  load_rpc getenv cfg = do
    rpc_url ← required getenv (codes "PULSAR_INDEXER_RPC_URL")
    http_url (codes "PULSAR_INDEXER_RPC_URL") rpc_url
    network ← required getenv (codes "PULSAR_INDEXER_NETWORK")
    one_of (codes "PULSAR_INDEXER_NETWORK") network valid_networks
    ok (record cfg { rpc_url = rpc_url; network = network })

  -- `Load`
  unfoldable pub load : Getenv → Result ConfigError Config
  unfolding load_names load_database load_rpc load_polling load_guards
  load getenv = do
    named ← load_names getenv (start getenv)
    stored ← load_database getenv named
    connected ← load_rpc getenv stored
    polling ← load_polling getenv connected
    load_guards getenv polling
