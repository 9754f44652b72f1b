-- ===== src/Config/Stages.antt =====
-- indexer/internal/config/config.go: the settings that each part of Load reads.
use pulsar_app.Base.{
  ◌≤◌, Bool, false, List, [], Option, Str, codes, trim_space, length, ltb, ℤ, pos, ltb_ℤ, ◌<ℤ◌,
  ◌≤ℤ◌, ok, >>=-eq-ok, fail_if, ◌≡◌, ◌≢◌, arith, All,
}
use pulsar_app.Validate.{contract_id}
use pulsar_app.Config.{
  Config, Getenv, Url, max_batch_size, min_admin_token_len, valid_log_levels, valid_log_formats,
  valid_db_drivers, valid_networks, required, one_of, positive_int, optional_positive_int, boolean,
  contract_list, seconds, over_batch_size, short_token,
}
use pulsar_app.Config.Load.{
  http_url, load_names, load_database, load_rpc, load_polling, load_guards,
}
use pulsar_app.Config.Readers.{
  IsOneOf, ok-inj, fail_if-eq-ok, one_of-IsOneOf, required_lem, positive_int_lem,
  optional_positive_int_lem, Spells, contract_list_lem,
}

pub load_names_lem :
    (getenv : Getenv) (cfg : Config) {out : Config}
    → load_names getenv cfg ≡ ok out
    → (cfg ≡ out)
      × IsOneOf cfg.log_level valid_log_levels
      × IsOneOf cfg.log_format valid_log_formats
      × IsOneOf cfg.db_driver valid_db_drivers
unfolding load_names
load_names_lem getenv cfg h =
    let (_, h1, k1) =
      >>=-eq-ok (one_of (codes "PULSAR_INDEXER_LOG_LEVEL") cfg.log_level valid_log_levels) _ h in
    let (_, h2, k2) =
      >>=-eq-ok (one_of (codes "PULSAR_INDEXER_LOG_FORMAT") cfg.log_format valid_log_formats) _
        k1 in
    let (_, h3, k3) =
      >>=-eq-ok (one_of (codes "PULSAR_INDEXER_DB_DRIVER") cfg.db_driver valid_db_drivers) _ k2 in
    (
      ok-inj k3,
      one_of-IsOneOf (codes "PULSAR_INDEXER_LOG_LEVEL") cfg.log_level valid_log_levels h1,
      one_of-IsOneOf (codes "PULSAR_INDEXER_LOG_FORMAT") cfg.log_format valid_log_formats h2,
      one_of-IsOneOf (codes "PULSAR_INDEXER_DB_DRIVER") cfg.db_driver valid_db_drivers h3,
    )

pub load_database_lem :
    (getenv : Getenv) (cfg : Config) {out : Config}
    → load_database getenv cfg ≡ ok out
    → (url : Str) × (most : ℤ) × (least : ℤ) × (insecure : Bool) × (record cfg {
      db_url = url;
      db_pool_max = most;
      db_pool_min = least;
      db_allow_insecure_tls = insecure;
    }
        ≡ out)
      × ((url ≡ trim_space (getenv (codes "PULSAR_INDEXER_DB_URL"))) × (url ≢ []))
      × ((pos 0 ≤ℤ most) × (pos 0 ≤ℤ least))
unfolding load_database
load_database_lem getenv cfg h =
    let (url, h1, k1) = >>=-eq-ok (required getenv (codes "PULSAR_INDEXER_DB_URL")) _ h in
    let (most, h2, k2) =
      >>=-eq-ok (optional_positive_int getenv (codes "PULSAR_INDEXER_DB_POOL_MAX")) _ k1 in
    let (least, h3, k3) =
      >>=-eq-ok (optional_positive_int getenv (codes "PULSAR_INDEXER_DB_POOL_MIN")) _ k2 in
    let (insecure, h4, k4) =
      >>=-eq-ok (boolean getenv (codes "PULSAR_INDEXER_DB_ALLOW_INSECURE_TLS") false) _ k3 in
    (
      url,
      most,
      least,
      insecure,
      ok-inj k4,
      required_lem getenv _ h1,
      (optional_positive_int_lem getenv _ h2, optional_positive_int_lem getenv _ h3),
    )

pub load_rpc_lem :
    (url_parse : Str → Option Url) (getenv : Getenv) (cfg : Config) {out : Config}
    → load_rpc url_parse getenv cfg ≡ ok out
    → (url : Str) × (network : Str) × (record cfg { rpc_url = url; network = network } ≡ out)
      × ((url ≡ trim_space (getenv (codes "PULSAR_INDEXER_RPC_URL"))) × (url ≢ []))
      × IsOneOf network valid_networks
unfolding load_rpc
load_rpc_lem url_parse getenv cfg h =
    let (url, h1, k1) = >>=-eq-ok (required getenv (codes "PULSAR_INDEXER_RPC_URL")) _ h in
    let (_, h2, k2) = >>=-eq-ok (http_url url_parse (codes "PULSAR_INDEXER_RPC_URL") url) _ k1 in
    let (network, h3, k3) = >>=-eq-ok (required getenv (codes "PULSAR_INDEXER_NETWORK")) _ k2 in
    let (_, h4, k4) =
      >>=-eq-ok (one_of (codes "PULSAR_INDEXER_NETWORK") network valid_networks) _ k3 in
    (
      url,
      network,
      ok-inj k4,
      required_lem getenv _ h1,
      one_of-IsOneOf (codes "PULSAR_INDEXER_NETWORK") network valid_networks h4,
    )

not_over : (n : ℤ) → ltb_ℤ (pos max_batch_size) n ≡ false → n ≤ℤ pos max_batch_size
not_over n h = ground arith

pub load_polling_lem :
    (getenv : Getenv) (cfg : Config) {out : Config}
    → load_polling getenv cfg ≡ ok out
    → (n : ℤ) × (batch : ℤ) × (ids : List Str) × (record cfg {
      poll_interval = seconds n;
      batch_size = batch;
      bootstrap_contracts = ids;
    }
        ≡ out)
      × (pos 0 <ℤ n)
      × ((pos 0 <ℤ batch) × (batch ≤ℤ pos max_batch_size))
      × Spells (trim_space (getenv (codes "PULSAR_INDEXER_BOOTSTRAP_CONTRACTS"))) ids
      × All (λ id. contract_id id ≡ ok tt) ids
unfolding load_polling
load_polling_lem getenv cfg h =
    let (n, h1, k1) =
      >>=-eq-ok (positive_int getenv (codes "PULSAR_INDEXER_POLL_INTERVAL_SEC") 5) _ h in
    let (batch, h2, k2) =
      >>=-eq-ok (positive_int getenv (codes "PULSAR_INDEXER_BATCH_SIZE") 100) _ k1 in
    let (_, h3, k3) =
      >>=-eq-ok (fail_if (ltb_ℤ (pos max_batch_size) batch) (over_batch_size batch)) _ k2 in
    let (ids, h4, k4) =
      >>=-eq-ok (contract_list getenv (codes "PULSAR_INDEXER_BOOTSTRAP_CONTRACTS")) _ k3 in
    let (spelled, valid) = contract_list_lem getenv _ h4 in
    (
      n,
      batch,
      ids,
      ok-inj k4,
      positive_int_lem getenv _ 5 (omega arith) h1,
      (positive_int_lem getenv _ 100 (omega arith) h2, not_over batch (fail_if-eq-ok _ _ h3)),
      spelled,
      valid,
    )

pub load_guards_lem :
    (getenv : Getenv) (cfg : Config) {out : Config}
    → load_guards getenv cfg ≡ ok out
    → (token : Str) × (per_sec : ℤ) × (burst : ℤ) × (n : ℤ) × (record cfg {
      admin_token = token;
      write_rate_per_sec = per_sec;
      write_rate_burst = burst;
      read_timeout = seconds n;
    }
        ≡ out)
      × (token ≡ trim_space (getenv (codes "PULSAR_INDEXER_ADMIN_TOKEN")))
      × (min_admin_token_len ≤ length token)
      × ((pos 0 <ℤ per_sec) × (pos 0 <ℤ burst))
      × (pos 0 <ℤ n)
unfolding load_guards
load_guards_lem getenv cfg h =
    let (token, h1, k1) = >>=-eq-ok (required getenv (codes "PULSAR_INDEXER_ADMIN_TOKEN")) _ h in
    let (_, h2, k2) =
      >>=-eq-ok (fail_if (ltb (length token) min_admin_token_len) (short_token (length token))) _
        k1 in
    let (per_sec, h3, k3) =
      >>=-eq-ok (positive_int getenv (codes "PULSAR_INDEXER_WRITE_RATE_PER_SEC") 5) _ k2 in
    let (burst, h4, k4) =
      >>=-eq-ok (positive_int getenv (codes "PULSAR_INDEXER_WRITE_RATE_BURST") 10) _ k3 in
    let (n, h5, k5) =
      >>=-eq-ok (positive_int getenv (codes "PULSAR_INDEXER_READ_TIMEOUT_SEC") 15) _ k4 in
    let long = fail_if-eq-ok _ _ h2 in
    (
      token,
      per_sec,
      burst,
      n,
      ok-inj k5,
      (required_lem getenv _ h1).0,
      ground arith,
      (positive_int_lem getenv _ 5 (omega arith) h3, positive_int_lem getenv _ 10 (omega arith) h4),
      positive_int_lem getenv _ 15 (omega arith) h5,
    )
