-- ===== src/Config/Loaded.antt =====
-- indexer/internal/config/config.go: what holds of a configuration that Load returned.
use pulsar_app.Base.{
  ℕ, ◌*◌, ◌≤◌, ◌<◌, [], Option, Str, codes, trim_space, length, ℤ, pos, ◌<ℤ◌, ◌≤ℤ◌, ok, >>=-eq-ok,
  ◌≡◌, ◌≢◌, refl, ap, ◌∙◌, subst, arith, All,
}
use pulsar_app.Validate.{contract_id}
use pulsar_app.Config.{
  Config, Getenv, Url, max_batch_size, min_admin_token_len, valid_log_levels, valid_log_formats,
  valid_db_drivers, valid_networks, seconds, times_second,
}
use pulsar_app.Config.Load.{load, start, load_names, load_database, load_rpc, load_polling}
use pulsar_app.Config.Readers.{IsOneOf, Spells}
use pulsar_app.Config.Stages.{
  load_names_lem, load_database_lem, load_rpc_lem, load_polling_lem, load_guards_lem,
}

-- What a loaded configuration promises.
pub record IsValid (getenv : Getenv) (cfg : Config) : Type 0 where
  pub level : IsOneOf cfg.log_level valid_log_levels
  pub format : IsOneOf cfg.log_format valid_log_formats
  pub driver : IsOneOf cfg.db_driver valid_db_drivers
  pub net : IsOneOf cfg.network valid_networks
  pub url_given :
      (cfg.db_url ≡ trim_space (getenv (codes "PULSAR_INDEXER_DB_URL"))) × (cfg.db_url ≢ [])
  pub rpc_given :
      (cfg.rpc_url ≡ trim_space (getenv (codes "PULSAR_INDEXER_RPC_URL"))) × (cfg.rpc_url ≢ [])
  pub token_given : cfg.admin_token ≡ trim_space (getenv (codes "PULSAR_INDEXER_ADMIN_TOKEN"))
  pub token_long : min_admin_token_len ≤ length cfg.admin_token
  pub pools : (pos 0 ≤ℤ cfg.db_pool_max) × (pos 0 ≤ℤ cfg.db_pool_min)
  pub batch : (pos 0 <ℤ cfg.batch_size) × (cfg.batch_size ≤ℤ pos max_batch_size)
  pub rates : (pos 0 <ℤ cfg.write_rate_per_sec) × (pos 0 <ℤ cfg.write_rate_burst)
  pub poll : (n : ℤ) × (pos 0 <ℤ n) × (cfg.poll_interval ≡ seconds n)
  pub deadline : (n : ℤ) × (pos 0 <ℤ n) × (cfg.read_timeout ≡ seconds n)
  pub listed :
      Spells
        (trim_space (getenv (codes "PULSAR_INDEXER_BOOTSTRAP_CONTRACTS")))
        cfg.bootstrap_contracts
  pub contracts : All (λ id. contract_id id ≡ ok tt) cfg.bootstrap_contracts

-- A configuration that Load returns has every setting in its range: the level, the format, the
-- driver and the network are among those supported; the URLs of the database and of the RPC server
-- are given, and the token is given and no shorter than the least length, each as the environment
-- spells it; no pool size is negative; the batch is within the page limit; the rates are positive;
-- the two durations are made of positive numbers of seconds; and the contracts are those of the
-- list, each with a valid ID.
pub load-IsValid :
    (url_parse : Str → Option Url) (getenv : Getenv) {cfg : Config}
    → load url_parse getenv ≡ ok cfg
    → IsValid getenv cfg
unfolding load
load-IsValid url_parse getenv {cfg} h =
    let (c1, h1, k1) = >>=-eq-ok (load_names getenv (start getenv)) _ h in
    let (c2, h2, k2) = >>=-eq-ok (load_database getenv c1) _ k1 in
    let (c3, h3, k3) = >>=-eq-ok (load_rpc url_parse getenv c2) _ k2 in
    let (c4, h4, h5) = >>=-eq-ok (load_polling getenv c3) _ k3 in
    let (e1, level, format, driver) = load_names_lem getenv (start getenv) h1 in
    let (db_url, most, least, insecure, e2, url_given, pools) = load_database_lem getenv c1 h2 in
    let (rpc_url, network, e3, rpc_given, net) = load_rpc_lem url_parse getenv c2 h3 in
    let (poll_sec, batch, ids, e4, poll_positive, fits, listed, valid) =
      load_polling_lem getenv c3 h4 in
    let (token, per_sec, burst, read_sec, e5, given, long, rates, read_positive) =
      load_guards_lem getenv c4 h5 in
    let with_database : Config → Config = λ c. record c {
      db_url = db_url;
      db_pool_max = most;
      db_pool_min = least;
      db_allow_insecure_tls = insecure;
    } in
    let with_rpc : Config → Config = λ c. record c { rpc_url = rpc_url; network = network } in
    let with_polling : Config → Config = λ c. record c {
      poll_interval = seconds poll_sec;
      batch_size = batch;
      bootstrap_contracts = ids;
    } in
    let with_guards : Config → Config = λ c. record c {
      admin_token = token;
      write_rate_per_sec = per_sec;
      write_rate_burst = burst;
      read_timeout = seconds read_sec;
    } in
    let s2 : with_database (start getenv) ≡ c2 = ap with_database e1 ∙ e2 in
    let s3 : with_rpc (with_database (start getenv)) ≡ c3 = ap with_rpc s2 ∙ e3 in
    let s4 : with_polling (with_rpc (with_database (start getenv))) ≡ c4 =
      ap with_polling s3 ∙ e4 in
    let s5 : with_guards (with_polling (with_rpc (with_database (start getenv)))) ≡ cfg =
      ap with_guards s4 ∙ e5 in
    subst (IsValid getenv) s5 (record {
      level = level;
      format = format;
      driver = driver;
      net = net;
      url_given = url_given;
      rpc_given = rpc_given;
      token_given = given;
      token_long = long;
      pools = pools;
      batch = fits;
      rates = rates;
      poll = (poll_sec, poll_positive, refl);
      deadline = (read_sec, read_positive, refl);
      listed = listed;
      contracts = valid;
    })

-- A whole number of seconds, positive and no more than 9223372036, is its nanoseconds, which fit a
-- Duration and are positive.
pub seconds_lem :
    (n : ℕ)
    → 0 < n
    → n ≤ 9223372036
    → (seconds (pos n) ≡ pos (n * 1000000000)) × (pos 0 <ℤ seconds (pos n))
unfolding seconds times_second
seconds_lem n h k = ground arith
