-- ===== src/Startup/Tests.antt =====
-- Examples of indexer/cmd/pulsar-indexer: a daemon that starts with one contract, and one that is
-- stopped.
use pulsar_app.Base.{
  ◌+◌, ◌*◌, ◌≤◌, Bool, true, false, List, [], ◌∷◌, Option, none, some, Str, codes, eq_str,
  if◌then◌else◌, pos, ◌<ℤ◌, ok, err, ◌≡◌, ◌≢◌, ◌⊎◌, refl, arith, All, trim_space, split, length,
}
use pulsar_app.Strconv.{parse_int}
use pulsar_app.Validate.{contract_id}
use pulsar_app.Config.{
  Config, Getenv, Url, seconds, with_default, required, one_of, positive_int, optional_positive_int,
  boolean, contract_list, min_admin_token_len,
}
use pulsar_app.Config.Load.{http_url, load, start}
use pulsar_app.Store.{Dialect, sqlite, Outcome, ran, Db}
use pulsar_app.Store.Contracts.{register}
use pulsar_app.Store.Query.{supported}
use pulsar_app.Database.Driver.{Driver, DriverError, resolve, sqlite_defaults}
use pulsar_app.Database.Driver.Names.{IsPoolError}
use pulsar_app.Database.Open.{DsnUrl, PgConfig, open_database}
use pulsar_app.Database.Migrate.{Schema, up}
use pulsar_app.Http.Routes.{new_server}
use pulsar_app.Startup as Startup
use pulsar_app.Startup.{
  Logger, Started, Configured, World, new_logger, dialect_for, new_http_server, driver_options,
  build_server, register_all, configure, transport_timeout_headroom,
}
use pulsar_app.Startup.Stages.{load_resolves, new_http_server_lem, build_server_lem}
use pulsar_app.Startup.Registered.{IsTracked, IsReady, register_all_lem, start-IsReady}
use pulsar_app.Startup.Shutdown.{
  Daemon, Reach, here, next, launched, loop_times_out, serve_fails, takes_report, served, reported,
  serving, end_loop, running_at,
}
use pulsar_app.Startup.Shutdown.Progress.{steps, running, IsServing, ReturnsAlone, shutdown_exits}

abbrev an_id : Str
an_id = codes "CAAAAAAAAAAAAAAAAAAAAAAAAAAAAAAAAAAAAAAAAAAAAAAAAAAAAAAA"

abbrev variables : List (Str × Str)
variables =
    (codes "PULSAR_INDEXER_DB_URL", codes "indexer.db")
    ∷ (codes "PULSAR_INDEXER_RPC_URL", codes "https://rpc.example")
    ∷ (codes "PULSAR_INDEXER_NETWORK", codes "testnet")
    ∷ (codes "PULSAR_INDEXER_ADMIN_TOKEN", codes "0123456789abcdef")
    ∷ (codes "PULSAR_INDEXER_BOOTSTRAP_CONTRACTS", an_id)
    ∷ []

abbrev value_of : Str → List (Str × Str) → Str
value_of name [] = []
value_of name ((k, v) ∷ vars) = let rest = value_of name vars in if eq_str k name then v else rest

abbrev env : Getenv
env name = value_of name variables

abbrev https : Str → Option Url
https text = some (record { scheme = codes "https"; host = text })

abbrev loaded : Config
loaded = record {
  listen_addr = codes ":8080";
  log_level = codes "info";
  log_format = codes "json";
  db_driver = codes "sqlite";
  db_url = codes "indexer.db";
  db_pool_max = pos 0;
  db_pool_min = pos 0;
  db_allow_insecure_tls = false;
  rpc_url = codes "https://rpc.example";
  network = codes "testnet";
  poll_interval = pos 5000000000;
  batch_size = pos 100;
  bootstrap_contracts = an_id ∷ [];
  admin_token = codes "0123456789abcdef";
  write_rate_per_sec = pos 5;
  write_rate_burst = pos 10;
  read_timeout = pos 15000000000;
}

env-loaded : load https env ≡ ok loaded
unfolding load start with_default required one_of positive_int http_url optional_positive_int
    boolean contract_list seconds trim_space split parse_int contract_id
env-loaded = refl

load_resolves_test :
    ((l : Logger) × (new_logger loaded.log_level loaded.log_format ≡ ok l))
    × (((d : Driver) × (dialect : Dialect) × (resolve (driver_options loaded) ≡ ok d)
          × (dialect_for d.kind ≡ ok dialect)
          × (supported dialect ≡ true))
        ⊎ ((e : DriverError) × (resolve (driver_options loaded) ≡ err e) × IsPoolError e))
load_resolves_test = load_resolves https env env-loaded

fifteen : loaded.read_timeout ≡ seconds (pos 15)
unfolding seconds
fifteen = refl

new_http_server_lem_test :
    ((new_http_server loaded).read_timeout ≡ pos (15 * 1000000000 + transport_timeout_headroom))
    × ((new_http_server loaded).write_timeout ≡ pos (15 * 1000000000 + transport_timeout_headroom))
    × (loaded.read_timeout <ℤ (new_http_server loaded).write_timeout)
new_http_server_lem_test = new_http_server_lem loaded 15 (omega arith) (omega arith) fifteen

abbrev a_dsn : Str → Option DsnUrl
a_dsn text = some (record { rest = text; query = [] })

abbrev print_dsn : DsnUrl → Str
print_dsn u = u.rest

abbrev opens : Str → Bool
opens text = true

abbrev no_config : Str → Option PgConfig
no_config text = none

abbrev both_ran : Str → Outcome × Outcome
both_ran id = (ran, ran)

abbrev world : World
world = record {
  exec = λ s db. some db;
  weather = λ v. record { begins = true; records = true; commits = true };
  created = true;
  readable = true;
  files = λ dir. ok [];
  now = 7;
  registrations = both_ran;
  listens = opens;
  version = codes "dev";
}

abbrev empty : Db
empty = record { contracts = []; events = []; sequence = 0 }

registration_ran : (register_all 7 both_ran (an_id ∷ []) empty).0 ≡ ok tt
unfolding register_all register
registration_ran = refl

register_all_lem_test : All (IsTracked (register_all 7 both_ran (an_id ∷ []) empty).1) (an_id ∷ [])
register_all_lem_test = register_all_lem 7 both_ran (an_id ∷ []) empty registration_ran

abbrev schema : Schema Db
schema = record { tables = empty; applied = [] }

abbrev daemon : Started
unfolding new_server build_server new_http_server
daemon = record {
  configured = record {
    cfg = loaded;
    logger = record { level = Startup.LogLevel.info; format = Startup.LogFormat.json };
    driver = sqlite_defaults;
    dialect = sqlite;
    handle = record { dsn = codes "indexer.db"; max_open = pos 1; max_idle = pos 1 };
  };
  server = build_server loaded sqlite (codes "dev");
  http = new_http_server loaded;
  polled = an_id ∷ [];
}

has_started : (Startup.start https a_dsn print_dsn opens no_config world env schema).0 ≡ ok daemon
unfolding Startup.start configure load start with_default required one_of positive_int http_url
    optional_positive_int boolean contract_list seconds trim_space split parse_int contract_id
    new_logger resolve dialect_for open_database up register_all register build_server new_server
    new_http_server daemon
has_started = refl

start-IsReady_example :
    IsReady env daemon (Startup.start https a_dsn print_dsn opens no_config world env schema).1
start-IsReady_example =
    start-IsReady https a_dsn print_dsn opens no_config world env schema has_started

-- The server has failed, and one of two loops runs.
abbrev failed : Daemon
failed = record {
  cancelled = false;
  polling = false ∷ true ∷ [];
  server = reported (some (serving (codes "closed")));
  phase = served (some (serving (codes "closed")));
}

fails : Reach (launched (true ∷ true ∷ [])) failed
unfolding end_loop running_at
fails =
    next (next (next here (loop_times_out _ 0 refl)) (serve_fails _ (codes "closed") refl))
      (takes_report _ (some (serving (codes "closed"))) refl refl)

shutdown_exits_example :
    (steps fails ≤ 6 + running (true ∷ true ∷ [])) × (IsServing failed ⊎ ReturnsAlone failed)
shutdown_exits_example = shutdown_exits (true ∷ true ∷ []) fails

build_server_lem_test :
    ((build_server loaded sqlite (codes "dev")).auth_token
      ≡ trim_space (env (codes "PULSAR_INDEXER_ADMIN_TOKEN")))
    × (min_admin_token_len ≤ length (build_server loaded sqlite (codes "dev")).auth_token)
    × ((build_server loaded sqlite (codes "dev")).write_limiter ≡ some (pos 5, pos 10))
    × (pos 0 <ℤ pos 5)
    × (pos 0 <ℤ pos 10)
    × ((build_server loaded sqlite (codes "dev")).version ≢ [])
build_server_lem_test = build_server_lem https env sqlite (codes "dev") env-loaded
