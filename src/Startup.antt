-- ===== src/Startup.antt =====
-- indexer/cmd/pulsar-indexer/main.go: the stages of run up to the poll loops, dialectFor and
-- newHTTPServer, with New of indexer/internal/logger. What the world does with each stage is an
-- argument.
mod Tests
pub mod Stages
pub mod Registered
pub mod Shutdown
use pulsar_app.Base.{
  ℕ, ◌+◌, Bool, List, [], ◌∷◌, Option, none, some, Str, codes, eq_str, if◌then◌else◌, ℤ, pos,
  pos_part, ltb_ℤ, wrap, Result, ok, err, ◌>>=◌, ◌>>◌, map_err,
}
use pulsar_app.Config.{Config, ConfigError, Getenv, Url}
use pulsar_app.Config.Load.{load}
use pulsar_app.Store.{Outcome, StoreError, Dialect, sqlite, postgres, Contract, Db, Done}
use pulsar_app.Store.Contracts.{register}
use pulsar_app.Database.Driver.{
  Driver, Options, Kind, kind_sqlite, kind_postgres, other_kind, DriverError, resolve,
}
use pulsar_app.Database.Open.{DsnUrl, PgConfig, Handle, OpenError, open_database}
use pulsar_app.Migrations.{Migration, ParseError}
use pulsar_app.Database.Migrate.{MigrateError, Schema, Weather, up}
use pulsar_app.Http.Routes.{
  Server, with_auth_token, with_write_rate_limit, with_read_timeout, new_server,
}

pub data LogLevel : Type 0 where
  debug info warn error : LogLevel

pub data LogFormat : Type 0 where
  json text : LogFormat

-- A *slog.Logger: what it was made with.
pub record Logger : Type 0 where
  pub level : LogLevel
  pub format : LogFormat

pub data LogError : Type 0 where
  bad_level bad_format : Str → LogError

-- `levels`, a map
abbrev level_of : Str → Result LogError LogLevel
level_of s =
    if eq_str s (codes "debug")
    then ok debug
    else if eq_str s (codes "info")
    then ok info
    else if eq_str s (codes "warn")
    then ok warn
    else if eq_str s (codes "error")
    then ok error
    else err (bad_level s)

abbrev format_of : Str → Result LogError LogFormat
format_of s =
    if eq_str s (codes "json")
    then ok json
    else if eq_str s (codes "text")
    then ok text
    else err (bad_format s)

-- `logger.New`
unfoldable pub new_logger : Str → Str → Result LogError Logger
new_logger level format = do
  l ← level_of level
  f ← format_of format
  ok (record { level = l; format = f })

pub data StartError : Type 0 where
  loading : ConfigError → StartError
  building_logger : LogError → StartError
  resolving_driver : DriverError → StartError
  resolving_dialect : Kind → StartError
  opening : OpenError → StartError
  migrating : MigrateError → StartError
  registering : Str → StoreError → StartError
  listening : Str → StartError

-- `dialectFor`
unfoldable pub dialect_for : Kind → Result StartError Dialect
dialect_for kind_sqlite = ok sqlite
dialect_for kind_postgres = ok postgres
dialect_for (other_kind k) = err (resolving_dialect (other_kind k))

-- The timeouts of the transport, in nanoseconds.
abbrev pub read_header_timeout : ℕ
read_header_timeout = 10000000000

abbrev pub transport_timeout_headroom : ℕ
transport_timeout_headroom = 15000000000

abbrev pub default_transport_timeout : ℕ
default_transport_timeout = 30000000000

abbrev pub idle_timeout : ℕ
idle_timeout = 120000000000

-- The fields of the http.Server that newHTTPServer sets, but for the handler.
pub record HttpServer : Type 0 where
  pub addr : Str
  pub header_timeout : ℤ
  pub read_timeout : ℤ
  pub write_timeout : ℤ
  pub idle : ℤ

-- The sum of a positive Duration and a number, in the 64 bits of a Duration.
abbrev transport_timeout : ℤ → ℤ
transport_timeout t =
    if ltb_ℤ (pos 0) t
    then wrap 64 (pos (pos_part t + transport_timeout_headroom))
    else pos default_transport_timeout

-- `newHTTPServer`
unfoldable pub new_http_server : Config → HttpServer
new_http_server cfg = record {
  addr = cfg.listen_addr;
  header_timeout = pos read_header_timeout;
  read_timeout = transport_timeout cfg.read_timeout;
  write_timeout = transport_timeout cfg.read_timeout;
  idle = pos idle_timeout;
}

-- What is settled before the database is used.
pub record Configured : Type 0 where
  pub cfg : Config
  pub logger : Logger
  pub driver : Driver
  pub dialect : Dialect
  pub handle : Handle

abbrev pub driver_options : Config → Options
driver_options cfg = record {
  driver_name = cfg.db_driver;
  pool_max = cfg.db_pool_max;
  pool_min = cfg.db_pool_min;
}

-- The loop over the bootstrap contracts, at one time, with the two outcomes of each registration.
registered_or :
    Str
    → Done Contract
    → (Db → Result StartError (Unit {0}) × Db)
    → Result StartError (Unit {0}) × Db
registered_or id (err e, db) rest = (err (registering id e), db)
registered_or id (ok c, db) rest = rest db

unfoldable pub register_all :
    ℕ → (Str → Outcome × Outcome) → List Str → Db → Result StartError (Unit {0}) × Db
unfolding register registered_or
register_all now outcomes [] db = (ok tt, db)
register_all now outcomes (id ∷ ids) db =
    registered_or id (register now (outcomes id).0 (outcomes id).1 id db)
      (λ db'. register_all now outcomes ids db')

-- The server that run builds over the stores.
unfoldable pub build_server : Config → Dialect → Str → Server
unfolding new_server
build_server cfg dialect version = new_server dialect version (
    with_auth_token cfg.admin_token
    ∷ with_write_rate_limit cfg.write_rate_per_sec cfg.write_rate_burst
    ∷ with_read_timeout cfg.read_timeout
    ∷ [])

-- What is running when the startup is done: the server, the transport, and a poll loop per contract.
pub record Started : Type 0 where
  pub configured : Configured
  pub server : Server
  pub http : HttpServer
  pub polled : List Str

-- What happens to the stages that use the world: the effect of an SQL statement, the conditions of
-- the migrations, the files of each directory, the registrations, and the listener.
pub record World : Type 0 where
  pub exec : Str → Db → Option Db
  pub weather : ℕ → Weather
  pub created : Bool
  pub readable : Bool
  pub files : Str → Result ParseError (List Migration)
  pub now : ℕ
  pub registrations : Str → Outcome × Outcome
  pub listens : Str → Bool
  pub version : Str

module _ (url_parse : Str → Option Url) (dsn_parse : Str → Option DsnUrl)
    (dsn_string : DsnUrl → Str) (driver_open : Str → Bool) (pg_parse : Str → Option PgConfig) where
  -- The stages of `run` that only read the environment.
  unfoldable pub configure : Getenv → Result StartError Configured
  unfolding load new_logger resolve dialect_for open_database
  configure getenv = do
    cfg ← map_err loading (load url_parse getenv)
    log ← map_err building_logger (new_logger cfg.log_level cfg.log_format)
    driver ← map_err resolving_driver (resolve (driver_options cfg))
    dialect ← dialect_for driver.kind
    handle ← map_err opening (
        open_database dsn_parse dsn_string driver_open pg_parse driver cfg.db_url
          cfg.db_allow_insecure_tls)
    ok (record { cfg = cfg; logger = log; driver = driver; dialect = dialect; handle = handle })

  listen :
      World
      → Configured
      → Schema Db
      → Result StartError (Unit {0}) × Db
      → Result StartError Started × Schema Db
  unfolding build_server new_http_server
  listen w c s (err e, db) = (err e, record s { tables = db })
  listen w c s (ok u, db) =
      if w.listens c.cfg.listen_addr
      then (
        ok (record {
          configured = c;
          server = build_server c.cfg c.dialect w.version;
          http = new_http_server c.cfg;
          polled = c.cfg.bootstrap_contracts;
        }),
        record s { tables = db },
      )
      else (err (listening c.cfg.listen_addr), record s { tables = db })

  migrated :
      World → Configured → Option MigrateError → Schema Db → Result StartError Started × Schema Db
  unfolding listen register_all
  migrated w c (some e) s = (err (migrating e), s)
  migrated w c none s =
      listen w c s (register_all w.now w.registrations c.cfg.bootstrap_contracts s.tables)

  started : World → Result StartError Configured → Schema Db → Result StartError Started × Schema Db
  unfolding migrated up
  started w (err e) s = (err e, s)
  started w (ok c) s =
      let moved = up w.exec w.weather w.created w.readable (w.files c.driver.migrations_dir) s in
      migrated w c moved.failure moved.schema

  -- `run`, up to the poll loops
  unfoldable pub start : World → Getenv → Schema Db → Result StartError Started × Schema Db
  unfolding configure started
  start w getenv s = started w (configure getenv) s
