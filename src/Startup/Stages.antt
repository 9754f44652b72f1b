-- ===== src/Startup/Stages.antt =====
-- indexer/cmd/pulsar-indexer/main.go: what the stages after Load make of a configuration that Load
-- returned.
use pulsar_app.Base.{
  ℕ, ◌+◌, ◌*◌, ◌≤◌, ◌<◌, true, false, not, ◌||◌, [], ◌∷◌, Option, none, some, Str, codes, eq_str,
  trim_space, length, if◌then◌else◌, ℤ, pos, ltb_ℤ, ◌<ℤ◌, ok, err, ◌≡◌, ◌≢◌, ◌⊎◌, inl, inr, refl,
  ap, ◌∙◌, subst, arith, Result-cases,
}
use pulsar_app.Config.{
  Config, Getenv, Url, seconds, valid_log_levels, valid_log_formats, valid_db_drivers,
  min_admin_token_len,
}
use pulsar_app.Config.Load.{load}
use pulsar_app.Config.Readers.{IsOneOf}
use pulsar_app.Config.Loaded.{load-IsValid, seconds_lem}
use pulsar_app.Store.{Dialect, sqlite, postgres}
use pulsar_app.Store.Query.{supported}
use pulsar_app.Database.Driver.{
  Driver, kind_sqlite, kind_postgres, DriverError, resolve, resolve_lem, sqlite_defaults,
  IsPostgresPool,
}
use pulsar_app.Database.Driver.Names.{IsPoolError, ErrsWith, resolve-ErrsWith}
use pulsar_app.Http.Routes.{Server, new_server}
use pulsar_app.Startup.{
  LogLevel, LogFormat, Logger, level_of, format_of, new_logger, dialect_for, new_http_server,
  driver_options, build_server, transport_timeout_headroom,
}

level_ok : (s : Str) → IsOneOf s valid_log_levels → (l : LogLevel) × (level_of s ≡ ok l)
level_ok s (inl e) = (LogLevel.debug, rw e refl)
level_ok s (inr (inl e)) = (LogLevel.info, rw e refl)
level_ok s (inr (inr (inl e))) = (LogLevel.warn, rw e refl)
level_ok s (inr (inr (inr (inl e)))) = (LogLevel.error, rw e refl)
level_ok s (inr (inr (inr (inr x)))) = elim x [ ]

format_ok : (s : Str) → IsOneOf s valid_log_formats → (f : LogFormat) × (format_of s ≡ ok f)
format_ok s (inl e) = (LogFormat.json, rw e refl)
format_ok s (inr (inl e)) = (LogFormat.text, rw e refl)
format_ok s (inr (inr x)) = elim x [ ]

logger_ok :
    (level format : Str)
    → IsOneOf level valid_log_levels
    → IsOneOf format valid_log_formats
    → (l : Logger) × (new_logger level format ≡ ok l)
unfolding new_logger
logger_ok level format hl hf =
    let (l, el) = level_ok level hl in
    let (f, ef) = format_ok format hf in (record { level = l; format = f }, rw (el, ef) refl)

driver_name : (s : Str) → IsOneOf s valid_db_drivers → (s ≡ codes "sqlite") ⊎ (s ≡ codes "postgres")
driver_name s (inl e) = inl e
driver_name s (inr (inl e)) = inr e
driver_name s (inr (inr x)) = elim x [ ]

dialect_ok :
    (d : Driver)
    → (d.kind ≡ kind_sqlite) ⊎ (d.kind ≡ kind_postgres)
    → (dialect : Dialect) × (dialect_for d.kind ≡ ok dialect) × (supported dialect ≡ true)
unfolding dialect_for
dialect_ok d (inl e) = (sqlite, rw e refl, refl)
dialect_ok d (inr e) = (postgres, rw e refl, refl)

-- After Load, the logger is always built; the driver's name always resolves, so that only the sizes
-- of the pool can be refused; and a driver that resolves has a dialect, which the events store
-- supports.
pub load_resolves :
    (url_parse : Str → Option Url) (getenv : Getenv) {cfg : Config}
    → load url_parse getenv ≡ ok cfg
    → ((l : Logger) × (new_logger cfg.log_level cfg.log_format ≡ ok l))
      × (((d : Driver) × (dialect : Dialect) × (resolve (driver_options cfg) ≡ ok d)
            × (dialect_for d.kind ≡ ok dialect)
            × (supported dialect ≡ true))
          ⊎ ((e : DriverError) × (resolve (driver_options cfg) ≡ err e) × IsPoolError e))
load_resolves url_parse getenv {cfg} h =
    let v = load-IsValid url_parse getenv h in
    (
      logger_ok cfg.log_level cfg.log_format v.level v.format,
      elim (Result-cases (resolve (driver_options cfg))) [
        | inl (d, e) ↦
            let (dialect, maps, known) =
              dialect_ok d (kinds d (resolve_lem (driver_options cfg) e)) in
            inl (d, dialect, e, maps, known)
        | inr (e, k) ↦ inr (
          e,
          k,
          subst ErrsWith k
              (resolve-ErrsWith (driver_options cfg) (driver_name cfg.db_driver v.driver)),
        )
      ],
    )
  where
    kinds :
        (d : Driver)
        → (d ≡ sqlite_defaults) ⊎ IsPostgresPool d
        → (d.kind ≡ kind_sqlite) ⊎ (d.kind ≡ kind_postgres)
    kinds d (inl e) = inl (ap (λ (x : Driver). x.kind) e)
    kinds d (inr p) = inr p.0

-- The transport cuts a request or a response fifteen seconds after the handler's deadline, for a
-- deadline of a whole number of seconds, from one to 9223372021.
pub new_http_server_lem :
    (cfg : Config) (n : ℕ)
    → 0 < n
    → n ≤ 9223372021
    → cfg.read_timeout ≡ seconds (pos n)
    → ((new_http_server cfg).read_timeout ≡ pos (n * 1000000000 + transport_timeout_headroom))
      × ((new_http_server cfg).write_timeout ≡ pos (n * 1000000000 + transport_timeout_headroom))
      × (cfg.read_timeout <ℤ (new_http_server cfg).write_timeout)
unfolding new_http_server
new_http_server_lem cfg n low high e =
    let exact = (seconds_lem n low (omega arith)).0 in
    let t : cfg.read_timeout ≡ pos (n * 1000000000) = e ∙ exact in
    rw t (ground arith, ground arith, ground arith)

build_server-eq :
    (cfg : Config) (dialect : Dialect) (version : Str)
    → pos 0 <ℤ cfg.write_rate_per_sec
    → pos 0 <ℤ cfg.write_rate_burst
    → build_server cfg dialect version ≡ record {
      dialect = dialect;
      version = (if eq_str version [] then codes "dev" else version);
      auth_token = cfg.admin_token;
      write_limiter = some (cfg.write_rate_per_sec, cfg.write_rate_burst);
      read_timeout = cfg.read_timeout;
    }
unfolding build_server new_server
build_server-eq cfg dialect version per_sec burst =
    let base : Server = record {
      dialect = dialect;
      version = (if eq_str version [] then codes "dev" else version);
      auth_token = cfg.admin_token;
      write_limiter = none;
      read_timeout = pos 0;
    } in
    let limited : Server = record base {
      write_limiter = some (cfg.write_rate_per_sec, cfg.write_rate_burst);
    } in
    ap (λ b. record (if b then base else limited) { read_timeout = cfg.read_timeout })
      (positive cfg.write_rate_per_sec cfg.write_rate_burst per_sec burst)
  where
    positive :
        (a b : ℤ)
        → pos 0 <ℤ a
        → pos 0 <ℤ b
        → (not (ltb_ℤ (pos 0) a) || not (ltb_ℤ (pos 0) b)) ≡ false
    positive a b ha hb = ground arith

-- The server that run builds from a configuration that Load returned is guarded: its token is the
-- one of the environment and has at least the least length, writes are limited at positive rates,
-- and it reports a version.
pub build_server_lem :
    (url_parse : Str → Option Url) (getenv : Getenv) {cfg : Config} (dialect : Dialect)
    (version : Str)
    → load url_parse getenv ≡ ok cfg
    → (let srv = build_server cfg dialect version in
        (srv.auth_token ≡ trim_space (getenv (codes "PULSAR_INDEXER_ADMIN_TOKEN")))
        × (min_admin_token_len ≤ length srv.auth_token)
        × (srv.write_limiter ≡ some (cfg.write_rate_per_sec, cfg.write_rate_burst))
        × (pos 0 <ℤ cfg.write_rate_per_sec)
        × (pos 0 <ℤ cfg.write_rate_burst)
        × (srv.version ≢ []))
build_server_lem url_parse getenv {cfg} dialect version h =
    let v = load-IsValid url_parse getenv h in
    let (per_sec, burst) = v.rates in
    rw (build_server-eq cfg dialect version per_sec burst)
      (v.token_given, v.token_long, refl, per_sec, burst, named version)
  where
    named : (s : Str) → (if eq_str s [] then codes "dev" else s) ≢ []
    named [] = λ e. cc
    named (c ∷ s) = λ e. cc
