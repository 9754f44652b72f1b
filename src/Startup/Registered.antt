-- ===== src/Startup/Registered.antt =====
-- indexer/cmd/pulsar-indexer/main.go: the registration of the bootstrap contracts, and what holds
-- once run has started.
use pulsar_app.Base.{
  ℕ, ◌≤◌, Bool, true, false, List, [], ◌∷◌, Option, none, some, Str, codes, trim_space, length,
  if◌then◌else◌, Result, ok, err, >>=-eq-ok, map_err, ◌≡◌, refl, ap, ◌∙◌, subst, All,
}
use pulsar_app.Config.{Getenv, Url, min_admin_token_len}
use pulsar_app.Config.Load.{load}
use pulsar_app.Store.{Outcome, Contract, Db, Done}
use pulsar_app.Store.Contracts.{find, register}
use pulsar_app.Store.Contracts.Tracked.{register_found, register_keeps}
use pulsar_app.Database.Open.{DsnUrl, PgConfig, open_database}
use pulsar_app.Database.Driver.{resolve}
use pulsar_app.Database.Migrate.{Schema, MigrateError, up}
use pulsar_app.Startup.{
  StartError, registered_or, register_all, Configured, Started, World, configure, listen, listening,
  migrated, started, start, new_logger, dialect_for, driver_options, build_server, new_http_server,
  loading, building_logger, resolving_driver, opening,
}
use pulsar_app.Startup.Stages.{build_server_lem}

-- The contract is in the table.
abbrev pub IsTracked : Db → Str → Type 0
IsTracked db id = (c : Contract) × (find id db.contracts ≡ some c)

module _ (now : ℕ) (outcomes : Str → Outcome × Outcome) where
  keeps_step :
      (id : Str) (p : Done Contract) (rest : Db → Result StartError (Unit {0}) × Db) (j : Str)
      → ((db : Db) → IsTracked db j → IsTracked (rest db).1 j)
      → IsTracked p.1 j
      → IsTracked (registered_or id p rest).1 j
  unfolding registered_or
  keeps_step id (err e, db) rest j kept h = h
  keeps_step id (ok c, db) rest j kept h = kept db h

  register_all_keeps :
      (ids : List Str) (db : Db) (j : Str)
      → IsTracked db j
      → IsTracked (register_all now outcomes ids db).1 j
  unfolding register_all
  register_all_keeps [] db j h = h
  register_all_keeps (id ∷ ids) db j (c, h) =
      keeps_step id (register now (outcomes id).0 (outcomes id).1 id db)
        (λ db'. register_all now outcomes ids db') j (λ db' k. register_all_keeps ids db' j k)
        (c, register_keeps now (outcomes id).0 (outcomes id).1 id db j h)

  found_step :
      (id : Str) (p : Done Contract) (rest : Db → Result StartError (Unit {0}) × Db)
      (P : Db → Type 0)
      → ((c : Contract) → p.0 ≡ ok c → find id p.1.contracts ≡ some c)
      → ((db : Db) → IsTracked db id → (rest db).0 ≡ ok tt → P (rest db).1)
      → (registered_or id p rest).0 ≡ ok tt
      → P (registered_or id p rest).1
  unfolding registered_or
  found_step id (err e, db) rest P found next h = absurd cc
  found_step id (ok c, db) rest P found next h = next db (c, found c refl) h

  -- When the registration of the bootstrap contracts succeeds, whatever the database did, each of
  -- them is tracked.
  pub register_all_lem :
      (ids : List Str) (db : Db)
      → (register_all now outcomes ids db).0 ≡ ok tt
      → All (IsTracked (register_all now outcomes ids db).1) ids
  unfolding register_all
  register_all_lem [] db h = tt
  register_all_lem (id ∷ ids) db h =
      found_step id (register now (outcomes id).0 (outcomes id).1 id db)
        (λ db'. register_all now outcomes ids db') (λ t. All (IsTracked t) (id ∷ ids))
        (λ c e. register_found now (outcomes id).0 (outcomes id).1 id db e)
        (λ db' k r. (register_all_keeps ids db' id k, register_all_lem ids db' r)) h

-- What a started daemon is: its server is guarded by the environment's token, and each contract
-- that a poll loop runs for is in the tables.
pub record IsReady (getenv : Getenv) (st : Started) (s : Schema Db) : Type 0 where
  pub token : st.server.auth_token ≡ trim_space (getenv (codes "PULSAR_INDEXER_ADMIN_TOKEN"))
  pub long : min_admin_token_len ≤ length st.server.auth_token
  pub limited :
      st.server.write_limiter
      ≡ some (st.configured.cfg.write_rate_per_sec, st.configured.cfg.write_rate_burst)
  pub polls : st.polled ≡ st.configured.cfg.bootstrap_contracts
  pub tracked : All (IsTracked s.tables) st.polled

ok-inj {ℓ} : {E A : Type ℓ} {a b : A} → ◌≡◌ {A = Result E A} (ok a) (ok b) → a ≡ b
ok-inj h = cc

map_err-eq-ok :
    {E F A : Type 0} (f : E → F) (r : Result E A) {a : A} → map_err f r ≡ ok a → r ≡ ok a
map_err-eq-ok f (ok b) h = ap ok (ok-inj h)
map_err-eq-ok f (err e) h = absurd cc

module _ (url_parse : Str → Option Url) (dsn_parse : Str → Option DsnUrl)
    (dsn_string : DsnUrl → Str) (driver_open : Str → Bool) (pg_parse : Str → Option PgConfig) where
  configure-load :
      (getenv : Getenv) {c : Configured}
      → configure url_parse dsn_parse dsn_string driver_open pg_parse getenv ≡ ok c
      → load url_parse getenv ≡ ok c.cfg
  unfolding configure
  configure-load getenv {c} h =
      let (cfg, h1, k1) = >>=-eq-ok (map_err loading (load url_parse getenv)) _ h in
      let (_, h2, k2) =
        >>=-eq-ok (map_err building_logger (new_logger cfg.log_level cfg.log_format)) _ k1 in
      let (driver, h3, k3) =
        >>=-eq-ok (map_err resolving_driver (resolve (driver_options cfg))) _ k2 in
      let (dialect, h4, k4) = >>=-eq-ok (dialect_for driver.kind) _ k3 in
      let (handle, h5, k5) =
        >>=-eq-ok
          (map_err opening (
            open_database dsn_parse dsn_string driver_open pg_parse driver cfg.db_url
              cfg.db_allow_insecure_tls))
          _ k4 in
      map_err-eq-ok loading (load url_parse getenv) h1
      ∙ ap ok (ap (λ (x : Configured). x.cfg) (ok-inj k5))

  listen_lem :
      (w : World) (getenv : Getenv) (c : Configured) (s : Schema Db)
      (p : Result StartError (Unit {0}) × Db) {st : Started}
      → load url_parse getenv ≡ ok c.cfg
      → (p.0 ≡ ok tt → All (IsTracked p.1) c.cfg.bootstrap_contracts)
      → (listen url_parse dsn_parse dsn_string driver_open pg_parse w c s p).0 ≡ ok st
      → IsReady getenv st (listen url_parse dsn_parse dsn_string driver_open pg_parse w c s p).1
  unfolding listen
  listen_lem w getenv c s (err e, db) loaded all h = absurd cc
  listen_lem w getenv c s (ok u, db) {st} loaded all h = cases (w.listens c.cfg.listen_addr) h
    where
      up_and_running : Started
      up_and_running = record {
        configured = c;
        server = build_server c.cfg c.dialect w.version;
        http = new_http_server c.cfg;
        polled = c.cfg.bootstrap_contracts;
      }

      after : Schema Db
      after = record s { tables = db }

      ready : IsReady getenv up_and_running after
      ready =
          let (token, long, limited, _, _, _) =
            build_server_lem url_parse getenv c.dialect w.version loaded in
          record { token = token; long = long; limited = limited; polls = refl; tracked = all refl }

      cases :
          (b : Bool)
          → (if◌then◌else◌ {A = Result StartError Started × Schema Db} b
              (ok up_and_running, after)
              (err (listening c.cfg.listen_addr), after)).0
            ≡ ok st
          → IsReady getenv st
              (if◌then◌else◌ {A = Result StartError Started × Schema Db} b
                (ok up_and_running, after)
                (err (listening c.cfg.listen_addr), after)).1
      cases true k = subst (λ x. IsReady getenv x after) (ok-inj k) ready
      cases false k = absurd cc

  migrated_lem :
      (w : World) (getenv : Getenv) (c : Configured) (o : Option MigrateError) (s : Schema Db)
      {st : Started}
      → load url_parse getenv ≡ ok c.cfg
      → (migrated url_parse dsn_parse dsn_string driver_open pg_parse w c o s).0 ≡ ok st
      → IsReady getenv st (migrated url_parse dsn_parse dsn_string driver_open pg_parse w c o s).1
  unfolding migrated
  migrated_lem w getenv c (some e) s loaded h = absurd cc
  migrated_lem w getenv c none s loaded h =
      listen_lem w getenv c s
        (register_all w.now w.registrations c.cfg.bootstrap_contracts s.tables) loaded
        (register_all_lem w.now w.registrations c.cfg.bootstrap_contracts s.tables) h

  started_lem :
      (w : World) (getenv : Getenv) (r : Result StartError Configured) (s : Schema Db)
      {st : Started}
      → ((c : Configured) → r ≡ ok c → load url_parse getenv ≡ ok c.cfg)
      → (started url_parse dsn_parse dsn_string driver_open pg_parse w r s).0 ≡ ok st
      → IsReady getenv st (started url_parse dsn_parse dsn_string driver_open pg_parse w r s).1
  unfolding started
  started_lem w getenv (err e) s loaded h = absurd cc
  started_lem w getenv (ok c) s loaded h =
      migrated_lem w getenv c
        (up w.exec w.weather w.created w.readable (w.files c.driver.migrations_dir) s).failure
        (up w.exec w.weather w.created w.readable (w.files c.driver.migrations_dir) s).schema
        (loaded c refl) h

  -- A daemon that has started serves writes only under the environment's token, which has at least
  -- the least length, and under the limiter of its configuration, and polls the bootstrap
  -- contracts, each of which is in the tables: whatever the environment, the database, and the
  -- state of the tables were.
  pub start-IsReady :
      (w : World) (getenv : Getenv) (s : Schema Db) {st : Started}
      → (start url_parse dsn_parse dsn_string driver_open pg_parse w getenv s).0 ≡ ok st
      → IsReady getenv st (start url_parse dsn_parse dsn_string driver_open pg_parse w getenv s).1
  unfolding start
  start-IsReady w getenv s h =
      started_lem w getenv (configure url_parse dsn_parse dsn_string driver_open pg_parse getenv) s
        (λ c e. configure-load getenv e) h
