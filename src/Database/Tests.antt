-- ===== src/Database/Tests.antt =====
-- Examples of indexer/internal/db.
use pulsar_app.Base.{
  ℕ, Bool, List, [], ◌∷◌, ◌++◌, Option, none, some, Str, codes, pos, ok, ◌≡◌, refl, ◌⊎◌, true,
  false, not, All, map, select, contains, has_prefix, trim_space,
}
use pulsar_app.Migrations.{Migration}
use pulsar_app.Database.Driver.{
  Driver, Options, resolve, resolve_lem, sqlite_defaults, IsPostgresPool, kind_postgres,
}
use pulsar_app.Database.Open.{
  DsnUrl, PgConfig, Handle, Pragma, sqlite_pragmas, pragma_key, pragma_values, join, append_pragmas,
  open_postgres, require_encrypted_connection,
}
use pulsar_app.Database.Open.Laws.{Sets, append_pragmas_lem, open_postgres_lem}
use pulsar_app.Database.Split.{split_statements, Texts, split_statements-Texts}
use pulsar_app.Database.Migrate.{Schema, Weather, up, version}
use pulsar_app.Database.Migrate.Laws.{up-records, up_idem, version-up}

abbrev wide_pool : Options
wide_pool = record { driver_name = codes "postgres"; pool_max = pos 0; pool_min = pos 0 }

abbrev wide_driver : Driver
wide_driver = record {
  kind = kind_postgres;
  migrations_dir = codes "postgres";
  pool_max = pos 10;
  pool_min = pos 2;
}

resolve_lem_test : (wide_driver ≡ sqlite_defaults) ⊎ IsPostgresPool wide_driver
unfolding resolve
resolve_lem_test = resolve_lem wide_pool refl

quoted_semicolon-Texts : Texts (codes "A 'x;y'" ∷ codes "B" ∷ [])
unfolding split_statements
quoted_semicolon-Texts = split_statements-Texts (codes "A 'x;y';\n B;") refl

-- A database whose tables are the list of the statements that were run.
abbrev log : Str → List Str → Option (List Str)
log s t = some (t ++ s ∷ [])

abbrev fair : ℕ → Weather
fair v = record { begins = true; records = true; commits = true }

abbrev two_files : List Migration
two_files =
    record { version = 1; name = codes "a"; up = codes "A;"; down = codes "X;" }
    ∷ record { version = 2; name = codes "b"; up = codes "B;"; down = codes "Y;" }
    ∷ []

abbrev empty : Schema (List Str)
empty = record { tables = []; applied = [] }

up-records_test :
    (up log fair true true (ok two_files) empty).schema.applied
    ≡ [] ++ (up log fair true true (ok two_files) empty).versions
up-records_test = up-records log fair true true (ok two_files) empty

up_idem_test :
    up log fair true true (ok two_files) (up log fair true true (ok two_files) empty).schema
    ≡ record {
      versions = [];
      failure = none;
      schema = (up log fair true true (ok two_files) empty).schema;
    }
unfolding up split_statements
up_idem_test = up_idem log fair fair two_files empty refl

version-up_example :
    version log true true (up log fair true true (ok two_files) empty).schema ≡ ok 2
unfolding up split_statements
version-up_example = version-up log fair two_files empty (refl, (refl, tt)) refl refl

-- A printer of URLs that keeps the values of the query.
abbrev print_query : List (Str × Str) → Str
print_query [] = []
print_query ((k, v) ∷ q) = v ++ b'&' ∷ print_query q

abbrev print_url : DsnUrl → Str
print_url u = u.rest ++ print_query u.query

abbrev operator_url : DsnUrl
operator_url = record { rest = codes "a.db?"; query = (pragma_key, codes "busy_timeout(9)") ∷ [] }

abbrev a_url : Str → Option DsnUrl
a_url text = some operator_url

abbrev opens : Str → Bool
opens text = true

abbrev encrypted_config : PgConfig
encrypted_config = record { text = codes "pg"; tls = true; fallbacks = true ∷ [] }

abbrev a_config : Str → Option PgConfig
a_config text = some encrypted_config

abbrev with_pragmas : Str
with_pragmas = codes "a.db?busy_timeout(9)&foreign_keys(1)&journal_mode(WAL)&"

appended : append_pragmas a_url print_url opens a_config (codes "a.db") ≡ ok with_pragmas
unfolding append_pragmas contains has_prefix
appended = refl

append_pragmas_lem_test :
    (q : List (Str × Str)) × (with_pragmas ≡ print_url (record operator_url { query = q }))
    × (q
        ≡ operator_url.query
          ++ map
              (λ (p : Pragma). (pragma_key, p.text))
              (select
                (λ (p : Pragma).
                  not (contains (join (pragma_values operator_url.query)) (p.name ++ codes "(")))
                sqlite_pragmas))
    × All (λ p. Sets (p.name ++ codes "(") q) sqlite_pragmas
append_pragmas_lem_test =
    append_pragmas_lem a_url print_url opens a_config (codes "a.db") {u = operator_url} refl
      appended

abbrev pg_handle : Handle
pg_handle = record { dsn = codes "pg"; max_open = pos 10; max_idle = pos 2 }

pg_opened :
    open_postgres a_url print_url opens a_config wide_driver (codes "pg") false ≡ ok pg_handle
unfolding open_postgres require_encrypted_connection trim_space
pg_opened = refl

open_postgres_lem_example :
    (cfg : PgConfig) × (a_config (codes "pg") ≡ some cfg)
    × (cfg.tls ≡ true)
    × All (λ tls. tls ≡ true) cfg.fallbacks
    × (pg_handle.max_open ≡ wide_driver.pool_max)
    × (pg_handle.max_idle ≡ wide_driver.pool_min)
open_postgres_lem_example =
    open_postgres_lem a_url print_url opens a_config wide_driver (codes "pg") pg_opened
