-- ===== src/Database/Open.antt =====
-- indexer/internal/db: Open of db.go, openSQLite and appendPragmas of sqlite.go, openPostgres and
-- requireEncryptedConnection of postgres.go. The parsers of URLs and of connection strings, and the
-- printer of a URL, are parameters, and a handle is what it was opened with.
pub mod Laws
use pulsar_app.Base.{
  Bool, true, false, not, List, [], ◌∷◌, ◌++◌, Option, none, some, Str, codes, eq_str, contains,
  trim_space, if◌then◌else◌, ℤ, Result, ok, err, ◌>>=◌, ◌>>◌, fail_if,
}
use pulsar_app.Database.Driver.{Driver, kind_sqlite, kind_postgres, other_kind}

pub data OpenError : Type 0 where
  unsupported_kind : Str → OpenError
  empty_url unparseable_url driver_failed bad_connection_string unencrypted : OpenError

-- A URL, with the pairs of its query, and the rest of it as a text.
pub record DsnUrl : Type 0 where
  pub rest : Str
  pub query : List (Str × Str)

-- The parts of a pgx.ConnConfig that are read: whether TLS is set, and the same of each fallback.
pub record PgConfig : Type 0 where
  pub text : Str
  pub tls : Bool
  pub fallbacks : List Bool

-- A *sql.DB: what it connects to, and the bounds of its pool.
pub record Handle : Type 0 where
  pub dsn : Str
  pub max_open : ℤ
  pub max_idle : ℤ

-- A pragma, by the name before its bracket.
pub record Pragma : Type 0 where
  pub name : Str
  pub text : Str

abbrev pub sqlite_pragmas : List Pragma
sqlite_pragmas =
    record { name = codes "foreign_keys"; text = codes "foreign_keys(1)" }
    ∷ record { name = codes "journal_mode"; text = codes "journal_mode(WAL)" }
    ∷ record { name = codes "busy_timeout"; text = codes "busy_timeout(5000)" }
    ∷ []

abbrev pub pragma_key : Str
pragma_key = codes "_pragma"

-- `query["_pragma"]`
abbrev pub pragma_values : List (Str × Str) → List Str
pragma_values [] = []
pragma_values ((k, v) ∷ q) = if eq_str k pragma_key then v ∷ pragma_values q else pragma_values q

-- `strings.Join(vs, " ")`
abbrev pub join : List Str → Str
join [] = []
join (v ∷ []) = v
join (v ∷ w ∷ vs) = v ++ b' ' ∷ join (w ∷ vs)

-- The loop over the pragmas.
pub add_pragmas : Str → List Pragma → List (Str × Str) → List (Str × Str)
unfolding contains
add_pragmas existing [] query = query
add_pragmas existing (p ∷ ps) query =
    let skipped = add_pragmas existing ps query in
    let added = add_pragmas existing ps (query ++ (pragma_key, p.text) ∷ []) in
    if contains existing (p.name ++ codes "(") then skipped else added

-- `requireEncryptedConnection`: the loop stops at the first fallback without TLS.
any_plain : List Bool → Bool
any_plain [] = false
any_plain (tls ∷ fs) = if not tls then true else any_plain fs

unfoldable pub require_encrypted_connection : PgConfig → Result OpenError (Unit {0})
unfolding any_plain
require_encrypted_connection cfg =
    let insecure = (if any_plain cfg.fallbacks then true else not cfg.tls) in
    if not insecure then ok tt else err unencrypted

module _ (url_parse : Str → Option DsnUrl) (url_string : DsnUrl → Str) (driver_open : Str → Bool)
    (parse_config : Str → Option PgConfig) where
  pragmas_of : Option DsnUrl → Result OpenError Str
  unfolding add_pragmas
  pragmas_of none = err unparseable_url
  pragmas_of (some parsed) =
      let existing = join (pragma_values parsed.query) in
      ok (url_string (record parsed { query = add_pragmas existing sqlite_pragmas parsed.query }))

  -- `appendPragmas`
  unfoldable pub append_pragmas : Str → Result OpenError Str
  unfolding pragmas_of
  append_pragmas dsn = pragmas_of (url_parse dsn)

  abbrev pooled : Driver → Str → Handle
  pooled d dsn = record { dsn = dsn; max_open = d.pool_max; max_idle = d.pool_min }

  -- `openSQLite`
  unfoldable pub open_sqlite : Driver → Str → Result OpenError Handle
  unfolding append_pragmas trim_space
  open_sqlite d dsn = do
    fail_if (eq_str (trim_space dsn) []) empty_url
    with_pragmas ← append_pragmas dsn
    fail_if (not (driver_open with_pragmas)) driver_failed
    ok (pooled d with_pragmas)

  parsed_or_bad : Option PgConfig → Result OpenError PgConfig
  parsed_or_bad none = err bad_connection_string
  parsed_or_bad (some cfg) = ok cfg

  -- `openPostgres`
  unfoldable pub open_postgres : Driver → Str → Bool → Result OpenError Handle
  unfolding parsed_or_bad require_encrypted_connection trim_space
  open_postgres d dsn allow_insecure_tls = do
    fail_if (eq_str (trim_space dsn) []) empty_url
    cfg ← parsed_or_bad (parse_config dsn)
    if not allow_insecure_tls then require_encrypted_connection cfg else ok tt
    ok (pooled d cfg.text)

  -- `Open`
  unfoldable pub open_database : Driver → Str → Bool → Result OpenError Handle
  unfolding open_sqlite open_postgres
  open_database d dsn allow_insecure_tls = elim d.kind [
    | kind_sqlite ↦ open_sqlite d dsn
    | kind_postgres ↦ open_postgres d dsn allow_insecure_tls
    | other_kind k ↦ err (unsupported_kind k)
  ]
