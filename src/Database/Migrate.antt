-- ===== src/Database/Migrate.antt =====
-- indexer/internal/db/migrate.go: Up, Down, Version and the transaction of a migration. What a
-- statement does to the tables is a parameter, and so is what the database does with each
-- transaction.
pub mod Laws
use pulsar_app.Base.{
  ℕ, zero, suc, ◌+◌, Bool, false, ◌||◌, not, List, [], ◌∷◌, ◌++◌, Option, none, some, Str, ltb, leb,
  ◌==◌, if◌then◌else◌, ℤ, pos, negsuc, Result, ok, err, ◌>>=◌, ◌>>◌, fail_if, select, backwards,
}
use pulsar_app.Migrations.{Migration, ParseError}
use pulsar_app.Database.Split.{SplitError, split_statements}

pub data MigrateError : Type 0 where
  reading : ParseError → MigrateError
  splitting : ℕ → SplitError → MigrateError
  no_statements not_begun statement_failed not_recorded not_committed : ℕ → MigrateError
  not_created not_read : MigrateError
  negative_target : ℤ → MigrateError
  dirty : ℕ → ℕ → MigrateError

-- The tables of the database, and the versions in schema_migrations.
pub record Schema (Tables : Type 0) : Type 0 where
  pub tables : Tables
  pub applied : List ℕ

-- What the database does with the transaction of a version.
pub record Weather : Type 0 where
  pub begins : Bool
  pub records : Bool
  pub commits : Bool

abbrev pub member : ℕ → List ℕ → Bool
member v [] = false
member v (w ∷ ws) = w == v || member v ws

pub highest : List ℕ → ℕ
highest [] = 0
highest (v ∷ vs) = let h = highest vs in if ltb h v then v else h

-- The loop that looks for a gap: `left` versions from `version`.
pub gap : ℕ → ℕ → List ℕ → Option ℕ
gap version zero applied = none
gap version (suc left) applied =
    let rest = gap (suc version) left applied in
    if member version applied then rest else some version

gap_error : ℕ → Option ℕ → Result MigrateError ℕ
gap_error top none = ok top
gap_error top (some v) = err (dirty top v)

module _ {Tables : Type 0} (exec : Str → Tables → Option Tables) where
  -- The loop over the statements.
  pub run_statements : ℕ → List Str → Tables → Result MigrateError Tables
  run_statements v [] t = ok t
  run_statements v (s ∷ ss) t = elim (exec s t) [
    | none ↦ err (statement_failed v)
    | some t' ↦ run_statements v ss t'
  ]

  statements_of : ℕ → Result SplitError (List Str) → Result MigrateError (List Str)
  statements_of v (err e) = err (splitting v e)
  statements_of v (ok []) = err (no_statements v)
  statements_of v (ok (s ∷ ss)) = ok (s ∷ ss)

  -- `inTransaction`, from the text of the file to the commit: the new tables, or an error, after
  -- which the old ones stand.
  pub transact :
      Weather → ℕ → Str → (List ℕ → List ℕ) → Schema Tables → Result MigrateError (Schema Tables)
  unfolding split_statements statements_of run_statements
  transact w v body note s = do
    statements ← statements_of v (split_statements body)
    fail_if (not w.begins) (not_begun v)
    tables ← run_statements v statements s.tables
    fail_if (not w.records) (not_recorded v)
    fail_if (not w.commits) (not_committed v)
    ok (record { tables = tables; applied = note s.applied })

  -- `applyOne`
  pub apply_one : Weather → Migration → Schema Tables → Result MigrateError (Schema Tables)
  unfolding transact
  apply_one w m s = transact w m.version m.up (λ vs. vs ++ m.version ∷ []) s

  -- `revertOne`
  pub revert_one : Weather → Migration → Schema Tables → Result MigrateError (Schema Tables)
  unfolding transact
  revert_one w m s = transact w m.version m.down (select (λ v. not (v == m.version))) s

  -- What Up and Down return: the versions done, the error if there is one, and the schema.
  pub record Moved : Type 0 where
    pub versions : List ℕ
    pub failure : Option MigrateError
    pub schema : Schema Tables

  abbrev pub and_first : ℕ → Moved → Moved
  and_first v r = record r { versions = v ∷ r.versions }

  step_up :
      (Schema Tables → Moved) → ℕ → Schema Tables → Result MigrateError (Schema Tables) → Moved
  step_up rest v s (err e) = record { versions = []; failure = some e; schema = s }
  step_up rest v s (ok s') = and_first v (rest s')

  -- The loop of `Up`; `applied` is what was read before it.
  pub up_loop : (ℕ → Weather) → List ℕ → List Migration → Schema Tables → Moved
  unfolding step_up apply_one
  up_loop w applied [] s = record { versions = []; failure = none; schema = s }
  up_loop w applied (m ∷ ms) s =
      let next = up_loop w applied ms s in
      let work =
        step_up (λ s'. up_loop w applied ms s') m.version s (apply_one (w m.version) m s) in
      if member m.version applied then next else work

  -- The loop of `Down`, over the migrations from the last.
  pub down_loop : (ℕ → Weather) → ℕ → List ℕ → List Migration → Schema Tables → Moved
  unfolding step_up revert_one
  down_loop w target applied [] s = record { versions = []; failure = none; schema = s }
  down_loop w target applied (m ∷ ms) s =
      let next = down_loop w target applied ms s in
      let work =
        step_up (λ s'. down_loop w target applied ms s') m.version s
          (revert_one (w m.version) m s) in
      if leb m.version target || not (member m.version applied) then next else work

  failed : MigrateError → Schema Tables → Moved
  failed e s = record { versions = []; failure = some e; schema = s }

  -- What is ready before a loop: the files, `ensureSchemaMigrations` and `appliedVersions`.
  prepared :
      Bool
      → Bool
      → Result ParseError (List Migration)
      → Schema Tables
      → Result MigrateError (List Migration)
  prepared created readable (err e) s = err (reading e)
  prepared created readable (ok ms) s = do
    fail_if (not created) not_created
    fail_if (not readable) not_read
    ok ms

  up_prepared : (ℕ → Weather) → Schema Tables → Result MigrateError (List Migration) → Moved
  unfolding failed up_loop
  up_prepared w s (err e) = failed e s
  up_prepared w s (ok ms) = up_loop w s.applied ms s

  -- `Up`
  unfoldable pub up :
      (ℕ → Weather) → Bool → Bool → Result ParseError (List Migration) → Schema Tables → Moved
  unfolding prepared up_prepared
  up w created readable available s = up_prepared w s (prepared created readable available s)

  down_prepared : (ℕ → Weather) → ℕ → Schema Tables → Result MigrateError (List Migration) → Moved
  unfolding failed down_loop
  down_prepared w target s (err e) = failed e s
  down_prepared w target s (ok ms) = down_loop w target s.applied (backwards ms) s

  -- `Down`
  unfoldable pub down :
      (ℕ → Weather) → Bool → Bool → Result ParseError (List Migration) → ℤ → Schema Tables → Moved
  unfolding prepared down_prepared failed
  down w created readable available (negsuc n) s = failed (negative_target (negsuc n)) s
  down w created readable available (pos target) s =
      down_prepared w target s (prepared created readable available s)

  -- `Version`
  unfoldable pub version : Bool → Bool → Schema Tables → Result MigrateError ℕ
  unfolding highest gap gap_error
  version created readable s = do
    fail_if (not created) not_created
    fail_if (not readable) not_read
    gap_error (highest s.applied) (gap 1 (highest s.applied) s.applied)
