-- ===== src/Migrations/Tests.antt =====
-- Examples of indexer/migrations.
use pulsar_app.Base.{List, [], ◌∷◌, some, codes, false, refl}
use pulsar_app.Migrations.{DirEntry, parse}
use pulsar_app.Migrations.Contiguous.{CountsFrom, parse-CountsFrom}

abbrev listing : List DirEntry
listing =
    record { name = codes "0001_a.down.sql"; is_dir = false; body = some (codes "X") }
    ∷ record { name = codes "0001_a.up.sql"; is_dir = false; body = some (codes "A") }
    ∷ []

parse-CountsFrom_test :
    CountsFrom 0 (record { version = 1; name = codes "a"; up = codes "A"; down = codes "X" } ∷ [])
unfolding parse
parse-CountsFrom_test = parse-CountsFrom (codes "sqlite") (some listing) refl
