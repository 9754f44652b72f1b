-- ===== src/Migrations.antt =====
-- indexer/migrations/migrations.go. A directory is the list of its entries, in the order that
-- ReadDir gives; Go's maps from versions are association lists in the order of the first insertion.
mod Tests
pub mod Contiguous
use pulsar_app.Base.{
  ℕ, zero, suc, ◌+◌, Bool, true, false, not, List, [], ◌∷◌, Option, none, some, Str, codes, eq_str,
  ltb, ◌==◌, if◌then◌else◌, ℤ, pos, negsuc, Result, ok, err, ◌>>=◌, ◌>>◌, fail_if, length, sort_by,
  has_suffix, trim_suffix, cut, trim_space,
}
use pulsar_app.Strconv.{parse_int}

-- `Migration`
pub record Migration : Type 0 where
  pub version : ℕ
  pub name : Str
  pub up : Str
  pub down : Str

-- An entry of a directory: a name, whether it is a directory, and what reading it gives.
pub record DirEntry : Type 0 where
  pub name : Str
  pub is_dir : Bool
  pub body : Option Str

pub data ParseError : Type 0 where
  not_a_directory unreadable : Str → ParseError
  subdirectory bad_suffix no_label bad_prefix not_a_number not_positive empty_file :
      Str → ParseError
  two_names : ℕ → Str → Str → ParseError
  no_down no_up : ℕ → ParseError
  jumps : ℕ → ℕ → ParseError

abbrev pub up_suffix : Str
up_suffix = codes ".up.sql"

abbrev pub down_suffix : Str
down_suffix = codes ".down.sql"

-- `strconv.Atoi` of the four bytes of a prefix.
version_of : Str → Option ℤ → Result ParseError ℕ
version_of prefix none = err (not_a_number prefix)
version_of prefix (some (negsuc n)) = err (not_positive prefix)
version_of prefix (some (pos zero)) = err (not_positive prefix)
version_of prefix (some (pos (suc n))) = ok (suc n)

after_stem : Str → Bool → Str × Str × Bool → Result ParseError (ℕ × Str × Bool)
unfolding version_of parse_int
after_stem name is_up (prefix, label, false) = err (no_label name)
after_stem name is_up (prefix, label, true) = do
  fail_if (eq_str label (codes "")) (no_label name)
  fail_if (not (length prefix == 4)) (bad_prefix prefix)
  version ← version_of prefix (parse_int prefix)
  ok (version, label, is_up)

-- `parseName`
unfoldable pub parse_name : Str → Result ParseError (ℕ × Str × Bool)
unfolding has_suffix trim_suffix cut after_stem
parse_name name =
    if has_suffix name up_suffix
    then after_stem name true (cut (trim_suffix name up_suffix) b'_')
    else if has_suffix name down_suffix
    then after_stem name false (cut (trim_suffix name down_suffix) b'_')
    else err (bad_suffix name)

-- A map from versions: a value replaces the one that is there.
abbrev pub get {ℓ} : {A : Type ℓ} → ℕ → List (ℕ × A) → Option A
get v [] = none
get v ((w, a) ∷ m) = let rest = get v m in if w == v then some a else rest

abbrev pub put {ℓ} : {A : Type ℓ} → ℕ → A → List (ℕ × A) → List (ℕ × A)
put v a [] = (v, a) ∷ []
put v a ((w, b) ∷ m) = let rest = put v a m in if w == v then (w, a) ∷ m else (w, b) ∷ rest

-- An up file that was read: the Name and Up of a Migration.
pub record UpFile : Type 0 where
  pub label : Str
  pub up : Str

-- The maps `ups`, `downs` and `names`.
pub record Maps : Type 0 where
  pub ups : List (ℕ × UpFile)
  pub downs : List (ℕ × Str)
  pub names : List (ℕ × Str)

check_name : ℕ → Str → Option Str → Result ParseError (Unit {0})
check_name version label none = ok tt
check_name version label (some existing) =
    fail_if (not (eq_str existing label)) (two_names version existing label)

body_of : Str → Option Str → Result ParseError Str
body_of name none = err (unreadable name)
body_of name (some body) = ok body

file_maps : ℕ → Str → Bool → Str → Maps → Maps
file_maps version label true body m = record m {
  names = put version label m.names;
  ups = put version (record { label = label; up = body }) m.ups;
}
file_maps version label false body m = record m {
  names = put version label m.names;
  downs = put version body m.downs;
}

add_file : Str → Option Str → ℕ × Str × Bool → Maps → Result ParseError Maps
unfolding body_of check_name file_maps trim_space
add_file name content (version, label, is_up) m = do
  body ← body_of name content
  fail_if (eq_str (trim_space body) (codes "")) (empty_file name)
  check_name version label (get version m.names)
  ok (file_maps version label is_up body m)

-- The loop over the entries.
add_entry : DirEntry → Maps → Result ParseError Maps
unfolding add_file parse_name has_suffix
add_entry e m =
    if e.is_dir
    then err (subdirectory e.name)
    else if not (has_suffix e.name (codes ".sql"))
    then ok m
    else (parse_name e.name >>= λ parts. add_file e.name e.body parts m)

add_entries : List DirEntry → Maps → Result ParseError Maps
unfolding add_entry
add_entries [] m = ok m
add_entries (e ∷ es) m = do m' ← add_entry e m; add_entries es m'

with_down : ℕ → UpFile → Option Str → Result ParseError Migration
with_down version file none = err (no_down version)
with_down version file (some down) =
    ok (record { version = version; name = file.label; up = file.up; down = down })

-- The loop over `ups`.
pair_up : List (ℕ × UpFile) → List (ℕ × Str) → Result ParseError (List Migration)
unfolding with_down
pair_up [] downs = ok []
pair_up ((version, file) ∷ ups) downs = do
  m ← with_down version file (get version downs)
  ms ← pair_up ups downs
  ok (m ∷ ms)

known : ℕ → Option UpFile → Result ParseError (Unit {0})
known version none = err (no_up version)
known version (some file) = ok tt

-- The loop over `downs`.
no_orphans : List (ℕ × Str) → List (ℕ × UpFile) → Result ParseError (Unit {0})
unfolding known
no_orphans [] ups = ok tt
no_orphans ((version, body) ∷ downs) ups = do known version (get version ups); no_orphans downs ups

-- `requireContiguous`, from index `i`.
pub require_contiguous : ℕ → List Migration → Result ParseError (Unit {0})
require_contiguous i [] = ok tt
require_contiguous i (m ∷ ms) = do
  fail_if (not (m.version == i + 1)) (jumps m.version (i + 1))
  require_contiguous (suc i) ms

abbrev pub lower_version : Migration → Migration → Bool
lower_version a b = ltb a.version b.version

read_entries : Str → Option (List DirEntry) → Result ParseError (List DirEntry)
read_entries dir none = err (unreadable dir)
read_entries dir (some entries) = ok entries

-- `parse`
unfoldable pub parse : Str → Option (List DirEntry) → Result ParseError (List Migration)
unfolding read_entries add_entries pair_up no_orphans require_contiguous
parse dir listing = do
  entries ← read_entries dir listing
  m ← add_entries entries (record { ups = []; downs = []; names = [] })
  out ← pair_up m.ups m.downs
  no_orphans m.downs m.ups
  require_contiguous 0 (sort_by lower_version out)
  ok (sort_by lower_version out)

-- `For`, on what the embedded files hold.
unfoldable pub for_dir : Str → Option (List DirEntry) → Result ParseError (List Migration)
unfolding parse
for_dir dir listing =
    if (eq_str dir (codes "sqlite"))
    then parse dir listing
    else if eq_str dir (codes "postgres")
    then parse dir listing
    else err (not_a_directory dir)
