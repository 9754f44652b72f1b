-- ===== src/Migrations/Contiguous.antt =====
-- indexer/migrations/migrations.go: the list that parse returns.
use pulsar_app.Base.{
  ℕ, suc, ◌+◌, not, List, [], ◌∷◌, Option, Str, ◌==◌, ok, ◌≡◌, arith, sort_by, insert_by, All,
  >>=-eq-ok, fail_if, subst, inl, inr, Bool-cases,
}
use pulsar_app.Migrations.{
  Migration, DirEntry, jumps, add_entries, pair_up, no_orphans, require_contiguous, read_entries,
  lower_version, parse,
}

-- Versions count up by one, from the one after `i`.
abbrev pub CountsFrom : ℕ → List Migration → Type 0
CountsFrom i [] = Unit
CountsFrom i (m ∷ ms) = (m.version ≡ suc i) × CountsFrom (suc i) ms

require_contiguous-CountsFrom :
    (i : ℕ) (ms : List Migration) → require_contiguous i ms ≡ ok tt → CountsFrom i ms
unfolding require_contiguous
require_contiguous-CountsFrom i [] h = tt
require_contiguous-CountsFrom i (m ∷ ms) h =
    let (u, hu, k) = >>=-eq-ok (fail_if (not (m.version == i + 1)) (jumps m.version (i + 1))) _ h in
    (ground arith, require_contiguous-CountsFrom (suc i) ms k)

pub insert_by-All :
    (P : Migration → Type 0) (m : Migration) (ms : List Migration)
    → P m
    → All P ms
    → All P (insert_by lower_version m ms)
insert_by-All P m [] h hs = (h, tt)
insert_by-All P m (n ∷ ms) h (hn, hs) = elim (Bool-cases (lower_version m n)) [
  | inl e ↦ rw e (h, (hn, hs))
  | inr e ↦ rw e (hn, insert_by-All P m ms h hs)
]

-- A directory that parses gives migrations numbered from one without a gap.
pub parse-CountsFrom :
    (dir : Str) (listing : Option (List DirEntry)) {ms : List Migration}
    → parse dir listing ≡ ok ms
    → CountsFrom 0 ms
unfolding parse
parse-CountsFrom dir listing {ms} h =
    let (entries, he, k1) = >>=-eq-ok (read_entries dir listing) _ h in
    let (m, hm, k2) =
      >>=-eq-ok (add_entries entries (record { ups = []; downs = []; names = [] })) _ k1 in
    let (out, ho, k3) = >>=-eq-ok (pair_up m.ups m.downs) _ k2 in
    let (u, hu, k4) = >>=-eq-ok (no_orphans m.downs m.ups) _ k3 in
    let (v, hv, k5) = >>=-eq-ok (require_contiguous 0 (sort_by lower_version out)) _ k4 in
    let same : sort_by lower_version out ≡ ms = cc in
    subst (CountsFrom 0) same (require_contiguous-CountsFrom 0 _ hv)
