-- ===== src/Store/Contracts/Keys.antt =====
-- indexer/internal/store/contracts.go: the key of the contracts table.
use mathlib.Core.Option
use pulsar_app.Base.{
  ℕ, Bool, true, false, not, List, [], ◌∷◌, ◌++◌, Option, none, some, Str, eq_str, eq_str_iff,
  select, if◌then◌else◌, ◌≡◌, refl, arith, All, All-map, Ordered, Ordered-concat, Ordered-select,
  inl, inr, Bool-cases,
}
use pulsar_app.Store.{Contract}
use pulsar_app.Store.Contracts.{find, new_contract, update}
use pulsar_app.Store.Contracts.Laws.{find-concat, find-without, find-update}

-- No two contracts have one key.
abbrev pub KeysDiffer : List Contract → Type 0
KeysDiffer cs = Ordered (λ a b. not (eq_str a.id b.id)) cs

abbrev is_some : Option Contract → Bool
is_some o = elim o [ none ↦ false | some c ↦ true ]

-- A contract is in the table.
abbrev pub has : Str → List Contract → Bool
has j cs = is_some (find j cs)

find-none :
    (id : Str) (cs : List Contract) → find id cs ≡ none → All (λ c. not (eq_str c.id id) ≡ true) cs
unfolding find
find-none id [] h = tt
find-none id (c ∷ cs) h = elim (Bool-cases (eq_str c.id id)) [
  | inl e ↦ let k : some c ≡ none = rw e at h in absurd cc
  | inr e ↦ (rw e refl, find-none id cs (rw e at h))
]

pub KeysDiffer-concat :
    (id : Str) (now : ℕ) (cs : List Contract)
    → find id cs ≡ none
    → KeysDiffer cs
    → KeysDiffer (cs ++ new_contract id now ∷ [])
KeysDiffer-concat id now cs h k = Ordered-concat _ cs (new_contract id now) k (find-none id cs h)

pub KeysDiffer-select :
    (p : Contract → Bool) (cs : List Contract) → KeysDiffer cs → KeysDiffer (select p cs)
KeysDiffer-select p cs k = Ordered-select _ p cs k

-- An update that leaves the keys alone.
module _ (f : Contract → Contract) (id : Str) (same : (c : Contract) → (f c).id ≡ c.id) where
  All-update :
      (k : Str) (cs : List Contract)
      → All (λ c. not (eq_str k c.id) ≡ true) cs
      → All (λ c. not (eq_str k c.id) ≡ true) (update f id cs)
  unfolding update
  All-update k [] h = tt
  All-update k (c ∷ cs) (hc, h) = elim (Bool-cases (eq_str c.id id)) [
    | inl e ↦ rw e (rw (same c) hc, All-update k cs h)
    | inr e ↦ rw e (hc, All-update k cs h)
  ]

  pub KeysDiffer-update : (cs : List Contract) → KeysDiffer cs → KeysDiffer (update f id cs)
  unfolding update
  KeysDiffer-update [] h = tt
  KeysDiffer-update (c ∷ cs) (hc, h) = elim (Bool-cases (eq_str c.id id)) [
    | inl e ↦ rw e (
      All-map (λ d k. rw (same c) k) (update f id cs) (All-update c.id cs hc),
      KeysDiffer-update cs h,
    )
    | inr e ↦ rw e (All-update c.id cs hc, KeysDiffer-update cs h)
  ]

  pub has-update : (j : Str) (cs : List Contract) → has j cs ≡ true → has j (update f id cs) ≡ true
  has-update j cs h = rw (find-update id j f cs same) (cases (eq_str id j) (find j cs) h)
    where
      cases :
          (b : Bool) (o : Option Contract)
          → is_some o ≡ true
          → is_some (if b then Option.map f o else o) ≡ true
      cases true none k = k
      cases false none k = k
      cases true (some c) k = refl
      cases false (some c) k = refl

pub has-concat :
    (j : Str) (c : Contract) (cs : List Contract) → has j cs ≡ true → has j (cs ++ c ∷ []) ≡ true
has-concat j c cs h = rw (find-concat c.id j c cs) (cases (eq_str c.id j) (find j cs) h)
  where
    cases :
        (b : Bool) (o : Option Contract)
        → is_some o ≡ true
        → is_some (if b then (elim o [ none ↦ some c | some d ↦ some d ]) else o) ≡ true
    cases true none k = refl
    cases false none k = k
    cases true (some c) k = refl
    cases false (some c) k = refl

pub has-without :
    (id j : Str) (cs : List Contract)
    → eq_str j id ≡ false
    → has j cs ≡ true
    → has j (select (λ c. not (eq_str c.id id)) cs) ≡ true
has-without id j cs other h =
    let k : eq_str id j ≡ false = ground (arith, eq_str_iff id j, eq_str_iff j id) in
    rw (find-without id j cs, k) h
