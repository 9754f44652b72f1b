-- ===== src/Config/Readers.antt =====
-- indexer/internal/config/config.go: what holds of a setting that was read.
use pulsar_app.Base.{
  ℕ, suc, ◌<◌, Bool, true, false, not, List, [], ◌∷◌, Option, none, some, Str, eq_str, eq_str_iff,
  split, trim_space, ℤ, pos, ltb_ℤ, ◌<ℤ◌, ◌≤ℤ◌, Result, ok, err, >>=-eq-ok, fail_if, map_err, ◌≡◌,
  ◌≢◌, ◌⊎◌, inl, inr, refl, sym, ap, ◌∙◌, subst, arith, Bool-cases, All, map,
}
use pulsar_app.Strconv.{parse_int}
use pulsar_app.Validate.{contract_id}
use pulsar_app.Config.{
  Getenv, ConfigError, required, required_value, one_of, one_of_from, positive, positive_text,
  positive_int, optional_positive_int, check_entry, entries, list_text, contract_list, not_positive,
}

-- The value is one of the list.
abbrev pub IsOneOf : Str → List Str → Type 0
IsOneOf v [] = ⊥
IsOneOf v (a ∷ rest) = (v ≡ a) ⊎ IsOneOf v rest

pub ok-inj {ℓ} : {A : Type ℓ} {a b : A} → ◌≡◌ {A = Result ConfigError A} (ok a) (ok b) → a ≡ b
ok-inj h = cc

pub fail_if-eq-ok : (b : Bool) (e : ConfigError) {u : Unit {0}} → fail_if b e ≡ ok u → b ≡ false
fail_if-eq-ok true e h = absurd cc
fail_if-eq-ok false e h = refl

one_of_from-IsOneOf :
    (name v : Str) (all allowed : List Str) {u : Unit {0}}
    → one_of_from name v all allowed ≡ ok u
    → IsOneOf v allowed
unfolding one_of_from
one_of_from-IsOneOf name v all [] {u} h = absurd cc
one_of_from-IsOneOf name v all (a ∷ allowed) {u} h = elim (Bool-cases (eq_str v a)) [
  | inl e ↦ inl ((eq_str_iff v a).0 e)
  | inr e ↦ inr (one_of_from-IsOneOf name v all allowed (rw e at h))
]

pub one_of-IsOneOf :
    (name v : Str) (allowed : List Str) {u : Unit {0}}
    → one_of name v allowed ≡ ok u
    → IsOneOf v allowed
unfolding one_of
one_of-IsOneOf name v allowed h = one_of_from-IsOneOf name v allowed allowed h

required_value_lem : (name v : Str) {s : Str} → required_value name v ≡ ok s → (s ≡ v) × (s ≢ [])
unfolding required_value
required_value_lem name [] {s} h = absurd cc
required_value_lem name (c ∷ v) {s} h =
    let k : c ∷ v ≡ s = ok-inj h in (sym k, λ e. let m : c ∷ v ≡ [] = k ∙ e in absurd cc)

pub required_lem :
    (getenv : Getenv) (name : Str) {s : Str}
    → required getenv name ≡ ok s
    → (s ≡ trim_space (getenv name)) × (s ≢ [])
unfolding required
required_lem getenv name h = required_value_lem name (trim_space (getenv name)) h

positive_lem : (name raw : Str) (o : Option ℤ) {n : ℤ} → positive name raw o ≡ ok n → pos 0 <ℤ n
unfolding positive
positive_lem name raw none {n} h = absurd cc
positive_lem name raw (some m) {n} h =
    let (u, k, e) = >>=-eq-ok (fail_if (not (ltb_ℤ (pos 0) m)) (not_positive name m)) _ h in
    let lt = fail_if-eq-ok _ _ k in subst (λ x. pos 0 <ℤ x) (ok-inj e) (ground arith)

positive_text_lem :
    (name raw : Str) (fallback : ℕ) {n : ℤ}
    → positive_text name raw fallback ≡ ok n
    → (pos fallback ≡ n) ⊎ (pos 0 <ℤ n)
unfolding positive_text
positive_text_lem name [] fallback h = inl (ok-inj h)
positive_text_lem name (c ∷ s) fallback h = inr (positive_lem name (c ∷ s) (parse_int (c ∷ s)) h)

pub positive_int_lem :
    (getenv : Getenv) (name : Str) (fallback : ℕ) {n : ℤ}
    → 0 < fallback
    → positive_int getenv name fallback ≡ ok n
    → pos 0 <ℤ n
unfolding positive_int
positive_int_lem getenv name fallback {n} hf h =
    elim (positive_text_lem name (trim_space (getenv name)) fallback h) [
      | inl e ↦ subst (λ x. pos 0 <ℤ x) e (omega arith)
      | inr lt ↦ lt
    ]

pub optional_positive_int_lem :
    (getenv : Getenv) (name : Str) {n : ℤ} → optional_positive_int getenv name ≡ ok n → pos 0 ≤ℤ n
unfolding optional_positive_int positive_int
optional_positive_int_lem getenv name {n} h =
    elim (Bool-cases (eq_str (trim_space (getenv name)) [])) [
      | inl e ↦
          let k : ok (pos 0) ≡ ok n = rw e at h in subst (λ x. pos 0 ≤ℤ x) (ok-inj k) (omega arith)
      | inr e ↦
          let k : positive_text name (trim_space (getenv name)) 0 ≡ ok n = rw e at h in
          elim (positive_text_lem name (trim_space (getenv name)) 0 k) [
            | inl z ↦ subst (λ x. pos 0 ≤ℤ x) z (omega arith)
            | inr lt ↦ omega arith
          ]
    ]

check_entry_lem :
    (name : Str) (i : ℕ) (id : Str) {u : Unit {0}}
    → check_entry name i id ≡ ok u
    → contract_id id ≡ ok tt
unfolding check_entry
check_entry_lem name i id h =
    let (u, k, e) = >>=-eq-ok (fail_if (eq_str id []) _) _ h in accepted _ (contract_id id) e
  where
    accepted :
        {E F : Type 0} (f : E → F) (r : Result E (Unit {0})) {u : Unit {0}}
        → map_err f r ≡ ok u
        → r ≡ ok tt
    accepted f (ok t) e = refl
    accepted f (err t) e = absurd cc

entries_lem :
    (name : Str) (i : ℕ) (parts : List Str) {ids : List Str}
    → entries name i parts ≡ ok ids
    → (ids ≡ map trim_space parts) × All (λ id. contract_id id ≡ ok tt) ids
unfolding entries
entries_lem name i [] {ids} h =
    let e : [] ≡ ids = ok-inj h in (sym e, subst (All (λ id. contract_id id ≡ ok tt)) e tt)
entries_lem name i (p ∷ parts) {ids} h =
    let (u, checked, h1) = >>=-eq-ok (check_entry name i (trim_space p)) _ h in
    let (rest, read, h2) = >>=-eq-ok (entries name (suc i) parts) _ h1 in
    let e : trim_space p ∷ rest ≡ ids = ok-inj h2 in
    let (same, valid) = entries_lem name (suc i) parts read in
    (
      sym e ∙ ap (λ l. trim_space p ∷ l) same,
      subst (All (λ id. contract_id id ≡ ok tt)) e
          (check_entry_lem name i (trim_space p) checked, valid),
    )

-- The list that a text spells: none, or its parts between commas, trimmed.
abbrev pub Spells : Str → List Str → Type 0
Spells [] ids = ids ≡ []
Spells (c ∷ s) ids = ids ≡ map trim_space (split (c ∷ s) b',')

pub contract_list_lem :
    (getenv : Getenv) (name : Str) {ids : List Str}
    → contract_list getenv name ≡ ok ids
    → Spells (trim_space (getenv name)) ids × All (λ id. contract_id id ≡ ok tt) ids
unfolding contract_list
contract_list_lem getenv name {ids} h = text (trim_space (getenv name)) h
  where
    text :
        (raw : Str)
        → list_text name raw ≡ ok ids
        → Spells raw ids × All (λ id. contract_id id ≡ ok tt) ids
    text [] k =
        unfold list_text in
        let e : [] ≡ ids = ok-inj k in (sym e, subst (All (λ id. contract_id id ≡ ok tt)) e tt)
    text (c ∷ s) k = unfold list_text in entries_lem name 1 (split (c ∷ s) b',') k
