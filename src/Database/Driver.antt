-- ===== src/Database/Driver.antt =====
-- indexer/internal/db/db.go: Resolve and applyPoolOverrides.
pub mod Names
use pulsar_app.Base.{
  Bool, true, false, ◌&&◌, ◌||◌, not, Str, codes, eq_str, if◌then◌else◌, ℤ, pos, negsuc, ltb_ℤ,
  eqb_ℤ, ◌≤ℤ◌, Result, ok, err, ◌≡◌, ◌⊎◌, inl, inr, sym, ◌∙◌, subst, arith, ap, ◌>>=◌, >>=-eq-ok,
  Bool-cases,
}

pub data Kind : Type 0 where
  kind_sqlite kind_postgres : Kind
  other_kind : Str → Kind

-- `Driver`
pub record Driver : Type 0 where
  pub kind : Kind
  pub migrations_dir : Str
  pub pool_max : ℤ
  pub pool_min : ℤ

-- `Options`
pub record Options : Type 0 where
  pub driver_name : Str
  pub pool_max : ℤ
  pub pool_min : ℤ

pub data DriverError : Type 0 where
  unsupported : Str → DriverError
  negative_pool : ℤ → ℤ → DriverError
  sqlite_max sqlite_min : ℤ → DriverError
  min_over_max : ℤ → ℤ → DriverError

abbrev is_sqlite : Kind → Bool
is_sqlite kind_sqlite = true
is_sqlite kind_postgres = false
is_sqlite (other_kind k) = false

override_max : Options → Driver → Result DriverError Driver
override_max o d =
    if ltb_ℤ (pos 0) o.pool_max
    then (if is_sqlite d.kind && not (eqb_ℤ o.pool_max (pos 1))
        then err (sqlite_max o.pool_max)
        else ok (record d { pool_max = o.pool_max }))
    else ok d

override_min : Options → Driver → Result DriverError Driver
override_min o d =
    if ltb_ℤ (pos 0) o.pool_min
    then (if is_sqlite d.kind && not (eqb_ℤ o.pool_min (pos 1))
        then err (sqlite_min o.pool_min)
        else ok (record d { pool_min = o.pool_min }))
    else ok d

check_order : Driver → Result DriverError Driver
check_order d =
    if ltb_ℤ d.pool_max d.pool_min then err (min_over_max d.pool_min d.pool_max) else ok d

-- `applyPoolOverrides`
unfoldable pub apply_pool_overrides : Options → Driver → Result DriverError Driver
unfolding override_max override_min check_order
apply_pool_overrides o d =
    if ltb_ℤ o.pool_max (pos 0) || ltb_ℤ o.pool_min (pos 0)
    then err (negative_pool o.pool_max o.pool_min)
    else (override_max o d >>= λ d1. override_min o d1 >>= check_order)

abbrev pub sqlite_defaults : Driver
sqlite_defaults = record {
  kind = kind_sqlite;
  migrations_dir = codes "sqlite";
  pool_max = pos 1;
  pool_min = pos 1;
}

abbrev postgres_defaults : Driver
postgres_defaults = record {
  kind = kind_postgres;
  migrations_dir = codes "postgres";
  pool_max = pos 10;
  pool_min = pos 2;
}

-- `Resolve`
unfoldable pub resolve : Options → Result DriverError Driver
unfolding apply_pool_overrides
resolve o =
    if eq_str o.driver_name (codes "sqlite")
    then apply_pool_overrides o sqlite_defaults
    else if eq_str o.driver_name (codes "postgres")
    then apply_pool_overrides o postgres_defaults
    else err (unsupported o.driver_name)

eqb_ℤ_lem : (n : ℤ) → eqb_ℤ n (pos 1) ≡ true → n ≡ pos 1
eqb_ℤ_lem (pos n) h = ap pos (ground arith)
eqb_ℤ_lem (negsuc n) h = absurd (ground arith)

ok-inj : {a b : Driver} → ◌≡◌ {A = Result DriverError Driver} (ok a) (ok b) → a ≡ b
ok-inj h = cc

override_max_sqlite :
    (o : Options) (d : Driver) → override_max o sqlite_defaults ≡ ok d → d ≡ sqlite_defaults
unfolding override_max
override_max_sqlite o d h = elim (Bool-cases (ltb_ℤ (pos 0) o.pool_max)) [
  | inr e ↦ sym (ok-inj (rw e at h))
  | inl e ↦ elim (Bool-cases (eqb_ℤ o.pool_max (pos 1))) [
    | inr f ↦ let k : err (sqlite_max o.pool_max) ≡ ok d = rw (e, f) at h in absurd cc
    | inl f ↦
        let one = eqb_ℤ_lem o.pool_max f in
        let k : ok (record sqlite_defaults { pool_max = o.pool_max }) ≡ ok d = rw (e, f) at h in
        sym (ok-inj k) ∙ ap (λ n. record sqlite_defaults { pool_max = n }) one
  ]
]

override_min_sqlite :
    (o : Options) (d : Driver) → override_min o sqlite_defaults ≡ ok d → d ≡ sqlite_defaults
unfolding override_min
override_min_sqlite o d h = elim (Bool-cases (ltb_ℤ (pos 0) o.pool_min)) [
  | inr e ↦ sym (ok-inj (rw e at h))
  | inl e ↦ elim (Bool-cases (eqb_ℤ o.pool_min (pos 1))) [
    | inr f ↦ let k : err (sqlite_min o.pool_min) ≡ ok d = rw (e, f) at h in absurd cc
    | inl f ↦
        let one = eqb_ℤ_lem o.pool_min f in
        let k : ok (record sqlite_defaults { pool_min = o.pool_min }) ≡ ok d = rw (e, f) at h in
        sym (ok-inj k) ∙ ap (λ n. record sqlite_defaults { pool_min = n }) one
  ]
]

-- A pool for Postgres: at least one connection, and no more kept than allowed.
abbrev pub IsPostgresPool : Driver → Type 0
IsPostgresPool d = (d.kind ≡ kind_postgres) × (pos 1 ≤ℤ d.pool_min) × (d.pool_min ≤ℤ d.pool_max)

override_max_postgres :
    (o : Options) (d : Driver)
    → override_max o postgres_defaults ≡ ok d
    → (d.kind ≡ kind_postgres) × (d.pool_min ≡ pos 2)
unfolding override_max
override_max_postgres o d h = elim (Bool-cases (ltb_ℤ (pos 0) o.pool_max)) [
  | inr e ↦
      let k = ok-inj (rw e at h) in
      (ap (λ (x : Driver). x.kind) (sym k), ap (λ (x : Driver). x.pool_min) (sym k))
  | inl e ↦
      let k = ok-inj (rw e at h) in
      (ap (λ (x : Driver). x.kind) (sym k), ap (λ (x : Driver). x.pool_min) (sym k))
]

override_min_postgres :
    (o : Options) (d d' : Driver)
    → d.kind ≡ kind_postgres
    → d.pool_min ≡ pos 2
    → override_min o d ≡ ok d'
    → (d'.kind ≡ kind_postgres) × (pos 1 ≤ℤ d'.pool_min)
unfolding override_min
override_min_postgres o d d' hk hm h = elim (Bool-cases (ltb_ℤ (pos 0) o.pool_min)) [
  | inr e ↦
      let k = ok-inj (rw e at h) in
      (
        ap (λ (x : Driver). x.kind) (sym k) ∙ hk,
        subst (λ n. pos 1 ≤ℤ n) (sym hm ∙ ap (λ (x : Driver). x.pool_min) k) (omega arith),
      )
  | inl e ↦
      let k : record d { kind = kind_postgres; pool_min = o.pool_min } ≡ d' =
        ok-inj (rw (e, hk) at h) in
      (
        ap (λ (x : Driver). x.kind) (sym k),
        subst (λ n. pos 1 ≤ℤ n) (ap (λ (x : Driver). x.pool_min) k) (ground arith),
      )
]

check_order_lem : (d d' : Driver) → check_order d ≡ ok d' → (d ≡ d') × (d.pool_min ≤ℤ d.pool_max)
unfolding check_order
check_order_lem d d' h = elim (Bool-cases (ltb_ℤ d.pool_max d.pool_min)) [
  | inl e ↦ let k : err (min_over_max d.pool_min d.pool_max) ≡ ok d' = rw e at h in absurd cc
  | inr e ↦ (ok-inj (rw e at h), ground arith)
]

stages :
    (o : Options) (d d' : Driver)
    → apply_pool_overrides o d ≡ ok d'
    → (d1 : Driver) × (d2 : Driver) × (override_max o d ≡ ok d1)
      × (override_min o d1 ≡ ok d2)
      × (check_order d2 ≡ ok d')
unfolding apply_pool_overrides
stages o d d' h = elim (Bool-cases (ltb_ℤ o.pool_max (pos 0) || ltb_ℤ o.pool_min (pos 0))) [
  | inl e ↦ let k : err (negative_pool o.pool_max o.pool_min) ≡ ok d' = rw e at h in absurd cc
  | inr e ↦
      let k : (override_max o d >>= λ d1. override_min o d1 >>= check_order) ≡ ok d' = rw e at h in
      let (d1, h1, k1) = >>=-eq-ok (override_max o d) _ k in
      let (d2, h2, k2) = >>=-eq-ok (override_min o d1) _ k1 in (d1, d2, h1, h2, k2)
]

sqlite_pool :
    (o : Options) (d : Driver) → apply_pool_overrides o sqlite_defaults ≡ ok d → d ≡ sqlite_defaults
sqlite_pool o d h =
    let (d1, d2, h1, h2, h3) = stages o sqlite_defaults d h in
    let e1 = override_max_sqlite o d1 h1 in
    let e2 = override_min_sqlite o d2 (subst (λ x. override_min o x ≡ ok d2) e1 h2) in
    sym (check_order_lem d2 d h3).0 ∙ e2

postgres_pool :
    (o : Options) (d : Driver) → apply_pool_overrides o postgres_defaults ≡ ok d → IsPostgresPool d
postgres_pool o d h =
    let (d1, d2, h1, h2, h3) = stages o postgres_defaults d h in
    let (k1, m1) = override_max_postgres o d1 h1 in
    let (k2, m2) = override_min_postgres o d1 d2 k1 m1 h2 in
    let (same, le) = check_order_lem d2 d h3 in subst IsPostgresPool same (k2, m2, le)

-- A driver that resolves is SQLite with its pool of one connection, whatever the overrides, or
-- Postgres with a pool of at least one connection that keeps no more than it allows.
pub resolve_lem :
    (o : Options) {d : Driver} → resolve o ≡ ok d → (d ≡ sqlite_defaults) ⊎ IsPostgresPool d
unfolding resolve
resolve_lem o {d} h = elim (Bool-cases (eq_str o.driver_name (codes "sqlite"))) [
  | inl e ↦ inl (sqlite_pool o d (rw e at h))
  | inr e ↦ elim (Bool-cases (eq_str o.driver_name (codes "postgres"))) [
    | inl f ↦ inr (postgres_pool o d (rw (e, f) at h))
    | inr f ↦ let k : err (unsupported o.driver_name) ≡ ok d = rw (e, f) at h in absurd cc
  ]
]
