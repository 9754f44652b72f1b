-- ===== src/Database/Open/Laws.antt =====
-- indexer/internal/db: what a database handle that was opened has: its pragmas, its encryption, its
-- pool.
use pulsar_app.Base.{
  Bool, true, false, not, List, [], ◌∷◌, ◌++◌, append-nil, append_assoc, Option, none, some, Str,
  codes, eq_str, contains, has_prefix, trim_space, Result, ok, >>=-eq-ok, fail_if, ◌≡◌, inl, inr,
  refl, sym, ap, ◌∙◌, subst, arith, Bool-cases, All, map, select,
}
use pulsar_app.Database.Driver.{Driver}
use pulsar_app.Database.Open.{
  OpenError, DsnUrl, PgConfig, Handle, Pragma, sqlite_pragmas, pragma_key, pragma_values, join,
  add_pragmas, any_plain, require_encrypted_connection, pragmas_of, append_pragmas, parsed_or_bad,
  open_postgres, empty_url,
}

has_prefix-append : (s t p : Str) → has_prefix s p ≡ true → has_prefix (s ++ t) p ≡ true
unfolding has_prefix
has_prefix-append s t [] h = refl
has_prefix-append [] t (c ∷ p) h = absurd cc
has_prefix-append (x ∷ s) t (c ∷ p) h = ground (arith, has_prefix-append s t p)

contains-left : (s t p : Str) → contains s p ≡ true → contains (s ++ t) p ≡ true
unfolding contains
contains-left [] [] p h = h
contains-left [] (y ∷ t) p h = ground (arith, has_prefix-append [] (y ∷ t) p h)
contains-left (x ∷ s) t p h = ground (arith, has_prefix-append (x ∷ s) t p, contains-left s t p)

contains-right : (s t p : Str) → contains t p ≡ true → contains (s ++ t) p ≡ true
unfolding contains
contains-right [] t p h = h
contains-right (x ∷ s) t p h = ground (arith, contains-right s t p h)

pragma_values-concat :
    (q : List (Str × Str)) (v : Str)
    → pragma_values (q ++ (pragma_key, v) ∷ []) ≡ pragma_values q ++ v ∷ []
pragma_values-concat [] v = refl
pragma_values-concat ((k, u) ∷ q) v = elim (Bool-cases (eq_str k pragma_key)) [
  | inl e ↦ rw e (ap (λ l. u ∷ l) (pragma_values-concat q v))
  | inr e ↦ rw e (pragma_values-concat q v)
]

join-concat :
    (a : Str) (vs : List Str) (v : Str) → join (a ∷ (vs ++ v ∷ [])) ≡ join (a ∷ vs) ++ b' ' ∷ v
join-concat a [] v = refl
join-concat a (b ∷ vs) v =
    ap (λ l. a ++ b' ' ∷ l) (join-concat b vs v)
    ∙ sym (append_assoc a (b' ' ∷ join (b ∷ vs)) (b' ' ∷ v))

join_old :
    (vs : List Str) (v w : Str)
    → contains (join vs) w ≡ true
    → contains (join (vs ++ v ∷ [])) w ≡ true
join_old [] v w h = contains-left [] v w h
join_old (a ∷ vs) v w h = rw (join-concat a vs v) (contains-left (join (a ∷ vs)) (b' ' ∷ v) w h)

join_new :
    (vs : List Str) (v w : Str) → contains v w ≡ true → contains (join (vs ++ v ∷ [])) w ≡ true
join_new [] v w h = h
join_new (a ∷ vs) v w h =
    rw (join-concat a vs v)
      (contains-right (join (a ∷ vs)) (b' ' ∷ v) w (contains-right (b' ' ∷ []) v w h))

-- The pragmas of a query, as they are looked at, have the word in them.
abbrev pub Sets : Str → List (Str × Str) → Type 0
Sets w q = contains (join (pragma_values q)) w ≡ true

old-Sets :
    (w : Str) (q : List (Str × Str)) (v : Str) → Sets w q → Sets w (q ++ (pragma_key, v) ∷ [])
old-Sets w q v h = rw (pragma_values-concat q v) (join_old (pragma_values q) v w h)

new-Sets :
    (w : Str) (q : List (Str × Str)) (v : Str)
    → contains v w ≡ true
    → Sets w (q ++ (pragma_key, v) ∷ [])
new-Sets w q v h = rw (pragma_values-concat q v) (join_new (pragma_values q) v w h)

add_pragmas-Sets :
    (e : Str) (ps : List Pragma) (q : List (Str × Str)) (w : Str)
    → Sets w q
    → Sets w (add_pragmas e ps q)
unfolding add_pragmas
add_pragmas-Sets e [] q w h = h
add_pragmas-Sets e (p ∷ ps) q w h = elim (Bool-cases (contains e (p.name ++ codes "("))) [
  | inl k ↦ rw k (add_pragmas-Sets e ps q w h)
  | inr k ↦ rw k (add_pragmas-Sets e ps (q ++ (pragma_key, p.text) ∷ []) w (old-Sets w q p.text h))
]

-- The text of a pragma has its name in it.
abbrev IsNamed : Pragma → Type 0
IsNamed p = contains p.text (p.name ++ codes "(") ≡ true

all_set :
    (e : Str) (ps : List Pragma) (q : List (Str × Str))
    → All IsNamed ps
    → ((w : Str) → contains e w ≡ true → Sets w q)
    → All (λ p. Sets (p.name ++ codes "(") (add_pragmas e ps q)) ps
unfolding add_pragmas
all_set e [] q named kept = tt
all_set e (p ∷ ps) q (n, named) kept = elim (Bool-cases (contains e (p.name ++ codes "("))) [
  | inl k ↦
      let same : add_pragmas e (p ∷ ps) q ≡ add_pragmas e ps q = rw k refl in
      subst (λ out. All (λ p. Sets (p.name ++ codes "(") out) (p ∷ ps)) (sym same)
        (
          add_pragmas-Sets e ps q (p.name ++ codes "(") (kept (p.name ++ codes "(") k),
          all_set e ps q named kept,
        )
  | inr k ↦
      let q' = q ++ (pragma_key, p.text) ∷ [] in
      let same : add_pragmas e (p ∷ ps) q ≡ add_pragmas e ps q' = rw k refl in
      subst (λ out. All (λ p. Sets (p.name ++ codes "(") out) (p ∷ ps)) (sym same)
        (
          add_pragmas-Sets e ps q' (p.name ++ codes "(")
              (new-Sets (p.name ++ codes "(") q p.text n),
          all_set e ps q' named (λ w h. old-Sets w q p.text (kept w h)),
        )
]

add_pragmas-eq :
    (e : Str) (ps : List Pragma) (q : List (Str × Str))
    → add_pragmas e ps q
      ≡ q
        ++ map
            (λ (p : Pragma). (pragma_key, p.text))
            (select (λ (p : Pragma). not (contains e (p.name ++ codes "("))) ps)
unfolding add_pragmas
add_pragmas-eq e [] q = sym (append-nil q)
add_pragmas-eq e (p ∷ ps) q = elim (Bool-cases (contains e (p.name ++ codes "("))) [
  | inl k ↦ rw k (add_pragmas-eq e ps q)
  | inr k ↦ rw k (
      add_pragmas-eq e ps (q ++ (pragma_key, p.text) ∷ [])
      ∙ append_assoc q ((pragma_key, p.text) ∷ []) (
          map (λ (p : Pragma). (pragma_key, p.text))
            (select (λ (p : Pragma). not (contains e (p.name ++ codes "("))) ps)))
]

ok-inj {ℓ} : {A : Type ℓ} {a b : A} → ◌≡◌ {A = Result OpenError A} (ok a) (ok b) → a ≡ b
ok-inj h = cc

module _ (url_parse : Str → Option DsnUrl) (url_string : DsnUrl → Str) (driver_open : Str → Bool)
    (parse_config : Str → Option PgConfig) where
  -- The URL that SQLite is opened with is the operator's, with its own settings first and then each
  -- of the three pragmas that it does not name, so that all three are set in it.
  pub append_pragmas_lem :
      (dsn : Str) {u : DsnUrl} {out : Str}
      → url_parse dsn ≡ some u
      → append_pragmas url_parse url_string driver_open parse_config dsn ≡ ok out
      → (q : List (Str × Str)) × (out ≡ url_string (record u { query = q }))
        × (q
            ≡ u.query
              ++ map
                  (λ (p : Pragma). (pragma_key, p.text))
                  (select
                    (λ (p : Pragma).
                      not (contains (join (pragma_values u.query)) (p.name ++ codes "(")))
                    sqlite_pragmas))
        × All (λ p. Sets (p.name ++ codes "(") q) sqlite_pragmas
  unfolding append_pragmas
  append_pragmas_lem dsn {u} {out} parsed h =
      let e = join (pragma_values u.query) in
      let q = add_pragmas e sqlite_pragmas u.query in
      let k : pragmas_of url_parse url_string driver_open parse_config (some u) ≡ ok out =
        ap (pragmas_of url_parse url_string driver_open parse_config) (sym parsed) ∙ h in
      (
        q,
        unfold pragmas_of in sym (ok-inj k),
        add_pragmas-eq e sqlite_pragmas u.query,
        all_set e sqlite_pragmas u.query named (λ w kept. kept),
      )
    where
      named : All IsNamed sqlite_pragmas
      named = unfold contains has_prefix in (refl, (refl, (refl, tt)))

  any_plain-All : (fs : List Bool) → any_plain fs ≡ false → All (λ tls. tls ≡ true) fs
  unfolding any_plain
  any_plain-All [] h = tt
  any_plain-All (true ∷ fs) h = (refl, any_plain-All fs h)
  any_plain-All (false ∷ fs) h = absurd cc

  encrypted :
      (cfg : PgConfig) {t : Unit {0}}
      → require_encrypted_connection cfg ≡ ok t
      → (cfg.tls ≡ true) × All (λ tls. tls ≡ true) cfg.fallbacks
  unfolding require_encrypted_connection
  encrypted cfg h = (ground (arith, h), any_plain-All cfg.fallbacks (ground (arith, h)))

  parsed_lem :
      (o : Option PgConfig) {cfg : PgConfig}
      → parsed_or_bad url_parse url_string driver_open parse_config o ≡ ok cfg
      → o ≡ some cfg
  unfolding parsed_or_bad
  parsed_lem none h = absurd cc
  parsed_lem (some c) h = ap some (ok-inj h)

  -- A Postgres handle that is opened without the permission for insecure connections comes of a
  -- connection string every way of which has TLS: the connection's own and each fallback; and its
  -- pool has the driver's bounds.
  pub open_postgres_lem :
      (d : Driver) (dsn : Str) {handle : Handle}
      → open_postgres url_parse url_string driver_open parse_config d dsn false ≡ ok handle
      → (cfg : PgConfig) × (parse_config dsn ≡ some cfg)
        × (cfg.tls ≡ true)
        × All (λ tls. tls ≡ true) cfg.fallbacks
        × (handle.max_open ≡ d.pool_max)
        × (handle.max_idle ≡ d.pool_min)
  unfolding open_postgres
  open_postgres_lem d dsn {handle} h =
      let (_, h1, k1) = >>=-eq-ok (fail_if (eq_str (trim_space dsn) []) empty_url) _ h in
      let (cfg, h2, k2) =
        >>=-eq-ok (parsed_or_bad url_parse url_string driver_open parse_config (parse_config dsn)) _
          k1 in
      let (_, h3, k3) = >>=-eq-ok (require_encrypted_connection cfg) _ k2 in
      let (tls, fallbacks) = encrypted cfg h3 in
      let same = ok-inj k3 in
      (
        cfg,
        parsed_lem (parse_config dsn) h2,
        tls,
        fallbacks,
        ap (λ (x : Handle). x.max_open) (sym same),
        ap (λ (x : Handle). x.max_idle) (sym same),
      )
