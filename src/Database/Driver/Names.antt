-- ===== src/Database/Driver/Names.antt =====
-- indexer/internal/db/db.go: what Resolve may say of a supported name, and the kinds that it gives.
use pulsar_app.Base.{
  Bool, true, false, ◌&&◌, ◌||◌, not, codes, if◌then◌else◌, pos, ltb_ℤ, eqb_ℤ, Result, ok, err,
  ◌>>=◌, ◌≡◌, ◌⊎◌, inl, inr,
}
use pulsar_app.Database.Driver.{
  Driver, Options, DriverError, unsupported, negative_pool, sqlite_max, sqlite_min, min_over_max,
  is_sqlite, override_max, override_min, check_order, apply_pool_overrides, sqlite_defaults,
  postgres_defaults, resolve,
}

-- The error is about the sizes of the pool.
abbrev pub IsPoolError : DriverError → Type 0
IsPoolError (unsupported name) = ⊥
IsPoolError _ = Unit

abbrev pub ErrsWith : {A : Type 0} → Result DriverError A → Type 0
ErrsWith (ok a) = Unit
ErrsWith (err e) = IsPoolError e

ErrsWith->>= :
    {A B : Type 0} (m : Result DriverError A) (k : A → Result DriverError B)
    → ErrsWith m
    → ((a : A) → ErrsWith (k a))
    → ErrsWith (m >>= k)
ErrsWith->>= (ok a) k h f = f a
ErrsWith->>= (err e) k h f = h

ErrsWith-if :
    {A : Type 0} (b : Bool) (r r' : Result DriverError A)
    → ErrsWith r
    → ErrsWith r'
    → ErrsWith (if b then r else r')
ErrsWith-if true r r' h h' = h
ErrsWith-if false r r' h h' = h'

override_max-ErrsWith : (o : Options) (d : Driver) → ErrsWith (override_max o d)
unfolding override_max
override_max-ErrsWith o d =
    ErrsWith-if (ltb_ℤ (pos 0) o.pool_max) _ (ok d)
      (ErrsWith-if (is_sqlite d.kind && not (eqb_ℤ o.pool_max (pos 1)))
        (err (sqlite_max o.pool_max)) (ok (record d { pool_max = o.pool_max })) tt tt)
      tt

override_min-ErrsWith : (o : Options) (d : Driver) → ErrsWith (override_min o d)
unfolding override_min
override_min-ErrsWith o d =
    ErrsWith-if (ltb_ℤ (pos 0) o.pool_min) _ (ok d)
      (ErrsWith-if (is_sqlite d.kind && not (eqb_ℤ o.pool_min (pos 1)))
        (err (sqlite_min o.pool_min)) (ok (record d { pool_min = o.pool_min })) tt tt)
      tt

apply-ErrsWith : (o : Options) (d : Driver) → ErrsWith (apply_pool_overrides o d)
unfolding apply_pool_overrides check_order
apply-ErrsWith o d =
    ErrsWith-if (ltb_ℤ o.pool_max (pos 0) || ltb_ℤ o.pool_min (pos 0))
      (err (negative_pool o.pool_max o.pool_min)) _ tt
      (ErrsWith->>= (override_max o d) _ (override_max-ErrsWith o d) (λ d1.
        ErrsWith->>= (override_min o d1) check_order (override_min-ErrsWith o d1) (λ d2.
          ErrsWith-if (ltb_ℤ d2.pool_max d2.pool_min) (err (min_over_max d2.pool_min d2.pool_max))
            (ok d2) tt tt)))

pub resolve-ErrsWith :
    (o : Options)
    → (o.driver_name ≡ codes "sqlite") ⊎ (o.driver_name ≡ codes "postgres")
    → ErrsWith (resolve o)
unfolding resolve
resolve-ErrsWith o (inl e) = rw e (apply-ErrsWith o sqlite_defaults)
resolve-ErrsWith o (inr e) = rw e (apply-ErrsWith o postgres_defaults)
