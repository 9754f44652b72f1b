-- ===== src/Rpc/Backoff.antt =====
-- indexer/internal/rpc/events.go: nextBackoff, and the waits of the loop of run. Durations are
-- numbers of nanoseconds; a wait is at most a minute, so doubling one does not overflow an int64.
use pulsar_app.Base.{
  ℕ, zero, suc, ◌*◌, ◌≤◌, Bool, true, false, List, [], ◌∷◌, ltb, if◌then◌else◌, ◌≡◌, refl, sym, ap,
  ◌∙◌, arith, All,
}

-- `maxBackoff`: 60 seconds.
abbrev pub max_backoff : ℕ
max_backoff = 60000000000

abbrev backoff_exponent : ℕ
backoff_exponent = 2

-- `nextBackoff`
unfoldable pub next_backoff : ℕ → ℕ → ℕ
next_backoff current floor =
    let next = current * backoff_exponent in
    if ltb max_backoff next then max_backoff else if ltb next floor then floor else next

-- One tick of `run`, which failed or did not: the wait before the next tick, and the new backoff.
unfoldable pub after_tick : ℕ → Bool → ℕ → ℕ × ℕ
unfolding next_backoff
after_tick interval true backoff = (backoff, next_backoff backoff interval)
after_tick interval false backoff = (interval, interval)

-- The waits of `run` after ticks that failed (`true`) or did not.
unfoldable pub waits : ℕ → ℕ → List Bool → List ℕ
unfolding after_tick
waits interval backoff [] = []
waits interval backoff (failed ∷ ticks) =
    let (wait, next) = after_tick interval failed backoff in wait ∷ waits interval next ticks

next_backoff_bounds :
    (interval b : ℕ)
    → interval ≤ max_backoff
    → interval ≤ b
    → (interval ≤ next_backoff b interval) × (next_backoff b interval ≤ max_backoff)
unfolding next_backoff
next_backoff_bounds interval b h hl = (ground arith, ground arith)

waits_from :
    (interval b : ℕ) (ticks : List Bool)
    → interval ≤ max_backoff
    → interval ≤ b
    → b ≤ max_backoff
    → All (λ w. (interval ≤ w) × (w ≤ max_backoff)) (waits interval b ticks)
unfolding waits after_tick
waits_from interval b [] h hl hu = tt
waits_from interval b (true ∷ ts) h hl hu =
    let (l, u) = next_backoff_bounds interval b h hl in
    ((hl, hu), waits_from interval (next_backoff b interval) ts h l u)
waits_from interval b (false ∷ ts) h hl hu =
    ((omega arith, h), waits_from interval interval ts h (omega arith) h)

-- From the start of `run`, no wait is below the interval nor above a minute, for an interval of at
-- most a minute.
pub waits_bounds :
    (interval : ℕ) (ticks : List Bool)
    → interval ≤ max_backoff
    → All (λ w. (interval ≤ w) × (w ≤ max_backoff)) (waits interval interval ticks)
waits_bounds interval ticks h = waits_from interval interval ticks h (omega arith) h

abbrev pub failures : ℕ → List Bool
failures zero = []
failures (suc n) = true ∷ failures n

abbrev pub capped : ℕ → ℕ
capped n = if ltb max_backoff n then max_backoff else n

-- While ticks fail, the waits double from the interval up to a minute.
abbrev pub doubling : ℕ → ℕ → List ℕ
doubling zero b = []
doubling (suc n) b = capped b ∷ doubling n (b * 2)

next_backoff-capped :
    (interval b : ℕ)
    → interval ≤ max_backoff
    → interval ≤ b
    → next_backoff (capped b) interval ≡ capped (b * 2)
unfolding next_backoff
next_backoff-capped interval b h hl = ground arith

waits-failures :
    (interval b n : ℕ)
    → interval ≤ max_backoff
    → interval ≤ b
    → waits interval (capped b) (failures n) ≡ doubling n b
unfolding waits after_tick
waits-failures interval b zero h hl = refl
waits-failures interval b (suc n) h hl =
    rw (next_backoff-capped interval b h hl)
      (rw (waits-failures interval (b * 2) n h (omega arith)))

-- After a tick that did not fail, whatever the backoff was, the waits of a run of failures start from
-- the interval and double, up to a minute.
pub waits_reset :
    (interval b n : ℕ)
    → interval ≤ max_backoff
    → waits interval b (false ∷ failures n) ≡ interval ∷ doubling n interval
unfolding waits after_tick
waits_reset interval b n h =
    let same : capped interval ≡ interval = ground arith in
    ap (◌∷◌ interval) (
      ap (λ c. waits interval c (failures n)) (sym same)
      ∙ waits-failures interval interval n h (omega arith))
