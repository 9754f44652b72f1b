-- ===== src/Store/Contracts/Laws.antt =====
-- What the operations on contracts do, on every branch, and the key of the table.
use mathlib.Core.Option
use pulsar_app.Base.{
  ℕ, not, List, [], ◌∷◌, ◌++◌, none, some, ◌≡◌, ap, ◌≢◌, refl, inl, inr, arith, Str, eq_str,
  eq_str_iff, eq_str_refl, if◌then◌else◌, ℤ, ◌≤ℤ◌, ok, err, length, select, All, All-map,
  Option-cases,
}
use pulsar_app.Store.{Fault, Outcome, ran, refused, unread, not_found, engine, Contract, Db}
use pulsar_app.Store.Contracts.{
  find, get, new_contract, register, delete, update, with_progress, affected, set_progress,
  set_status, stats, ContractStats, max_ledger, coalesce_zero,
}

module _ (id j : Str) where
  pub find-update :
      (f : Contract → Contract) (cs : List Contract)
      → ((c : Contract) → (f c).id ≡ c.id)
      → find j (update f id cs) ≡ (if eq_str id j then Option.map f (find j cs) else find j cs)
  unfolding find update
  find-update f [] h = ground arith
  find-update f (c ∷ cs) h =
      ground
        (arith, find-update f cs h, h c, eq_str_iff c.id id, eq_str_iff c.id j, eq_str_iff id j)

  pub find-concat :
      (c : Contract) (cs : List Contract)
      → find j (cs ++ c ∷ []) ≡ (
          if eq_str c.id j
          then (elim (find j cs) [ none ↦ some c | some d ↦ some d ])
          else find j cs)
  unfolding find
  find-concat c [] = ground arith
  find-concat c (d ∷ cs) = ground (arith, find-concat c cs)

  pub find-without :
      (cs : List Contract)
      → find j (select (λ c. not (eq_str c.id id)) cs) ≡ (if eq_str id j then none else find j cs)
  unfolding find
  find-without [] = ground arith
  find-without (c ∷ cs) =
      ground (arith, find-without cs, eq_str_iff c.id id, eq_str_iff c.id j, eq_str_iff id j)

-- Registering a tracked contract returns its row and changes nothing, its progress included;
-- registering another appends a row with no progress, returns it, and leaves the events alone.
pub register_lem :
    (now : ℕ) (id : Str) (db : Db)
    → id ≢ []
    → register now ran ran id db ≡ (elim (find id db.contracts) [
      | some c ↦ (ok c, db)
      | none ↦ (
        ok (new_contract id now),
        record db { contracts = db.contracts ++ new_contract id now ∷ [] },
      )
    ])
unfolding register
register_lem now [] db h = absurd (h refl)
register_lem now (c ∷ s) db h = elim (Option-cases (find (c ∷ s) db.contracts)) [
  | inl e ↦ ground (
    arith,
    e,
    find-concat (c ∷ s) (c ∷ s) (new_contract (c ∷ s) now) db.contracts,
    eq_str_refl (c ∷ s),
  )
  | inr (d, e) ↦ ground (arith, e)
]

-- A second registration returns what the first one returned, and changes nothing.
pub register_idem :
    (now later : ℕ) (id : Str) (db : Db)
    → id ≢ []
    → register later ran ran id (register now ran ran id db).1 ≡ register now ran ran id db
register_idem now later id db h = elim (Option-cases (find id db.contracts)) [
  | inl e ↦ ground (
    arith,
    e,
    register_lem now id db h,
    register_lem later id (record db { contracts = db.contracts ++ new_contract id now ∷ [] }) h,
    find-concat id id (new_contract id now) db.contracts,
    eq_str_refl id,
  )
  | inr (c, e) ↦ ground (arith, e, register_lem now id db h, register_lem later id db h)
]

-- Recording progress for a tracked contract sets its last ledger and keeps a first ledger that is
-- set, and leaves every other contract, and the events, as they were.
pub set_progress_lem :
    (id : Str) (ledger : ℤ) (db : Db) {c : Contract}
    → find id db.contracts ≡ some c
    → ((set_progress ran id ledger db).0 ≡ ok tt)
      × ((set_progress ran id ledger db).1.events ≡ db.events)
      × ((j : Str)
          → get ran j (set_progress ran id ledger db).1
            ≡ (if eq_str id j then ok (with_progress ledger c) else get ran j db))
unfolding set_progress get
set_progress_lem id ledger db {c} e = (
  rw e,
  refl,
  λ j.
      ground (
        arith,
        e,
        find-update id j (with_progress ledger) db.contracts (λ c. refl),
        eq_str_iff id j,
      ),
)

-- After a delete the contract is not found and none of its events is left, and every other contract
-- and event is as it was.
pub delete_lem :
    (id : Str) (db : Db) {c : Contract}
    → find id db.contracts ≡ some c
    → ((delete ran id db).0 ≡ ok tt)
      × ((delete ran id db).1.events ≡ select (λ e. not (eq_str e.contract_id id)) db.events)
      × ((j : Str)
          → get ran j (delete ran id db).1 ≡ (if eq_str id j then err not_found else get ran j db))
unfolding delete get
delete_lem id db e =
    (ground (arith, e), ground (arith, e), λ j. ground (arith, e, find-without id j db.contracts))

update-none :
    (f : Contract → Contract) (id : Str) (cs : List Contract)
    → find id cs ≡ none
    → update f id cs ≡ cs
unfolding find update
update-none f id [] h = refl
update-none f id (c ∷ cs) h = ground (arith, update-none f id cs)

-- For a contract that is not tracked, delete, progress and status all report ErrNotFound and leave
-- the tables as they were.
pub untracked_lem :
    (id status : Str) (ledger : ℤ) (db : Db)
    → find id db.contracts ≡ none
    → (delete ran id db ≡ (err not_found, db))
      × (set_progress ran id ledger db ≡ (err not_found, db))
      × (set_status ran id status db ≡ (err not_found, db))
unfolding delete set_progress set_status
untracked_lem id status ledger db e = (
  ground (arith, e),
  ground (arith, e, update-none (with_progress ledger) id db.contracts e),
  ground (arith, e, update-none (λ c. record c { status = status }) id db.contracts e),
)

-- A statement that the engine refuses has no effect, in any of the operations that write.
pub refused_lem :
    (now : ℕ) (id status : Str) (ledger : ℤ) (db : Db) (f : Fault)
    → id ≢ []
    → (register now (refused f) ran id db ≡ (err (engine f), db))
      × (delete (refused f) id db ≡ (err (engine f), db))
      × (set_progress (refused f) id ledger db ≡ (err (engine f), db))
      × (set_status (refused f) id status db ≡ (err (engine f), db))
unfolding register delete set_progress set_status
refused_lem now [] status ledger db f h = absurd (h refl)
refused_lem now (c ∷ s) status ledger db f h = (refl, refl, refl, refl)

max_ledger_bound :
    (cs : List Contract) → All (λ c. c.last_indexed_ledger ≤ℤ coalesce_zero (max_ledger cs)) cs
unfolding max_ledger coalesce_zero
max_ledger_bound [] = tt
max_ledger_bound (c ∷ cs) = elim (Option-cases (max_ledger cs)) [
  | inl e ↦ (ground (arith, e), All-map (λ d h. ground (arith, e)) cs (none_max cs e))
  | inr (m, e) ↦ (ground (arith, e), All-map (λ d h. ground (arith, e)) cs (max_ledger_bound cs))
]
  where
    none_max : (cs : List Contract) → max_ledger cs ≡ none → All (λ c. ⊥) cs
    none_max [] e = tt
    none_max (d ∷ ds) e = absurd (elim (Option-cases (max_ledger ds)) [
      | inl o ↦ ground (arith, o)
      | inr (m, o) ↦ ground (arith, o)
    ])

-- The health figures: the number of contracts, and a ledger that no contract is ahead of.
pub stats_lem :
    (db : Db)
    → (s : ContractStats) × (stats ran db ≡ ok s)
      × (s.count ≡ length db.contracts)
      × All (λ c. c.last_indexed_ledger ≤ℤ s.latest_ledger) db.contracts
unfolding stats
stats_lem db = (
  record { count = length db.contracts; latest_ledger = coalesce_zero (max_ledger db.contracts) },
  refl,
  refl,
  max_ledger_bound db.contracts,
)

-- Recording progress succeeds only for a statement that ran, and for a tracked contract.
pub set_progress-eq-ok :
    (o : Outcome) (id : Str) (ledger : ℤ) (db db' : Db)
    → set_progress o id ledger db ≡ (ok tt, db')
    → (o ≡ ran) × ((c : Contract) × (find id db.contracts ≡ some c))
unfolding set_progress affected
set_progress-eq-ok (refused f) id ledger db db' h =
    let e : err (engine f) ≡ ok tt = ap (λ p. p.0) h in cc
set_progress-eq-ok (unread f) id ledger db db' h =
    let e : err (engine f) ≡ ok tt = ap (λ p. p.0) h in cc
set_progress-eq-ok ran id ledger db db' h = elim (Option-cases (find id db.contracts)) [
  | inr (c, e) ↦ (refl, (c, e))
  | inl e ↦
      let k : affected ran (find id db.contracts) ≡ ok tt = ap (λ p. p.0) h in
      let m : err not_found ≡ ok tt = rw e at k in absurd cc
]
