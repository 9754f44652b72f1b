-- ===== src/Store/Events/Found.antt =====
-- indexer/internal/store/events.go: a stored event is found by its key.
use pulsar_app.Base.{
  true, false, List, [], ◌∷◌, some, ltb, pos, eqb_ℤ, ok, ◌≡◌, refl, inl, inr, arith, All, Ordered,
  Bool-cases,
}
use pulsar_app.Store.{ran, Event, Db}
use pulsar_app.Store.Events.{same_place, taken, find_event, get, event_or_not_found}

-- A row at the place of `x` that is found by its own key, and that has whatever all the rows have.
abbrev IsFoundIn : List Event → Event → Type 1
IsFoundIn rows x =
    (r : Event) × (same_place r x ≡ true)
    × (find_event (pos r.id) rows ≡ some r)
    × ((P : Event → Type 0) → All P rows → P r)

found_later :
    (h : Event) (rows : List Event) (x : Event)
    → All (λ r. ltb h.id r.id ≡ true) rows
    → IsFoundIn rows x
    → IsFoundIn (h ∷ rows) x
unfolding find_event
found_later h rows x above (r, at_place, found, has) =
    let past : ltb h.id r.id ≡ true = has (λ r. ltb h.id r.id ≡ true) above in
    let other : eqb_ℤ (pos h.id) (pos r.id) ≡ false = ground arith in
    (r, at_place, rw other found, λ P (_, ps). has P ps)

-- Where the keys ascend, a place that is taken is that of a row that its key finds.
taken-IsFoundIn :
    (rows : List Event) (x : Event)
    → Ordered (λ a b. ltb a.id b.id) rows
    → taken x rows ≡ true
    → IsFoundIn rows x
unfolding taken find_event
taken-IsFoundIn [] x o h = absurd cc
taken-IsFoundIn (r ∷ rows) x (above, o) h = elim (Bool-cases (same_place r x)) [
  | inl e ↦
      let self : eqb_ℤ (pos r.id) (pos r.id) ≡ true = ground arith in
      (r, e, rw self refl, λ P (p, _). p)
  | inr e ↦ found_later r rows x above (taken-IsFoundIn rows x o (rw e at h))
]

-- A row at the place of `x` that a read of its key returns, and that has whatever all the rows have.
abbrev pub IsFound : Db → Event → Type 1
IsFound db x =
    (r : Event) × (same_place r x ≡ true)
    × (get ran (pos r.id) db ≡ ok r)
    × ((P : Event → Type 0) → All P db.events → P r)

-- Where the keys ascend, a place that is taken is that of a row that a read of its key returns.
pub taken-IsFound :
    (db : Db) (x : Event)
    → Ordered (λ a b. ltb a.id b.id) db.events
    → taken x db.events ≡ true
    → IsFound db x
unfolding get event_or_not_found
taken-IsFound db x ascend h =
    let (r, at_place, found, has) = taken-IsFoundIn db.events x ascend h in
    (r, at_place, rw found refl, has)
