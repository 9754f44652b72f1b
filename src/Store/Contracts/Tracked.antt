-- ===== src/Store/Contracts/Tracked.antt =====
-- indexer/internal/store/contracts.go: Register and Get under any outcomes.
use pulsar_app.Base.{
  ℕ, Bool, true, false, [], ◌∷◌, ◌++◌, Option, none, some, Str, eq_str, if◌then◌else◌, ok, err, ◌≡◌,
  inl, inr, refl, ap, ◌∙◌, Option-cases,
}
use pulsar_app.Store.{Outcome, ran, refused, unread, Contract, Db, not_found}
use pulsar_app.Store.Contracts.{
  find, get, or_not_found, new_contract, insert_contract, read_back, register,
}
use pulsar_app.Store.Contracts.Laws.{find-concat}

-- What is read of a contract depends only on the contracts.
pub get-contracts :
    (j : Str) (db db' : Db) → db'.contracts ≡ db.contracts → get ran j db' ≡ get ran j db
unfolding get
get-contracts j db db' h = ap (λ cs. or_not_found (find j cs)) h

insert_keeps :
    (id : Str) (now : ℕ) (db : Db) (j : Str) {c : Contract}
    → find j db.contracts ≡ some c
    → find j (insert_contract id now db).contracts ≡ some c
unfolding insert_contract
insert_keeps id now db j {c} h = cases (find id db.contracts)
  where
    either : (b : Bool) → (if b then some c else some c) ≡ some c
    either true = refl
    either false = refl

    kept :
        (if eq_str id j
          then (elim (find j db.contracts) [ none ↦ some (new_contract id now) | some d ↦ some d ])
          else find j db.contracts)
        ≡ some c
    kept = rw h (either (eq_str id j))

    cases :
        (o : Option Contract)
        → find j
            (elim o as (λ _. Db) [
              | some d ↦ db
              | none ↦ record db { contracts = db.contracts ++ new_contract id now ∷ [] }
            ]).contracts
          ≡ some c
    cases (some d) = h
    cases none = find-concat id j (new_contract id now) db.contracts ∙ kept

get_found :
    (o : Outcome) (id : Str) (db : Db) {c : Contract}
    → get o id db ≡ ok c
    → find id db.contracts ≡ some c
unfolding get or_not_found
get_found ran id db {c} h = elim (Option-cases (find id db.contracts)) [
  | inl e ↦ let k : err not_found ≡ ok c = rw e at h in absurd cc
  | inr (d, e) ↦ let k : ok d ≡ ok c = rw e at h in e ∙ cc
]
get_found (refused f) id db h = absurd cc
get_found (unread f) id db h = absurd cc

inserted_events : (id : Str) (now : ℕ) (db : Db) → (insert_contract id now db).events ≡ db.events
unfolding insert_contract
inserted_events id now db = cases (find id db.contracts)
  where
    cases :
        (o : Option Contract)
        → (elim o as (λ _. Db) [
          | some d ↦ db
          | none ↦ record db { contracts = db.contracts ++ new_contract id now ∷ [] }
        ]).events
          ≡ db.events
    cases (some d) = refl
    cases none = refl

-- A contract that Register reports is in the table after it.
pub register_found :
    (now : ℕ) (o o' : Outcome) (id : Str) (db : Db) {c : Contract}
    → (register now o o' id db).0 ≡ ok c
    → find id (register now o o' id db).1.contracts ≡ some c
unfolding register read_back
register_found now o o' [] db h = absurd cc
register_found now (refused f) o' (b ∷ s) db h = absurd cc
register_found now ran o' (b ∷ s) db h = get_found o' (b ∷ s) (insert_contract (b ∷ s) now db) h
register_found now (unread f) o' (b ∷ s) db h =
    get_found o' (b ∷ s) (insert_contract (b ∷ s) now db) h

-- Register loses no contract and changes none.
pub register_keeps :
    (now : ℕ) (o o' : Outcome) (id : Str) (db : Db) (j : Str) {c : Contract}
    → find j db.contracts ≡ some c
    → find j (register now o o' id db).1.contracts ≡ some c
unfolding register read_back
register_keeps now o o' [] db j h = h
register_keeps now (refused f) o' (b ∷ s) db j h = h
register_keeps now ran o' (b ∷ s) db j h = insert_keeps (b ∷ s) now db j h
register_keeps now (unread f) o' (b ∷ s) db j h = insert_keeps (b ∷ s) now db j h

-- Register touches no event.
pub register-events :
    (now : ℕ) (o o' : Outcome) (id : Str) (db : Db) → (register now o o' id db).1.events ≡ db.events
unfolding register read_back
register-events now o o' [] db = refl
register-events now (refused f) o' (b ∷ s) db = refl
register-events now ran o' (b ∷ s) db = inserted_events (b ∷ s) now db
register-events now (unread f) o' (b ∷ s) db = inserted_events (b ∷ s) now db

-- A contract that is tracked is read as before after any registration.
pub get-register :
    (now : ℕ) (o o' : Outcome) (id : Str) (db : Db) (j : Str) {c : Contract}
    → get ran j db ≡ ok c
    → get ran j (register now o o' id db).1 ≡ ok c
unfolding get or_not_found
get-register now o o' id db j h =
    let found = register_keeps now o o' id db j (get_found ran j db h) in rw found refl
