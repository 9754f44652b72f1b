-- ===== src/Store/Contracts/Effects.antt =====
-- indexer/internal/store/contracts.go: what each operation can do to the tables, whatever the engine does.
use pulsar_app.Base.{
  ℕ, not, [], ◌∷◌, ◌++◌, Option, none, some, Str, ℤ, eq_str, select, ◌≡◌, refl, ◌⊎◌, inl, inr,
}
use pulsar_app.Store.{Outcome, ran, refused, unread, Contract, Db}
use pulsar_app.Store.Contracts.{
  find, new_contract, insert_contract, read_back, register, without, delete, update, with_progress,
  effect, set_progress, set_status,
}

abbrev pub with_row : Str → ℕ → Db → Db
with_row id now db = record db { contracts = db.contracts ++ new_contract id now ∷ [] }

abbrev chosen : Option Contract → Db → Db → Db
chosen o found absent = elim o as (λ _. Db) [ some d ↦ found | none ↦ absent ]

insert_effect :
    (id : Str) (now : ℕ) (db : Db)
    → (insert_contract id now db ≡ db)
      ⊎ ((find id db.contracts ≡ none) × (insert_contract id now db ≡ with_row id now db))
unfolding insert_contract
insert_effect id now db = cases (find id db.contracts) refl
  where
    cases :
        (o : Option Contract)
        → find id db.contracts ≡ o
        → (chosen o db (with_row id now db) ≡ db)
          ⊎ ((find id db.contracts ≡ none)
              × (chosen o db (with_row id now db) ≡ with_row id now db))
    cases (some d) h = inl refl
    cases none h = inr (h, refl)

-- A registration changes nothing, or adds a row whose key is new.
pub register_effect :
    (now : ℕ) (o o' : Outcome) (id : Str) (db : Db)
    → ((register now o o' id db).1 ≡ db)
      ⊎ ((find id db.contracts ≡ none) × ((register now o o' id db).1 ≡ with_row id now db))
unfolding register read_back
register_effect now o o' [] db = inl refl
register_effect now (refused f) o' (b ∷ s) db = inl refl
register_effect now ran o' (b ∷ s) db = insert_effect (b ∷ s) now db
register_effect now (unread f) o' (b ∷ s) db = insert_effect (b ∷ s) now db

abbrev pub without_rows : Str → Db → Db
without_rows id db = record db {
  contracts = select (λ c. not (eq_str c.id id)) db.contracts;
  events = select (λ e. not (eq_str e.contract_id id)) db.events;
}

without_effect : (id : Str) (db : Db) → (without id db ≡ db) ⊎ (without id db ≡ without_rows id db)
unfolding without
without_effect id db = cases (find id db.contracts)
  where
    cases :
        (o : Option Contract)
        → (chosen o (without_rows id db) db ≡ db)
          ⊎ (chosen o (without_rows id db) db ≡ without_rows id db)
    cases none = inl refl
    cases (some c) = inr refl

-- A deletion changes nothing, or removes the contract's row and its events.
pub delete_effect :
    (o : Outcome) (id : Str) (db : Db)
    → ((delete o id db).1 ≡ db) ⊎ ((delete o id db).1 ≡ without_rows id db)
unfolding delete effect
delete_effect (refused f) id db = inl refl
delete_effect ran id db = without_effect id db
delete_effect (unread f) id db = without_effect id db

-- Progress and status change nothing, or one column of the contract's row.
pub set_progress_effect :
    (o : Outcome) (id : Str) (ledger : ℤ) (db : Db)
    → ((set_progress o id ledger db).1 ≡ db)
      ⊎ ((set_progress o id ledger db).1
          ≡ record db { contracts = update (with_progress ledger) id db.contracts })
unfolding set_progress effect
set_progress_effect (refused f) id ledger db = inl refl
set_progress_effect ran id ledger db = inr refl
set_progress_effect (unread f) id ledger db = inr refl

pub set_status_effect :
    (o : Outcome) (id status : Str) (db : Db)
    → ((set_status o id status db).1 ≡ db)
      ⊎ ((set_status o id status db).1
          ≡ record db { contracts = update (λ c. record c { status = status }) id db.contracts })
unfolding set_status effect
set_status_effect (refused f) id status db = inl refl
set_status_effect ran id status db = inr refl
set_status_effect (unread f) id status db = inr refl
