-- ===== src/Store/Integrity.antt =====
-- indexer/internal/store: the integrity of the two tables, under every operation of the stores and any
-- outcomes of its statements.
use pulsar_app.Base.{
  ℕ, true, not, List, [], Option, Str, ℤ, eq_str, ◌≡◌, refl, sym, subst, inl, inr,
}
use pulsar_app.Store.{Outcome, Dialect, Contract, Event, Db}
use pulsar_app.Store.Contracts.{
  register, delete, set_progress, set_status, update, with_progress, new_contract,
}
use pulsar_app.Store.Contracts.Effects.{
  register_effect, delete_effect, set_progress_effect, set_status_effect, with_row, without_rows,
}
use pulsar_app.Store.Contracts.Keys.{
  KeysDiffer, has, KeysDiffer-concat, KeysDiffer-select, KeysDiffer-update, has-concat, has-without,
  has-update,
}
use pulsar_app.Store.Events.{insert}
use pulsar_app.Store.Events.Sound.{IsSound, insert-IsSound}
use pulsar_app.Store.Events.Effects.{insert-contracts}
use pulsar_app.Store.Events.References.{
  References, references_none, references_more, references_without, insert-References,
  IsSound-select, IsSound-sequence,
}

-- The events' keys and places differ, every event is of a contract in the table, and the contracts'
-- keys differ.
pub record IsIntegral (d : Dialect) (db : Db) : Type 0 where
  pub sound : IsSound d db
  pub references : References db
  pub keys : KeysDiffer db.contracts

-- Tables without an event are integral.
pub empty-IsIntegral :
    (d : Dialect) (cs : List Contract) (n : ℕ)
    → KeysDiffer cs
    → IsIntegral d (record { contracts = cs; events = []; sequence = n })
empty-IsIntegral d cs n h = record {
  sound = record { keys_ascend = tt; places_differ = tt; below_sequence = λ e. tt };
  references = references_none cs;
  keys = h;
}

module _ (d : Dialect) (db : Db) (h : IsIntegral d db) where
  -- Other contracts, with other keys, for the same events.
  with_contracts :
      (cs : List Contract)
      → KeysDiffer cs
      → ((j : Str) → has j db.contracts ≡ true → has j cs ≡ true)
      → IsIntegral d (record db { contracts = cs })
  with_contracts cs keys more = record {
    sound = record {
      keys_ascend = h.sound.keys_ascend;
      places_differ = h.sound.places_differ;
      below_sequence = h.sound.below_sequence;
    };
    references = references_more db.contracts cs db.events more h.references;
    keys = keys;
  }

  updated :
      (f : Contract → Contract) (id : Str)
      → ((c : Contract) → (f c).id ≡ c.id)
      → IsIntegral d (record db { contracts = update f id db.contracts })
  updated f id same =
      with_contracts (update f id db.contracts) (KeysDiffer-update f id same db.contracts h.keys)
        (λ j k. has-update f id same j db.contracts k)

  pub register-IsIntegral :
      (now : ℕ) (o o' : Outcome) (id : Str) → IsIntegral d (register now o o' id db).1
  register-IsIntegral now o o' id = elim (register_effect now o o' id db) [
    | inl e ↦ subst (IsIntegral d) (sym e) h
    | inr (new, e) ↦ subst (IsIntegral d) (sym e) (
        with_contracts (with_row id now db).contracts
          (KeysDiffer-concat id now db.contracts new h.keys)
          (λ j k. has-concat j (new_contract id now) db.contracts k))
  ]

  pub delete-IsIntegral : (o : Outcome) (id : Str) → IsIntegral d (delete o id db).1
  delete-IsIntegral o id = elim (delete_effect o id db) [
    | inl e ↦ subst (IsIntegral d) (sym e) h
    | inr e ↦ subst (IsIntegral d) (sym e) (record {
      sound =
          IsSound-select d (λ (e : Event). not (eq_str e.contract_id id)) db
            (without_rows id db).contracts h.sound;
      references =
          references_without id db.contracts (without_rows id db).contracts db.events
            (λ j other k. has-without id j db.contracts other k) h.references;
      keys = KeysDiffer-select (λ c. not (eq_str c.id id)) db.contracts h.keys;
    })
  ]

  pub set_progress-IsIntegral :
      (o : Outcome) (id : Str) (ledger : ℤ) → IsIntegral d (set_progress o id ledger db).1
  set_progress-IsIntegral o id ledger = elim (set_progress_effect o id ledger db) [
    | inl e ↦ subst (IsIntegral d) (sym e) h
    | inr e ↦ subst (IsIntegral d) (sym e) (updated (with_progress ledger) id (λ c. refl))
  ]

  pub set_status-IsIntegral :
      (o : Outcome) (id status : Str) → IsIntegral d (set_status o id status db).1
  set_status-IsIntegral o id status = elim (set_status_effect o id status db) [
    | inl e ↦ subst (IsIntegral d) (sym e) h
    | inr e ↦
        subst (IsIntegral d) (sym e) (updated (λ c. record c { status = status }) id (λ c. refl))
  ]

  pub insert-IsIntegral :
      (o : Outcome) (batch : List (Option Event)) → IsIntegral d (insert d o batch db).1
  insert-IsIntegral o batch = record {
    sound = insert-IsSound d o batch db h.sound;
    references = insert-References d o batch db h.references;
    keys = subst KeysDiffer (sym (insert-contracts d o batch db)) h.keys;
  }

  -- After a rollback of an insert, which restores the rows and not the sequence.
  pub rollback-IsIntegral :
      (o : Outcome) (batch : List (Option Event))
      → IsIntegral d (record db { sequence = (insert d o batch db).1.sequence })
  rollback-IsIntegral o batch = record {
    sound = IsSound-sequence d o batch db h.sound;
    references = h.references;
    keys = h.keys;
  }
