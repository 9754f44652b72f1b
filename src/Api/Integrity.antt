-- ===== src/Api/Integrity.antt =====
-- indexer/internal/api/handlers.go: the two handlers that write and the integrity of the tables.
use pulsar_app.Base.{ℕ, Option, none, some, Str, Result, ok, err}
use pulsar_app.Validate.{Sentinel, contract_id}
use pulsar_app.Store.{Outcome, Dialect, Contract, Db, Done}
use pulsar_app.Store.Contracts.{register, delete}
use pulsar_app.Store.Integrity.{IsIntegral, register-IsIntegral, delete-IsIntegral}
use pulsar_app.Api.{
  registered, register_checked, handle_register_contract, deleted, delete_checked,
  handle_delete_contract,
}

module _ (d : Dialect) (db : Db) (h : IsIntegral d db) where
  registered_lem : (x : Done Contract) → IsIntegral d x.1 → IsIntegral d (registered x).1
  unfolding registered
  registered_lem (ok c, db') k = k
  registered_lem (err e, db') k = k

  register_checked_lem :
      (now : ℕ) (o o' : Outcome) (id : Str) (x : Result Sentinel (Unit {0}))
      → IsIntegral d (register_checked now o o' id x db).1
  unfolding register_checked
  register_checked_lem now o o' id (err e) = h
  register_checked_lem now o o' id (ok u) =
      registered_lem (register now o o' id db) (register-IsIntegral d db h now o o' id)

  pub handle_register_contract-IsIntegral :
      (now : ℕ) (o o' : Outcome) (body : Option Str)
      → IsIntegral d (handle_register_contract now o o' body db).1
  unfolding handle_register_contract
  handle_register_contract-IsIntegral now o o' none = h
  handle_register_contract-IsIntegral now o o' (some id) =
      register_checked_lem now o o' id (contract_id id)

  deleted_lem : (x : Done (Unit {0})) → IsIntegral d x.1 → IsIntegral d (deleted x).1
  unfolding deleted
  deleted_lem (ok u, db') k = k
  deleted_lem (err e, db') k = k

  delete_checked_lem :
      (o : Outcome) (id : Str) (x : Result Sentinel (Unit {0}))
      → IsIntegral d (delete_checked o id x db).1
  unfolding delete_checked
  delete_checked_lem o id (err e) = h
  delete_checked_lem o id (ok u) = deleted_lem (delete o id db) (delete-IsIntegral d db h o id)

  pub handle_delete_contract-IsIntegral :
      (o : Outcome) (id : Str) → IsIntegral d (handle_delete_contract o id db).1
  unfolding handle_delete_contract
  handle_delete_contract-IsIntegral o id = delete_checked_lem o id (contract_id id)
