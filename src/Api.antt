-- ===== src/Api.antt =====
-- indexer/internal/api/handlers.go: the handlers over the stores. A request's parameters are texts;
-- a body is what the JSON decoder gave for the field contract_id. Log lines and the time taken are
-- left out.
pub mod Tests
pub mod Answers
pub mod Served
pub mod Integrity
pub mod Paging
pub mod Request
use pulsar_app.Base.{
  ℕ, Bool, true, false, List, Option, none, some, Str, codes, ℤ, Json, Result, ok, err, ◌>>=◌, ◌>>◌,
  map_err,
}
use pulsar_app.ApiError.{
  ApiError, Code, new_error, code_internal_store, code_validation_body, code_validation_contract_id,
  code_not_found_contract, code_validation_event_id, code_not_found_event,
}
use pulsar_app.Validate.{Sentinel, event_id, contract_id}
use pulsar_app.Store.{Outcome, StoreError, not_found, Dialect, Contract, Event, Db, Done}
use pulsar_app.Store.Contracts.{ContractStats, stats, list, register, delete}
use pulsar_app.Store.Contracts as Contracts
use pulsar_app.Store.Events as Events
use pulsar_app.Store.Query.{EventsPage, query}
unfoldable pub use pulsar_app.Api.Request.{parse_event_query}
pub use pulsar_app.Api.Request.{
  fail, Params, limit_param, order_param, cursor_param, from_param, to_param, name_param,
  topic_param, window_check,
}

-- What a handler writes: data with a status and the next cursor, no content, or an error.
pub data Reply (A : Type 0) : Type 0 where
  data_reply : ℕ → A → Option Str → Reply A
  no_content : Reply A
  error_reply : ApiError StoreError → Reply A

bad_contract_id : ApiError StoreError
unfolding new_error
bad_contract_id =
    new_error code_validation_contract_id
      (codes "The contract ID is not a well-formed Soroban contract ID.")

-- `errors.Is(err, store.ErrNotFound)`, or any other failure of the store.
store_error : Code → Str → Str → StoreError → ApiError StoreError
unfolding new_error
store_error code missing message not_found = new_error code missing
store_error code missing message e = new_error code_internal_store message

reply_with {ℓ} :
    {A : Type 0} {B : Type ℓ} → (B → Reply A) → Result (ApiError StoreError) B → Reply A
reply_with f (ok b) = f b
reply_with f (err e) = error_reply e

-- `healthPayload`
pub record HealthPayload : Type 0 where
  pub healthy : Bool
  pub version : Str
  pub latest_ledger : ℤ
  pub tracked_contracts : ℕ

-- `handleHealth`
unfoldable pub handle_health : Str → Outcome → Db → Reply HealthPayload
unfolding stats reply_with new_error
handle_health version o db =
    reply_with
      (λ (s : ContractStats).
        data_reply 200
          (record {
            healthy = true;
            version = version;
            latest_ledger = s.latest_ledger;
            tracked_contracts = s.count;
          })
          none)
      (map_err (λ e. new_error code_internal_store (codes "The indexer could not read its status."))
        (stats o db))

-- `handleListContracts`
unfoldable pub handle_list_contracts : Outcome → Db → Reply (List Contract)
unfolding list reply_with new_error
handle_list_contracts o db =
    reply_with (λ cs. data_reply 200 cs none)
      (map_err
        (λ e. new_error code_internal_store (codes "The indexer could not list its contracts."))
        (list o db))

registered : Done Contract → Reply Contract × Db
unfolding new_error
registered (ok c, db) = (data_reply 200 c none, db)
registered (err e, db) = (
  error_reply
      (new_error code_internal_store (codes "The indexer could not register the contract.")),
  db,
)

register_checked :
    ℕ → Outcome → Outcome → Str → Result Sentinel (Unit {0}) → Db → Reply Contract × Db
unfolding register registered new_error
register_checked now o o' id (err e) db = (
  error_reply (
      new_error code_validation_contract_id
        (codes "The contract_id is not a well-formed Soroban contract ID.")),
  db,
)
register_checked now o o' id (ok u) db = registered (register now o o' id db)

-- `handleRegisterContract`
unfoldable pub handle_register_contract :
    ℕ → Outcome → Outcome → Option Str → Db → Reply Contract × Db
unfolding contract_id register_checked new_error
handle_register_contract now o o' none db = (
  error_reply (
      new_error code_validation_body
        (codes "The request body must be a JSON object of the form {\"contract_id\": \"C...\"}.")),
  db,
)
handle_register_contract now o o' (some id) db = register_checked now o o' id (contract_id id) db

-- `handleGetContract`
unfoldable pub handle_get_contract : Outcome → Str → Db → Reply Contract
unfolding contract_id Contracts.get reply_with bad_contract_id store_error
handle_get_contract o id db =
    reply_with (λ c. data_reply 200 c none)
      (do
        map_err (λ e. bad_contract_id) (contract_id id)
        map_err
            (store_error code_not_found_contract
              (codes "The indexer is not tracking this contract.")
              (codes "The indexer could not read the contract."))
            (Contracts.get o id db))

deleted : Done (Unit {0}) → Reply (Unit {0}) × Db
unfolding store_error
deleted (ok u, db) = (no_content, db)
deleted (err e, db) = (
  error_reply (
      store_error code_not_found_contract (codes "The indexer is not tracking this contract.")
        (codes "The indexer could not delete the contract.") e),
  db,
)

delete_checked : Outcome → Str → Result Sentinel (Unit {0}) → Db → Reply (Unit {0}) × Db
unfolding delete deleted bad_contract_id
delete_checked o id (err e) db = (error_reply bad_contract_id, db)
delete_checked o id (ok u) db = deleted (delete o id db)

-- `handleDeleteContract`
unfoldable pub handle_delete_contract : Outcome → Str → Db → Reply (Unit {0}) × Db
unfolding contract_id delete_checked
handle_delete_contract o id db = delete_checked o id (contract_id id) db

module _ (topic_text : Dialect → Json → Option Str) where
  -- `handleListEvents`
  unfoldable pub handle_list_events :
      Dialect → Outcome → Outcome → Params → Str → Db → Reply (List Event)
  unfolding contract_id parse_event_query Contracts.get query reply_with bad_contract_id store_error
      new_error
  handle_list_events d o o' p id db =
      reply_with (λ (page : EventsPage). data_reply 200 page.events page.next_cursor)
        (do
          map_err (λ e. bad_contract_id) (contract_id id)
          q ← parse_event_query p id
          _ ←
              map_err
                (store_error code_not_found_contract
                  (codes "The indexer is not tracking this contract.")
                  (codes "The indexer could not read the contract."))
                (Contracts.get o id db)
          map_err
              (λ e.
                new_error code_internal_store
                  (codes "The indexer could not read the contract's events."))
              (query topic_text d o' q db))

-- `handleGetEvent`
unfoldable pub handle_get_event : Outcome → Str → Db → Reply Event
unfolding event_id Events.get reply_with store_error new_error
handle_get_event o raw db =
    reply_with (λ e. data_reply 200 e none)
      (do
        id ←
            map_err
              (λ e.
                new_error code_validation_event_id
                  (codes "The event ID must be a non-negative integer."))
              (event_id raw)
        map_err
            (store_error code_not_found_event (codes "No event has this ID.")
              (codes "The indexer could not read the event."))
            (Events.get o id db))
