-- ===== src/Rpc.antt =====
-- indexer/internal/rpc: client.go and events.go. The RPC server is an interface, `Caller`; the
-- protocol's cursor, the reading of a timestamp, and the XDR library are parameters where they are
-- used.
pub mod Tests
pub mod Client
pub mod Assemble
pub mod Transaction
pub mod Poller
pub mod Backoff
use pulsar_app.Base.{ℕ, Bool, List, Option, Str, ℤ, negsuc, eqb_ℤ, Result}
use pulsar_app.Store.{Fault, StoreError}

-- `protocol.EventInfo`, the fields that are read. The ledger is an int32.
pub record EventInfo : Type 0 where
  pub id : Str
  pub ledger : ℤ
  pub ledger_closed_at : Str
  pub transaction_hash : Str
  pub topic_xdr : List Str
  pub value_xdr : Str
  pub in_successful_contract_call : Bool

-- `protocol.GetEventsRequest` with one filter: a ledger of zero is unset.
pub record Request (Cursor : Type 0) : Type 0 where
  pub start_ledger : ℕ
  pub contract_id : Str
  pub cursor : Option Cursor
  pub limit : ℕ

-- `protocol.GetEventsResponse`
pub record Response : Type 0 where
  pub events : List EventInfo
  pub cursor : Str

-- `protocol.GetHealthResponse`
pub record Health : Type 0 where
  pub latest_ledger : ℕ
  pub oldest_ledger : ℕ

-- An error of a call: its `jrpc2.ErrorCode`, and the context error in its chain, if there is one.
pub record CallError : Type 0 where
  pub code : ℤ
  pub context : Option Fault

-- `Caller`, over the state of the server.
pub record Caller (Cursor Server : Type 0) : Type 0 where
  pub get_events : Request Cursor → Server → Result CallError Response × Server
  pub get_health : Server → Result CallError Health × Server

-- The errors of the package, each with what it wraps.
pub data PollError : Type 0 where
  call : CallError → PollError
  bad_page_cursor : Str → PollError
  window : CallError → PollError
  from_floor : PollError → PollError
  not_outside : ℕ → Health → CallError → PollError
  reading_progress inserting advancing : StoreError → PollError
  beginning committing : Fault → PollError

-- `rangeErrorCode`: -32600
abbrev pub range_error_code : ℤ
range_error_code = negsuc 32599

-- `IsRangeError` of an error of `GetEvents`, which wraps a call's error.
unfoldable pub is_range_error : CallError → Bool
is_range_error e = eqb_ℤ e.code range_error_code
