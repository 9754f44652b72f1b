-- ===== src/ApiError.antt =====
-- indexer/internal/apierror/apierror.go: the catalog of error codes. A code is a Go string, and the
-- map `registry` an association list.
mod Tests
pub mod Catalog
use pulsar_app.Base.{
  lt_str, sort_by, ℕ, Bool, List, [], ◌∷◌, ◌++◌, Option, none, some, Str, codes, lookup, is_some,
}

pub data Class : Type 0 where
  validation not_found rate_limited unauthorized internal : Class

abbrev pub Code : Type 0
Code = Str

abbrev pub code_internal_panic : Code
code_internal_panic = codes "INTERNAL_PANIC"

abbrev pub code_not_found_route : Code
code_not_found_route = codes "NOT_FOUND_ROUTE"

abbrev pub code_not_found_method : Code
code_not_found_method = codes "NOT_FOUND_METHOD"

abbrev pub code_internal_store : Code
code_internal_store = codes "INTERNAL_STORE"

abbrev pub code_validation_contract_id : Code
code_validation_contract_id = codes "VALIDATION_CONTRACT_ID"

abbrev pub code_validation_body : Code
code_validation_body = codes "VALIDATION_BODY"

abbrev pub code_not_found_contract : Code
code_not_found_contract = codes "NOT_FOUND_CONTRACT"

abbrev pub code_validation_limit : Code
code_validation_limit = codes "VALIDATION_LIMIT"

abbrev pub code_validation_cursor : Code
code_validation_cursor = codes "VALIDATION_CURSOR"

abbrev pub code_validation_order : Code
code_validation_order = codes "VALIDATION_ORDER"

abbrev pub code_validation_ledger_range : Code
code_validation_ledger_range = codes "VALIDATION_LEDGER_RANGE"

abbrev pub code_validation_filter : Code
code_validation_filter = codes "VALIDATION_FILTER"

abbrev pub code_validation_event_id : Code
code_validation_event_id = codes "VALIDATION_EVENT_ID"

abbrev pub code_not_found_event : Code
code_not_found_event = codes "NOT_FOUND_EVENT"

abbrev pub code_unauthorized : Code
code_unauthorized = codes "UNAUTHORIZED"

abbrev pub code_rate_limited : Code
code_rate_limited = codes "RATE_LIMITED"

-- `entry`: a code's class, HTTP status and one-line meaning.
pub record Entry : Type 0 where
  pub class : Class
  pub status : ℕ
  pub meaning : Str

abbrev entry : Class → ℕ → Str → Entry
entry c s m = record { class = c; status = s; meaning = m }

unfoldable pub registry : List (Code × Entry)
registry =
    (
      code_internal_panic,
      entry internal 500 (
          codes
            "The indexer hit an unexpected condition and recovered. The failure is logged server-side; retrying may succeed."),
    )
    ∷ (code_not_found_route, entry not_found 404 (codes "No endpoint matches the request path."))
    ∷ (
      code_not_found_method,
      entry not_found 404 (codes "The request path exists but does not accept this method."),
    )
    ∷ (
      code_internal_store,
      entry internal 500 (
          codes
            "The indexer could not reach its store to answer the request. The failure is logged server-side; retrying may succeed."),
    )
    ∷ (
      code_validation_contract_id,
      entry validation 400 (
          codes
            "The contract ID is not a well-formed Soroban contract ID: the letter C followed by 55 base32 characters."),
    )
    ∷ (
      code_validation_body,
      entry validation 400 (
          codes
            "The request body is missing, is not the JSON object the endpoint expects, or is too large."),
    )
    ∷ (
      code_not_found_contract,
      entry not_found 404 (codes "The indexer is not tracking the requested contract."),
    )
    ∷ (
      code_validation_limit,
      entry validation 400 (codes "The limit query parameter is not an integer between 1 and 500."),
    )
    ∷ (
      code_validation_cursor,
      entry validation 400 (
          codes
            "The cursor query parameter is not a value returned by a prior page's next_cursor."),
    )
    ∷ (
      code_validation_order,
      entry validation 400 (codes "The order query parameter is neither asc nor desc."),
    )
    ∷ (
      code_validation_ledger_range,
      entry validation 400 (
          codes
            "A ledger bound is negative or not an integer, or from_ledger is greater than to_ledger."),
    )
    ∷ (
      code_validation_filter,
      entry validation 400 (
          codes
            "The name or topic_contains query parameter is not valid UTF-8 or contains a NUL byte."),
    )
    ∷ (
      code_validation_event_id,
      entry validation 400 (codes "The event id is not a run of digits."),
    )
    ∷ (
      code_not_found_event,
      entry not_found 404 (codes "The indexer has not stored an event with the requested id."),
    )
    ∷ (
      code_unauthorized,
      entry unauthorized 401 (
          codes
            "The request to a write route is missing its bearer token or the token is not valid."),
    )
    ∷ (
      code_rate_limited,
      entry rate_limited 429 (
          codes
            "The write surface is receiving requests faster than its configured rate; retry after a short wait."),
    )
    ∷ []

-- `Code.Class`, `Code.Status`, `Code.Meaning` and `Code.Registered`.
class_of : Option Entry → Class
class_of none = internal
class_of (some e) = e.class

unfoldable pub code_class : Code → Class
unfolding class_of
code_class c = class_of (lookup c registry)

status_of : Option Entry → ℕ
status_of none = 500
status_of (some e) = e.status

unfoldable pub code_status : Code → ℕ
unfolding status_of
code_status c = status_of (lookup c registry)

meaning_of : Option Entry → Str
meaning_of none = []
meaning_of (some e) = e.meaning

unfoldable pub code_meaning : Code → Str
unfolding meaning_of
code_meaning c = meaning_of (lookup c registry)

unfoldable pub code_registered : Code → Bool
code_registered c = is_some (lookup c registry)

keys : List (Code × Entry) → List Code
keys [] = []
keys ((c, e) ∷ m) = c ∷ keys m

-- `Codes`: the keys of the map, sorted by `sort.Slice`.
unfoldable pub all_codes : List Code
unfolding keys
all_codes = sort_by lt_str (keys registry)

-- An `*apierror.Error`. The cause is any Go error.
pub record ApiError (E : Type 0) : Type 0 where
  pub code : Code
  pub message : Str
  pub cause : Option E

module _ {E : Type 0} where
  unfoldable pub new_error : Code → Str → ApiError E
  new_error c m = record { code = c; message = m; cause = none }

  unfoldable pub wrap_error : Code → Str → E → ApiError E
  wrap_error c m e = record { code = c; message = m; cause = some e }

  error_text : Code → Str → (E → Str) → Option E → Str
  error_text c m show none = c ++ codes ": " ++ m
  error_text c m show (some e) = c ++ codes ": " ++ m ++ codes ": " ++ show e

  -- `Error.Error`; `show` is the cause's own rendering.
  unfoldable pub error_string : (E → Str) → ApiError E → Str
  unfolding error_text
  error_string show e = error_text e.code e.message show e.cause

  unfoldable pub error_class : ApiError E → Class
  unfolding code_class
  error_class e = code_class e.code

  unfoldable pub error_status : ApiError E → ℕ
  unfolding code_status
  error_status e = code_status e.code
