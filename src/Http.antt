-- ===== src/Http.antt =====
-- indexer/internal/api: the response writer of net/http with the responseRecorder of middleware.go
-- around it, and the envelopes of response.go. What a handler does to its response is a list of
-- calls.
pub mod Chain
pub mod Auth
pub mod Routes
pub mod Tests
use pulsar_app.Base.{
  ℕ, Bool, true, false, not, ◌&&◌, ◌||◌, ◌+◌, ◌-◌, ◌==◌, leb, List, [], ◌∷◌, ◌++◌, Option, none,
  some, Str, codes, eq_str, if◌then◌else◌,
}
use pulsar_app.ApiError.{ApiError, Class, Code, error_status, error_class}
use pulsar_app.Store.{StoreError, Contract, Event}
use pulsar_app.Api.{Reply, data_reply, no_content, error_reply, HealthPayload}

-- The status line and the headers that are on the wire.
pub record Sent : Type 0 where
  pub status : ℕ
  pub header : List (Str × Str)

-- The server's own http.ResponseWriter.
pub record Raw : Type 0 where
  pub header : List (Str × Str)
  pub sent : Option Sent
  pub body : Str

-- What a handler does to its response. WriteHeader panics on a code under 100 or over 999, which is
-- then how the handler ends.
pub data Call : Type 0 where
  set_header : Str → Str → Call
  write_header : ℕ → Call
  write : Str → Call

abbrev is_lower : ℕ → Bool
is_lower c = leb b'a' c && leb c b'z'

abbrev is_upper : ℕ → Bool
is_upper c = leb b'A' c && leb c b'Z'

abbrev one_of : Str → ℕ → Bool
one_of [] c = false
one_of (d ∷ s) c = d == c || one_of s c

-- The bytes of a token, of which the name of a header is made.
abbrev is_token_byte : ℕ → Bool
is_token_byte c =
    is_lower c || is_upper c || leb b'0' c && leb c b'9' || one_of (codes "!#$%&'*+-.^_`|~") c

abbrev is_token : Str → Bool
is_token [] = true
is_token (c ∷ s) = is_token_byte c && is_token s

-- A letter is upper case at the start and after a dash, and lower case elsewhere.
abbrev canonical_bytes : Bool → Str → Str
canonical_bytes start [] = []
canonical_bytes start (c ∷ s) =
    (if start && is_lower c then c - 32 else if not start && is_upper c then c + 32 else c)
    ∷ canonical_bytes (c == b'-') s

-- textproto.CanonicalMIMEHeaderKey: a key with a byte that is of no token stays as it is.
abbrev pub canonical_key : Str → Str
canonical_key k = if is_token k then canonical_bytes true k else k

set_value : Str → Str → List (Str × Str) → List (Str × Str)
set_value k v [] = (k, v) ∷ []
set_value k v ((k', v') ∷ h) =
    let rest = set_value k v h in if eq_str k' k then (k, v) ∷ h else (k', v') ∷ rest

-- http.Header.Set
pub set_key : Str → Str → List (Str × Str) → List (Str × Str)
unfolding set_value
set_key k v h = set_value (canonical_key k) v h

raw_begin : ℕ → Option Sent → Raw → Raw
raw_begin n (some s) w = w
raw_begin n none w = record w { sent = some (record { status = n; header = w.header }) }

-- A status that net/http sends at once, and after which the response still takes its own. 101 is not
-- one of them.
abbrev pub is_informational : ℕ → Bool
is_informational n = leb 100 n && leb n 199 && not (n == 101)

-- The first header that is not informational is the one that is sent, and a body without one is sent
-- under 200.
pub raw_call : Call → Raw → Raw
unfolding set_key raw_begin
raw_call (set_header k v) w = record w { header = set_key k v w.header }
raw_call (write_header n) w = if is_informational n then w else raw_begin n w.sent w
raw_call (write b) w = let begun = raw_begin 200 w.sent w in record begun { body = begun.body ++ b }

-- `responseRecorder`
pub record Recorder : Type 0 where
  pub raw : Raw
  pub status : ℕ
  pub wrote_header : Bool

-- `responseRecorder.WriteHeader`
pub recorder_write_header : ℕ → Recorder → Recorder
unfolding raw_call
recorder_write_header n r =
    if r.wrote_header
    then r
    else record { raw = raw_call (write_header n) r.raw; status = n; wrote_header = true }

-- `responseRecorder.Write`
pub recorder_write : Str → Recorder → Recorder
unfolding raw_call recorder_write_header
recorder_write b r =
    let begun = if r.wrote_header then r else recorder_write_header 200 r in
    record begun { raw = raw_call (write b) begun.raw }

-- A call of the recorder; Header is that of the writer inside.
unfoldable pub recorder_call : Call → Recorder → Recorder
unfolding raw_call recorder_write_header recorder_write
recorder_call (set_header k v) r = record r { raw = raw_call (set_header k v) r.raw }
recorder_call (write_header n) r = recorder_write_header n r
recorder_call (write b) r = recorder_write b r

pub data Writer : Type 0 where
  plain : Raw → Writer
  recorded : Recorder → Writer

unfoldable pub call : Call → Writer → Writer
unfolding raw_call recorder_call
call c (plain w) = plain (raw_call c w)
call c (recorded r) = recorded (recorder_call c r)

unfoldable pub calls : List Call → Writer → Writer
unfolding call
calls [] w = w
calls (c ∷ cs) w = calls cs (call c w)

-- The data of a success envelope: each handler's own.
pub data Payload : Type 0 where
  health_data : HealthPayload → Payload
  contracts_data : List Contract → Payload
  contract_data : Contract → Payload
  events_data : List Event → Payload
  event_data : Event → Payload

-- `dataEnvelope` without the time taken, `errorEnvelope`, and the body of a GraphQL transport error.
pub data Envelope : Type 0 where
  data_envelope : Payload → Option Str → Envelope
  error_envelope : Class → Str → Code → Envelope
  transport_envelope : Str → Envelope

abbrev pub last_resort_error : Str
last_resort_error =
    codes
      "{\"error\":{\"code\":\"internal\",\"message\":\"response encoding failed\",\"details\":{\"code\":\"INTERNAL_PANIC\"}}}"

abbrev pub json_type : Call
json_type = set_header (codes "Content-Type") (codes "application/json; charset=utf-8")

abbrev pub envelope_of : ApiError StoreError → Envelope
unfolding error_class
envelope_of e = error_envelope (error_class e) e.message e.code

-- json.Marshal is a parameter: the text of an envelope, or an error.
module _ (marshal : Envelope → Option Str) where
  -- `writeJSON`
  unfoldable pub write_json : ℕ → Envelope → List Call
  write_json status body = elim (marshal body) [
    | none ↦ json_type ∷ write_header 500 ∷ write last_resort_error ∷ []
    | some payload ↦ json_type ∷ write_header status ∷ write payload ∷ []
  ]

  -- `writeError`
  unfoldable pub write_error : ApiError StoreError → List Call
  unfolding write_json error_status
  write_error e = write_json (error_status e) (envelope_of e)

  -- `writeData` and `writeDataPaged`
  unfoldable pub write_data : ℕ → Payload → Option Str → List Call
  unfolding write_json
  write_data status payload next_cursor = write_json status (data_envelope payload next_cursor)

  unfoldable pub write_reply : {A : Type 0} → (A → Payload) → Reply A → List Call
  unfolding write_data write_error
  write_reply payload (data_reply status a next_cursor) = write_data status (payload a) next_cursor
  write_reply payload no_content = write_header 204 ∷ []
  write_reply payload (error_reply e) = write_error e
