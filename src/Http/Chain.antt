-- ===== src/Http/Chain.antt =====
-- indexer/internal/api: RequestLogger and Recoverer of middleware.go, SecurityHeaders and
-- ReadDeadline of authz.go, and the chain that Routes makes of them. Log lines are left out but for
-- the status.
pub mod Wire
pub mod Outcome
pub mod Panics
use pulsar_app.Base.{
  ℕ, Bool, false, List, Option, none, some, Str, codes, if◌then◌else◌, ℤ, pos, ltb_ℤ,
}
use pulsar_app.ApiError.{ApiError, code_internal_panic, new_error}
use pulsar_app.Store.{StoreError}
use pulsar_app.Http.{
  Raw, Call, set_header, Writer, plain, recorded, call, calls, Envelope, write_error,
}

-- How a handler ends: it returns, it panics with a value, or it panics with http.ErrAbortHandler.
pub data Ending : Type 0 where
  returned aborted : Ending
  panicked : Str → Ending

-- What a request's context carries: `requestIDKey`, and the time left, if it is limited.
pub record Context : Type 0 where
  pub request_id : Str
  pub time_left : Option ℤ

pub record Answer (S : Type 0) : Type 0 where
  pub ending : Ending
  pub writer : Writer
  pub state : S

-- An http.Handler at one request: the context, the response, and the state that it changes.
abbrev pub Handler : Type 0 → Type 0
Handler S = Context → Writer → S → Answer S

-- A handler's own run: the calls that it makes on its response, how it ends, and the state after it.
pub record Script (S : Type 0) : Type 0 where
  pub calls : List Call
  pub ending : Ending
  pub state : S

unfoldable pub run_script : {S : Type 0} → (Context → S → Script S) → Handler S
unfolding calls
run_script body ctx w s =
    let done = body ctx s in
    record { ending = done.ending; writer = calls done.calls w; state = done.state }

abbrev pub panic_error : ApiError StoreError
unfolding new_error
panic_error = new_error code_internal_panic (codes "Internal server error")

-- `SecurityHeaders`
unfoldable pub security_headers : {S : Type 0} → Handler S → Handler S
unfolding call
security_headers next ctx w s =
    next ctx (call (set_header (codes "X-Content-Type-Options") (codes "nosniff")) w) s

-- context.WithTimeout: the earlier of two limits.
tighten : ℤ → Option ℤ → Option ℤ
tighten d none = some d
tighten d (some e) = some (if ltb_ℤ e d then e else d)

-- `ReadDeadline`
unfoldable pub read_deadline : ℤ → {S : Type 0} → Handler S → Handler S
unfolding tighten
read_deadline d next ctx w s =
    if ltb_ℤ (pos 0) d
    then next (record ctx { time_left = tighten d ctx.time_left }) w s
    else next ctx w s

-- `rec, ok := w.(*responseRecorder); ok && rec.wroteHeader`
has_begun : Writer → Bool
has_begun (plain w) = false
has_begun (recorded r) = r.wrote_header

module _ (marshal : Envelope → Option Str) where
  recovered : {S : Type 0} → Ending → Answer S → Answer S
  unfolding has_begun write_error calls
  recovered returned a = a
  recovered aborted a = a
  recovered (panicked v) a = record a {
    ending = returned;
    writer =
        (if has_begun a.writer then a.writer else calls (write_error marshal panic_error) a.writer);
  }

  -- `Recoverer`
  unfoldable pub recoverer : {S : Type 0} → Handler S → Handler S
  unfolding recovered
  recoverer next ctx w s = let a = next ctx w s in recovered a.ending a

-- The response as the server has it, how the request ended, and the status logged, if a line was.
pub record Logged (S : Type 0) : Type 0 where
  pub ending : Ending
  pub raw : Raw
  pub status : Option ℕ
  pub state : S

raw_of : Writer → Raw
raw_of (plain w) = w
raw_of (recorded r) = r.raw

-- The handlers inside keep the recorder that they are given.
status_of : Ending → Writer → Option ℕ
status_of returned (plain w) = none
status_of returned (recorded r) = some r.status
status_of _ w = none

-- `RequestLogger`, with the new id of the request
unfoldable pub request_logger : Str → {S : Type 0} → Handler S → Context → Raw → S → Logged S
unfolding call raw_of status_of
request_logger id next ctx w s =
    let named = raw_of (call (set_header (codes "X-Request-Id") id) (plain w)) in
    let a =
      next (record ctx { request_id = id })
        (recorded (record { raw = named; status = 200; wrote_header = false })) s in
    record {
      ending = a.ending;
      raw = raw_of a.writer;
      status = status_of a.ending a.writer;
      state = a.state;
    }

-- The surface-wide chain of `Routes`
unfoldable pub chain :
    (Envelope → Option Str) → ℤ → Str → {S : Type 0} → Handler S → Context → Raw → S → Logged S
unfolding request_logger security_headers read_deadline recoverer
chain marshal timeout id mux =
    request_logger id (security_headers (read_deadline timeout (recoverer marshal mux)))
