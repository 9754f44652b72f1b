-- ===== src/Rpc/Client.antt =====
-- indexer/internal/rpc/client.go: Client, the Caller over a server. The library's client that it
-- calls is a parameter, itself in the form of a Caller; its HTTP transport and Close have no part
-- in the model.
use pulsar_app.Base.{Str, codes, ◌++◌, Result, ok, err, ◌≡◌, refl}
use pulsar_app.Rpc.{Request, Response, Health, CallError, Caller}

-- An error with the texts that `fmt.Errorf` puts before it; each is wrapped with %w.
pub data ClientError : Type 0 where
  of_call : CallError → ClientError
  wrapped : Str → ClientError → ClientError

-- What `jrpc2.ErrorCode` and `errors.Is` find at the end of the chain.
unfoldable pub cause : ClientError → CallError
cause (of_call e) = e
cause (wrapped text e) = cause e

pub record Client (Cursor Server : Type 0) : Type 0 where
  pub inner : Caller Cursor Server
  pub url : Str

-- `NewClient`, once the library's client is built
unfoldable pub new_client :
    {Cursor Server : Type 0} → Str → Caller Cursor Server → Client Cursor Server
new_client rpc_url inner = record { inner = inner; url = rpc_url }

with_context :
    Str → {A Server : Type 0} → Result CallError A × Server → Result ClientError A × Server
with_context text (ok a, s) = (ok a, s)
with_context text (err e, s) = (err (wrapped text (of_call e)), s)

-- `Client.GetEvents`
unfoldable pub get_events :
    {Cursor Server : Type 0}
    → Client Cursor Server
    → Request Cursor
    → Server
    → Result ClientError Response × Server
unfolding with_context
get_events c req s = with_context (codes "rpc: getEvents from " ++ c.url) (c.inner.get_events req s)

-- `Client.GetHealth`
unfoldable pub get_health :
    {Cursor Server : Type 0} → Client Cursor Server → Server → Result ClientError Health × Server
unfolding with_context
get_health c s = with_context (codes "rpc: getHealth from " ++ c.url) (c.inner.get_health s)

with_cause : {A Server : Type 0} → Result ClientError A × Server → Result CallError A × Server
with_cause (ok a, s) = (ok a, s)
with_cause (err e, s) = (err (cause e), s)

-- A client as the poller sees it, which reads of an error only what stands at the end of its chain.
unfoldable pub caller_of : {Cursor Server : Type 0} → Client Cursor Server → Caller Cursor Server
unfolding get_events get_health with_cause
caller_of c = record {
  get_events = λ req s. with_cause (get_events c req s);
  get_health = λ s. with_cause (get_health c s);
}

with_cause-with_context :
    (text : Str) {A Server : Type 0} (r : Result CallError A × Server)
    → with_cause (with_context text r) ≡ r
unfolding with_cause with_context cause
with_cause-with_context text (ok a, s) = refl
with_cause-with_context text (err e, s) = refl

-- The poller sees through a client what the library's client answers: the wrapping of an error
-- keeps its code, by which a range error is told, and the context error in it.
caller_of-new_client :
    {Cursor Server : Type 0} (url : Str) (inner : Caller Cursor Server) (req : Request Cursor)
    (s : Server)
    → ((caller_of (new_client url inner)).get_events req s ≡ inner.get_events req s)
      × ((caller_of (new_client url inner)).get_health s ≡ inner.get_health s)
unfolding caller_of new_client get_events get_health
caller_of-new_client url inner req s = (
  with_cause-with_context (codes "rpc: getEvents from " ++ url) (inner.get_events req s),
  with_cause-with_context (codes "rpc: getHealth from " ++ url) (inner.get_health s),
)
