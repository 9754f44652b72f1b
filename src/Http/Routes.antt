-- ===== src/Http/Routes.antt =====
-- indexer/internal/api: NewServer and its options (server.go), and Routes (router.go), with the
-- handlers of handlers.go and graphql.go mounted. The choice that chi makes among the routes is a
-- parameter.
pub mod Runs
pub mod Guarded
pub mod Reads
pub mod Refused
pub mod Integrity
use pulsar_app.Base.{
  ℕ, Bool, true, false, ◌||◌, not, List, [], ◌∷◌, Option, none, some, Str, codes, eq_str,
  if◌then◌else◌, ℤ, pos, ltb_ℤ, Json,
}
use pulsar_app.ApiError.{new_error, code_not_found_route, code_not_found_method}
use pulsar_app.Store.{Outcome, Dialect, Db}
use pulsar_app.Api.{
  Reply, Params, handle_health, handle_list_contracts, handle_register_contract,
  handle_get_contract, handle_delete_contract, handle_list_events, handle_get_event,
}
use pulsar_app.Graphql.Handler.{GraphqlRequest, handle_graphql}
use pulsar_app.Http.{
  Raw, Call, Envelope, Payload, health_data, contracts_data, contract_data, events_data, event_data,
  write_error, write_reply,
}
use pulsar_app.Http.Chain.{returned, Context, Handler, Script, run_script, Logged, chain}
use pulsar_app.Http.Auth.{require_auth, rate_limit}

-- `Server`; the bucket of a limiter is state, and this is what it was made with.
pub record Server : Type 0 where
  pub dialect : Dialect
  pub version : Str
  pub auth_token : Str
  pub write_limiter : Option (ℤ × ℤ)
  pub read_timeout : ℤ

pub data ServerOption : Type 0 where
  with_auth_token : Str → ServerOption
  with_write_rate_limit : ℤ → ℤ → ServerOption
  with_read_timeout : ℤ → ServerOption

-- An option, applied.
pub apply_option : ServerOption → Server → Server
apply_option (with_auth_token token) s = record s { auth_token = token }
apply_option (with_write_rate_limit per_sec burst) s =
    if not (ltb_ℤ (pos 0) per_sec) || not (ltb_ℤ (pos 0) burst)
    then s
    else record s { write_limiter = some (per_sec, burst) }
apply_option (with_read_timeout d) s = record s { read_timeout = d }

pub apply_options : List ServerOption → Server → Server
unfolding apply_option
apply_options [] s = s
apply_options (o ∷ os) s = apply_options os (apply_option o s)

-- `NewServer`, without its logger
unfoldable pub new_server : Dialect → Str → List ServerOption → Server
unfolding apply_options apply_option
new_server dialect version options = apply_options options (record {
  dialect = dialect;
  version = (if eq_str version [] then codes "dev" else version);
  auth_token = [];
  write_limiter = none;
  read_timeout = pos 0;
})

pub data Endpoint : Type 0 where
  health list_contracts register_contract get_contract delete_contract : Endpoint
  list_events get_event graphql : Endpoint

-- A registration: its method and pattern, whether the write guards are mounted, and its handler.
pub record Registration : Type 0 where
  pub method : Str
  pub pattern : Str
  pub guarded : Bool
  pub endpoint : Endpoint

abbrev open_route : Str → Str → Endpoint → Registration
open_route method pattern endpoint = record {
  method = method;
  pattern = pattern;
  guarded = false;
  endpoint = endpoint;
}

abbrev write_route : Str → Str → Endpoint → Registration
write_route method pattern endpoint = record {
  method = method;
  pattern = pattern;
  guarded = true;
  endpoint = endpoint;
}

unfoldable pub registrations : List Registration
registrations =
    open_route (codes "GET") (codes "/health") health
    ∷ open_route (codes "GET") (codes "/contracts") list_contracts
    ∷ write_route (codes "POST") (codes "/contracts") register_contract
    ∷ open_route (codes "GET") (codes "/contracts/{id}") get_contract
    ∷ write_route (codes "DELETE") (codes "/contracts/{id}") delete_contract
    ∷ open_route (codes "GET") (codes "/contracts/{id}/events") list_events
    ∷ open_route (codes "GET") (codes "/events/{id}") get_event
    ∷ open_route (codes "POST") (codes "/graphql") graphql
    ∷ []

-- What chi makes of a request: a registration, by its number, with the parameter id, or one of two
-- failures.
pub data Choice : Type 0 where
  chosen : ℕ → Str → Choice
  no_route wrong_method : Choice

-- A request, with its body as each handler's decoder gives it.
pub record Request : Type 0 where
  pub method : Str
  pub path : Str
  pub authorization : Str
  pub params : Params
  pub contract_body : Option Str
  pub graphql_body : Option GraphqlRequest

-- What happens outside during a request: the time, and the outcomes of its statements.
pub record Happening : Type 0 where
  pub now : ℕ
  pub first : Outcome
  pub second : Outcome

pub record Service (L : Type 0) : Type 0 where
  pub bucket : L
  pub db : Db

-- `rs[n]`
abbrev pub nth : ℕ → List Registration → Option Registration
nth n [] = none
nth ℕ.zero (r ∷ rs) = some r
nth (ℕ.suc n) (r ∷ rs) = nth n rs

module _ (topic_text : Dialect → Json → Option Str) (exec : GraphqlRequest → Db → Option Str)
    (marshal : Envelope → Option Str) (sha256 : Str → Str)
    (route : List Registration → Str → Str → Choice) {L : Type 0} (allow : L → Bool × L) where
  finished : Service L → List Call → Script (Service L)
  finished s cs = record { calls = cs; ending = returned; state = s }

  finished_with : Service L → List Call → Db → Script (Service L)
  finished_with s cs db = record { calls = cs; ending = returned; state = record s { db = db } }

  wrote : {A : Type 0} → (A → Payload) → Service L → Reply A × Db → Script (Service L)
  unfolding finished_with write_reply
  wrote payload s (reply, db) = finished_with s (write_reply marshal payload reply) db

  -- The handler of an endpoint, run on the tables.
  pub endpoint_script :
      Server → Happening → Request → Str → Endpoint → Context → Service L → Script (Service L)
  unfolding finished wrote write_reply handle_health handle_list_contracts handle_register_contract
      handle_get_contract handle_delete_contract handle_list_events handle_get_event handle_graphql
  endpoint_script srv h req id health ctx s =
      finished s (write_reply marshal health_data (handle_health srv.version h.first s.db))
  endpoint_script srv h req id list_contracts ctx s =
      finished s (write_reply marshal contracts_data (handle_list_contracts h.first s.db))
  endpoint_script srv h req id register_contract ctx s =
      wrote contract_data s (handle_register_contract h.now h.first h.second req.contract_body s.db)
  endpoint_script srv h req id get_contract ctx s =
      finished s (write_reply marshal contract_data (handle_get_contract h.first id s.db))
  endpoint_script srv h req id delete_contract ctx s =
      wrote (λ u. nothing) s (handle_delete_contract h.first id s.db)
    where
      nothing : Payload
      nothing = contracts_data []
  endpoint_script srv h req id list_events ctx s = finished s (
      write_reply marshal events_data
        (handle_list_events topic_text srv.dialect h.first h.second req.params id s.db))
  endpoint_script srv h req id get_event ctx s =
      finished s (write_reply marshal event_data (handle_get_event h.first id s.db))
  endpoint_script srv h req id graphql ctx s =
      finished s (handle_graphql marshal exec req.graphql_body s.db)

  spend : Service L → Bool × Service L
  spend s = let (allowed, rest) = allow s.bucket in (allowed, record s { bucket = rest })

  -- `writeMiddleware`: the limiter, if there is one, outside the check of the token.
  pub write_guards : Server → Request → Handler (Service L) → Handler (Service L)
  unfolding spend require_auth rate_limit
  write_guards srv req next = elim srv.write_limiter [
    | none ↦ require_auth sha256 marshal srv.auth_token req.authorization next
    | some made ↦
        rate_limit sha256 marshal spend
          (require_auth sha256 marshal srv.auth_token req.authorization next)
  ]

  pub mounted : Server → Happening → Request → Str → Registration → Handler (Service L)
  unfolding endpoint_script write_guards run_script
  mounted srv h req id r =
      if r.guarded
      then write_guards srv req (run_script (endpoint_script srv h req id r.endpoint))
      else run_script (endpoint_script srv h req id r.endpoint)

  -- `handleNotFound` and `handleMethodNotAllowed`
  pub handle_not_found : Context → Service L → Script (Service L)
  unfolding finished write_error new_error
  handle_not_found ctx s = finished s (
      write_error marshal
        (new_error code_not_found_route (codes "No endpoint matches the request path.")))

  pub handle_method_not_allowed : Context → Service L → Script (Service L)
  unfolding finished write_error new_error
  handle_method_not_allowed ctx s = finished s (
      write_error marshal
        (new_error code_not_found_method (codes "The request path does not accept this method.")))

  pub registered_or_missing :
      Server → Happening → Request → Str → Option Registration → Handler (Service L)
  unfolding mounted handle_not_found run_script
  registered_or_missing srv h req id none = run_script handle_not_found
  registered_or_missing srv h req id (some r) = mounted srv h req id r

  pub mux : Server → Happening → Request → Choice → Handler (Service L)
  unfolding registered_or_missing handle_not_found handle_method_not_allowed registrations
      run_script
  mux srv h req (chosen n id) = registered_or_missing srv h req id (nth n registrations)
  mux srv h req no_route = run_script handle_not_found
  mux srv h req wrong_method = run_script handle_method_not_allowed

  -- `Routes`, serving one request with the new id that the logger gives it
  unfoldable pub serve :
      Server → Happening → Str → Request → Context → Raw → Service L → Logged (Service L)
  unfolding mux chain registrations
  serve srv h request_id req ctx w s =
      chain marshal srv.read_timeout request_id
        (mux srv h req (route registrations req.method req.path)) ctx w s
