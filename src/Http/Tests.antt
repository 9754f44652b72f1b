-- ===== src/Http/Tests.antt =====
-- Examples of the HTTP surface: one deletion, with and without the token, and a read.
use pulsar_app.Base.{
  ℕ, zero, suc, Bool, true, false, List, [], ◌∷◌, Option, none, some, Str, codes, pos, Json, ◌≡◌,
  ◌≢◌, ◌↔◌, ◌⊎◌, refl, trim_space,
}
use pulsar_app.Store.{Dialect, sqlite, ran, Db}
use pulsar_app.Store.Contracts.{new_contract}
use pulsar_app.Api.{Params}
use pulsar_app.Graphql.Handler.{GraphqlRequest}
use pulsar_app.Http.{Raw, set_header, Envelope}
use pulsar_app.Http.Chain.{returned, panicked, Context, Script, run_script, Logged, chain}
use pulsar_app.Http.Chain.Wire.{wire_status, Carries}
use pulsar_app.Http.Chain.Panics.{panic_text, chain-panicked, chain-headers}
use pulsar_app.Http.Auth.{
  bearer_token, bearer_prefix, equal_fold, admits, bearer_token_iff, admits_iff,
}
use pulsar_app.Http.Routes.{
  Server, ServerOption, with_auth_token, with_write_rate_limit, new_server, Registration,
  registrations, Choice, chosen, nth, Request, Happening, Service, serve, delete_contract,
  list_contracts,
}
use pulsar_app.Http.Routes.Guarded.{passes, serve-db}
use pulsar_app.Http.Routes.Reads.{serve_get}
use pulsar_app.Http.Routes.Refused.{serve_unauthorized, serve_limited}

abbrev pub an_id : Str
an_id = codes "CAAAAAAAAAAAAAAAAAAAAAAAAAAAAAAAAAAAAAAAAAAAAAAAAAAAAAAA"

abbrev db : Db
db = record { contracts = new_contract an_id 5 ∷ []; events = []; sequence = 0 }

abbrev pub no_topics : Dialect → Json → Option Str
no_topics d j = none

abbrev pub no_answer : GraphqlRequest → Db → Option Str
no_answer req tables = none

abbrev pub a_text : Envelope → Option Str
a_text e = some (codes "{}")

abbrev pub same_bytes : Str → Str
same_bytes s = s

-- A router that always picks the deletion, or the list of contracts.
abbrev pub to_delete : List Registration → Str → Str → Choice
to_delete rs method path = chosen 4 an_id

abbrev to_list : List Registration → Str → Str → Choice
to_list rs method path = chosen 1 []

abbrev pub take_one : ℕ → Bool × ℕ
take_one zero = (false, zero)
take_one (suc n) = (true, n)

abbrev pub server : Server
server = record {
  dialect = sqlite;
  version = codes "dev";
  auth_token = codes "0123456789abcdef";
  write_limiter = some (pos 5, pos 10);
  read_timeout = pos 15000000000;
}

server-new :
    new_server sqlite [] (
      with_auth_token (codes "0123456789abcdef")
      ∷ with_write_rate_limit (pos 5) (pos 10)
      ∷ ServerOption.with_read_timeout (pos 15000000000)
      ∷ [])
    ≡ server
unfolding new_server
server-new = refl

abbrev no_params : Params
no_params = record {
  limit = [];
  order = [];
  cursor = [];
  from_ledger = [];
  to_ledger = [];
  name = [];
  topic_contains = [];
}

abbrev pub deletion : Str → Request
deletion authorization = record {
  method = codes "DELETE";
  path = codes "/contracts/C";
  authorization = authorization;
  params = no_params;
  contract_body = none;
  graphql_body = none;
}

abbrev listing : Request
listing = record {
  method = codes "GET";
  path = codes "/contracts";
  authorization = [];
  params = no_params;
  contract_body = none;
  graphql_body = none;
}

abbrev pub calm : Happening
calm = record { now = 7; first = ran; second = ran }

abbrev pub ctx : Context
ctx = record { request_id = []; time_left = none }

abbrev pub fresh : Raw
fresh = record { header = []; sent = none; body = [] }

abbrev pub service : ℕ → Service ℕ
service n = record { bucket = n; db = db }

abbrev dying : Context → ℕ → Script ℕ
dying c n = record {
  calls = set_header (codes "X-Step") (codes "1") ∷ [];
  ending = panicked (codes "boom");
  state = suc n;
}

chain-panicked_example :
    ((chain a_text (pos 1) (codes "id") (run_script dying) ctx fresh 3).ending ≡ returned)
    × ((chain a_text (pos 1) (codes "id") (run_script dying) ctx fresh 3).status ≡ some 500)
    × (wire_status (chain a_text (pos 1) (codes "id") (run_script dying) ctx fresh 3).raw ≡ 500)
    × ((chain a_text (pos 1) (codes "id") (run_script dying) ctx fresh 3).raw.body
        ≡ panic_text a_text)
    × ((chain a_text (pos 1) (codes "id") (run_script dying) ctx fresh 3).state ≡ 4)
chain-panicked_example =
    chain-panicked a_text (pos 1) (codes "id") dying ctx fresh 3 (codes "boom") refl refl refl

chain-headers_example :
    Carries
      (codes "X-Request-Id")
      (codes "id")
      (chain a_text (pos 1) (codes "id") (run_script dying) ctx fresh 3).raw
    × Carries
        (codes "X-Content-Type-Options")
        (codes "nosniff")
        (chain a_text (pos 1) (codes "id") (run_script dying) ctx fresh 3).raw
chain-headers_example =
    chain-headers a_text (pos 1) (codes "id") dying ctx fresh 3 refl (refl, tt) (refl, tt)

bearer_token_iff_test : (bearer_token (codes "BEARER  secret") ≡ some (codes "secret")) ↔ (
    (equal_fold (codes "BEARER ") bearer_prefix ≡ true)
    × (trim_space (codes " secret") ≡ codes "secret")
    × (codes "secret" ≢ []))
bearer_token_iff_test = bearer_token_iff (codes "BEARER ") (codes " secret") (codes "secret") refl

admits_iff_test :
    (admits same_bytes (codes "0123456789abcdef") (codes "Bearer 0123456789abcdef") ≡ true) ↔ (
      (codes "0123456789abcdef" ≢ [])
      × ((t : Str) × (bearer_token (codes "Bearer 0123456789abcdef") ≡ some t)
          × (t ≡ codes "0123456789abcdef")))
admits_iff_test = admits_iff same_bytes (codes "0123456789abcdef") (codes "Bearer 0123456789abcdef")

refused : admits same_bytes server.auth_token (codes "Bearer wrong") ≡ false
unfolding admits bearer_token equal_fold trim_space
refused = refl

abbrev deletion_registration : Registration
deletion_registration = record {
  method = codes "DELETE";
  pattern = codes "/contracts/{id}";
  guarded = true;
  endpoint = delete_contract;
}

abbrev list_registration : Registration
list_registration = record {
  method = codes "GET";
  pattern = codes "/contracts";
  guarded = false;
  endpoint = list_contracts;
}

list_route : nth 1 registrations ≡ some list_registration
unfolding registrations
list_route = refl

deletion_route : nth 4 registrations ≡ some deletion_registration
unfolding registrations
deletion_route = refl

abbrev pub served : (List Registration → Str → Str → Choice) → Request → ℕ → Logged (Service ℕ)
served route req n =
    serve no_topics no_answer a_text same_bytes route take_one server calm (codes "id") req ctx
      fresh (service n)

serve-db_example :
    ((served to_delete (deletion (codes "Bearer wrong")) 1).state.db ≡ db)
    ⊎ ((admits same_bytes server.auth_token (codes "Bearer wrong") ≡ true)
        × (passes no_topics no_answer a_text same_bytes to_delete take_one server (service 1)
            ≡ true))
serve-db_example =
    serve-db no_topics no_answer a_text same_bytes to_delete take_one server calm (codes "id")
      (deletion (codes "Bearer wrong")) ctx fresh (service 1)

serve_get_example : (served to_list listing 1).state ≡ service 1
serve_get_example =
    serve_get no_topics no_answer a_text same_bytes to_list take_one server calm (codes "id")
      listing ctx fresh (service 1) refl (list_registration, list_route, refl)

serve_unauthorized_example :
    ((served to_delete (deletion (codes "Bearer wrong")) 1).status ≡ some 401)
    × (wire_status (served to_delete (deletion (codes "Bearer wrong")) 1).raw ≡ 401)
    × ((served to_delete (deletion (codes "Bearer wrong")) 1).raw.body ≡ codes "{}")
    × Carries
        (codes "WWW-Authenticate")
        (codes "Bearer")
        (served to_delete (deletion (codes "Bearer wrong")) 1).raw
    × ((served to_delete (deletion (codes "Bearer wrong")) 1).state.db ≡ db)
serve_unauthorized_example =
    serve_unauthorized no_topics no_answer a_text same_bytes to_delete take_one server calm
      (codes "id") (deletion (codes "Bearer wrong")) ctx fresh (service 1) 4 an_id refl refl
      deletion_route refl refl refused refl

serve_limited_example :
    ((served to_delete (deletion (codes "Bearer 0123456789abcdef")) 0).status ≡ some 429)
    × (wire_status (served to_delete (deletion (codes "Bearer 0123456789abcdef")) 0).raw ≡ 429)
    × ((served to_delete (deletion (codes "Bearer 0123456789abcdef")) 0).raw.body ≡ codes "{}")
    × ((served to_delete (deletion (codes "Bearer 0123456789abcdef")) 0).state.db ≡ db)
serve_limited_example =
    serve_limited no_topics no_answer a_text same_bytes to_delete take_one server calm (codes "id")
      (deletion (codes "Bearer 0123456789abcdef")) ctx fresh (service 0) 4 an_id refl refl
      deletion_route refl refl refl
