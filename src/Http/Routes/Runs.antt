-- ===== src/Http/Routes/Runs.antt =====
-- indexer/internal/api: the handler that Routes mounts at each choice of chi's, as one run.
use mathlib.Core.Path.{fun_ext}
use pulsar_app.Base.{
  Bool, true, false, not, List, Option, none, some, Str, if◌then◌else◌, ℤ, Json, ◌≡◌, refl, ap, ◌∙◌,
}
use pulsar_app.Store.{Dialect, Db}
use pulsar_app.Graphql.Handler.{GraphqlRequest}
use pulsar_app.Http.{Raw, calls, Writer, Envelope, write_error}
use pulsar_app.Http.Chain.{returned, Context, Handler, Script, run_script, chain}
use pulsar_app.Http.Chain.Outcome.{inner_context, outcome, chain-outcome, begun_with}
use pulsar_app.Http.Chain.Wire.{record_calls}
use pulsar_app.Http.Auth.{
  require_auth, require_auth-eq, admits, rate_limit, refuse_auth, rate_limited_error,
}
use pulsar_app.Http.Routes.{
  Server, Registration, registrations, Choice, chosen, no_route, wrong_method, nth, Request,
  Happening, Service, endpoint_script, spend, write_guards, mounted, handle_not_found,
  handle_method_not_allowed, registered_or_missing, mux, serve,
}

module _ (topic_text : Dialect → Json → Option Str) (exec : GraphqlRequest → Db → Option Str)
    (marshal : Envelope → Option Str) (sha256 : Str → Str)
    (route : List Registration → Str → Str → Choice) {L : Type 0} (allow : L → Bool × L) where
  -- A guarded handler, as a run: refused for want of a token of the bucket, or of the bearer.
  unfoldable pub checked_script :
      Server
      → Request
      → (Context → Service L → Script (Service L))
      → Context
      → Service L
      → Script (Service L)
  unfolding refuse_auth
  checked_script srv req body ctx s =
      if admits sha256 srv.auth_token req.authorization
      then body ctx s
      else record { calls = refuse_auth sha256 marshal; ending = returned; state = s }

  unfoldable pub limited_script :
      Server
      → Request
      → (Context → Service L → Script (Service L))
      → Context
      → Service L
      → Script (Service L)
  unfolding checked_script write_error
  limited_script srv req body ctx s =
      let (allowed, rest) = allow s.bucket in
      if not allowed
      then record {
        calls = write_error marshal rate_limited_error;
        ending = returned;
        state = record s { bucket = rest };
      }
      else checked_script srv req body ctx (record s { bucket = rest })

  checked-eq :
      (srv : Server) (req : Request) (body : Context → Service L → Script (Service L))
      → require_auth sha256 marshal srv.auth_token req.authorization (run_script body)
        ≡ run_script (checked_script srv req body)
  unfolding run_script checked_script
  checked-eq srv req body = fun_ext (λ ctx. fun_ext (λ w. fun_ext (λ s.
      require_auth-eq sha256 marshal srv.auth_token req.authorization (run_script body) ctx w s
      ∙ either (admits sha256 srv.auth_token req.authorization) ctx w s)))
    where
      either :
          (b : Bool) (ctx : Context) (w : Writer) (s : Service L)
          → (if b then run_script body ctx w s else record {
            ending = returned;
            writer = calls (refuse_auth sha256 marshal) w;
            state = s;
          })
            ≡ run_script
                (λ ctx s.
                  if b
                  then body ctx s
                  else record { calls = refuse_auth sha256 marshal; ending = returned; state = s })
                ctx
                w
                s
      either true ctx w s = refl
      either false ctx w s = refl

  limited-eq :
      (srv : Server) (req : Request) (body : Context → Service L → Script (Service L))
      → rate_limit sha256 marshal
          (spend topic_text exec marshal sha256 route allow)
          (run_script (checked_script srv req body))
        ≡ run_script (limited_script srv req body)
  unfolding run_script limited_script rate_limit spend
  limited-eq srv req body = fun_ext (λ ctx. fun_ext (λ w.
      fun_ext (λ s. either (allow s.bucket).0 ctx w (record s { bucket = (allow s.bucket).1 }))))
    where
      either :
          (b : Bool) (ctx : Context) (w : Writer) (s : Service L)
          → (if not b
              then record {
                ending = returned;
                writer = calls (write_error marshal rate_limited_error) w;
                state = s;
              }
              else run_script (checked_script srv req body) ctx w s)
            ≡ run_script
                (λ ctx s'.
                  if not b
                  then record {
                    calls = write_error marshal rate_limited_error;
                    ending = returned;
                    state = s;
                  }
                  else checked_script srv req body ctx s)
                ctx
                w
                s
      either true ctx w s = refl
      either false ctx w s = refl

  unfoldable pub guarded_script :
      Option (ℤ × ℤ)
      → Server
      → Request
      → (Context → Service L → Script (Service L))
      → Context
      → Service L
      → Script (Service L)
  unfolding checked_script limited_script
  guarded_script none srv req body = checked_script srv req body
  guarded_script (some made) srv req body = limited_script srv req body

  guarded-eq :
      (srv : Server) (req : Request) (body : Context → Service L → Script (Service L))
      → write_guards topic_text exec marshal sha256 route allow srv req (run_script body)
        ≡ run_script (guarded_script srv.write_limiter srv req body)
  unfolding write_guards
  guarded-eq srv req body = cases srv.write_limiter
    where
      cases :
          (o : Option (ℤ × ℤ))
          → (elim o [
            | none ↦ require_auth sha256 marshal srv.auth_token req.authorization (run_script body)
            | some made ↦
                rate_limit sha256 marshal
                  (spend topic_text exec marshal sha256 route allow)
                  (require_auth sha256 marshal srv.auth_token req.authorization (run_script body))
          ])
            ≡ run_script (guarded_script o srv req body)
      cases none = unfold guarded_script in checked-eq srv req body
      cases (some made) =
          unfold guarded_script in
          ap (rate_limit sha256 marshal (spend topic_text exec marshal sha256 route allow))
            (checked-eq srv req body)
          ∙ limited-eq srv req body

  -- The run of the handler that a registration mounts.
  unfoldable pub mounted_script :
      Server → Happening → Request → Str → Registration → Context → Service L → Script (Service L)
  unfolding guarded_script
  mounted_script srv h req id r =
      let body =
        endpoint_script topic_text exec marshal sha256 route allow srv h req id r.endpoint in
      if r.guarded then guarded_script srv.write_limiter srv req body else body

  mounted-eq :
      (srv : Server) (h : Happening) (req : Request) (id : Str) (r : Registration)
      → mounted topic_text exec marshal sha256 route allow srv h req id r
        ≡ run_script (mounted_script srv h req id r)
  unfolding mounted mounted_script
  mounted-eq srv h req id r =
      let body =
        endpoint_script topic_text exec marshal sha256 route allow srv h req id r.endpoint in
      cases r.guarded (guarded_script srv.write_limiter srv req body) body (guarded-eq srv req body)
    where
      cases :
          (b : Bool) {x : Handler (Service L)} (y z : Context → Service L → Script (Service L))
          → x ≡ run_script y
          → (if b then x else run_script z) ≡ run_script (if b then y else z)
      cases true y z e = e
      cases false y z e = refl

  unfoldable pub registered_script :
      Server
      → Happening
      → Request
      → Str
      → Option Registration
      → Context
      → Service L
      → Script (Service L)
  unfolding mounted_script handle_not_found
  registered_script srv h req id none = handle_not_found topic_text exec marshal sha256 route allow
  registered_script srv h req id (some r) = mounted_script srv h req id r

  -- The run that a choice of chi's leads to.
  unfoldable pub chosen_script :
      Server → Happening → Request → Choice → Context → Service L → Script (Service L)
  unfolding registered_script handle_not_found handle_method_not_allowed registrations
  chosen_script srv h req (chosen n id) = registered_script srv h req id (nth n registrations)
  chosen_script srv h req no_route = handle_not_found topic_text exec marshal sha256 route allow
  chosen_script srv h req wrong_method =
      handle_method_not_allowed topic_text exec marshal sha256 route allow

  registered-eq :
      (srv : Server) (h : Happening) (req : Request) (id : Str) (o : Option Registration)
      → registered_or_missing topic_text exec marshal sha256 route allow srv h req id o
        ≡ run_script (registered_script srv h req id o)
  unfolding registered_or_missing registered_script
  registered-eq srv h req id none = refl
  registered-eq srv h req id (some r) = mounted-eq srv h req id r

  mux-eq :
      (srv : Server) (h : Happening) (req : Request) (c : Choice)
      → mux topic_text exec marshal sha256 route allow srv h req c
        ≡ run_script (chosen_script srv h req c)
  unfolding mux chosen_script
  mux-eq srv h req (chosen n id) = registered-eq srv h req id (nth n registrations)
  mux-eq srv h req no_route = refl
  mux-eq srv h req wrong_method = refl

  -- The service runs the handler that was chosen inside the surface-wide chain.
  pub serve-outcome :
      (srv : Server) (h : Happening) (rid : Str) (req : Request) (ctx : Context) (w : Raw)
      (s : Service L)
      → serve topic_text exec marshal sha256 route allow srv h rid req ctx w s ≡ (
          let done =
            chosen_script srv h req
              (route registrations req.method req.path)
              (inner_context srv.read_timeout rid ctx)
              s in
          outcome marshal done.ending (record_calls done.calls (begun_with rid w)) done.state)
  unfolding serve
  serve-outcome srv h rid req ctx w s =
      ap (λ m. chain marshal srv.read_timeout rid m ctx w s)
        (mux-eq srv h req (route registrations req.method req.path))
      ∙ chain-outcome marshal srv.read_timeout rid
          (chosen_script srv h req (route registrations req.method req.path)) ctx w s
