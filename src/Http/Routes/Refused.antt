-- ===== src/Http/Routes/Refused.antt =====
-- indexer/internal/api: what the client of a write route is sent when the request is not let through.
use pulsar_app.Base.{
  ℕ, Bool, true, false, List, [], ◌∷◌, ◌++◌, Option, none, some, Str, codes, if◌then◌else◌, ℤ, Json,
  ◌≡◌, refl, sym, ap, ◌∙◌, subst,
}
use pulsar_app.Store.{Dialect, Db}
use pulsar_app.Graphql.Handler.{GraphqlRequest}
use pulsar_app.Http.{Raw, Envelope, write_error}
use pulsar_app.Http.Chain.{returned, Context, Script, Logged}
use pulsar_app.Http.Chain.Wire.{record_calls}
use pulsar_app.Http.Chain.Outcome.{inner_context, outcome, begun_with}
use pulsar_app.Http.Auth.{admits}
use pulsar_app.Http.Routes.{
  Server, Registration, registrations, Choice, chosen, nth, Request, Happening, Service,
  endpoint_script, serve,
}
use pulsar_app.Http.Routes.Runs.{
  checked_script, limited_script, guarded_script, mounted_script, registered_script, chosen_script,
  serve-outcome,
}
use pulsar_app.Http.Routes.Guarded.{passes}
use pulsar_app.ApiError.{ApiError, error_status, registry, new_error}
use pulsar_app.Store.{StoreError}
use pulsar_app.Http.{
  set_header, write_header, write, json_type, last_resort_error, envelope_of, write_json, raw_call,
  recorder_call,
}
use pulsar_app.Http.Chain.Wire.{wire_status, Carries, record_calls-Carries, set_header-Carries}
use pulsar_app.Http.Chain.Panics.{whole_reply}
use pulsar_app.Http.Auth.{refuse_auth, unauthorized_error, rate_limited_error}

error_calls :
    (marshal : Envelope → Option Str) (e : ApiError StoreError) {p : Str}
    → marshal (envelope_of e) ≡ some p
    → write_error marshal e ≡ json_type ∷ write_header (error_status e) ∷ write p ∷ []
unfolding write_error write_json
error_calls marshal e h =
    ap
      (λ o. elim o [
        | none ↦ json_type ∷ write_header 500 ∷ write last_resort_error ∷ []
        | some payload ↦ json_type ∷ write_header (error_status e) ∷ write payload ∷ []
      ])
      h

-- The recorder after the refusal of a request without the token.
refused_recorder :
    (sha256 : Str → Str) (marshal : Envelope → Option Str) (rid : Str) (w : Raw) {p : Str}
    → w.sent ≡ none
    → marshal (envelope_of unauthorized_error) ≡ some p
    → (let r = record_calls (refuse_auth sha256 marshal) (begun_with rid w) in
        (r.status ≡ 401)
        × (wire_status r.raw ≡ 401)
        × (r.raw.body ≡ w.body ++ p)
        × Carries (codes "WWW-Authenticate") (codes "Bearer") r.raw)
unfolding refuse_auth record_calls begun_with recorder_call raw_call unauthorized_error error_status
    registry new_error
refused_recorder sha256 marshal rid w {p} unsent told =
    let challenge = set_header (codes "WWW-Authenticate") (codes "Bearer") in
    let r = recorder_call challenge (begun_with rid w) in
    let (status, wire, body) = whole_reply 401 p r refl refl unsent in
    rw (error_calls marshal unauthorized_error told) (
      status,
      wire,
      body,
      record_calls-Carries (codes "WWW-Authenticate") (codes "Bearer")
          (json_type ∷ write_header 401 ∷ write p ∷ []) r (refl, (tt, (tt, tt)))
          (set_header-Carries (codes "WWW-Authenticate") (codes "Bearer") (begun_with rid w).raw
            unsent),
    )

limited_recorder :
    (marshal : Envelope → Option Str) (rid : Str) (w : Raw) {p : Str}
    → w.sent ≡ none
    → marshal (envelope_of rate_limited_error) ≡ some p
    → (let r = record_calls (write_error marshal rate_limited_error) (begun_with rid w) in
        (r.status ≡ 429) × (wire_status r.raw ≡ 429) × (r.raw.body ≡ w.body ++ p))
unfolding begun_with error_status registry rate_limited_error
limited_recorder marshal rid w {p} unsent told =
    rw (error_calls marshal rate_limited_error told)
      (whole_reply 429 p (begun_with rid w) refl refl unsent)

module _ (topic_text : Dialect → Json → Option Str) (exec : GraphqlRequest → Db → Option Str)
    (marshal : Envelope → Option Str) (sha256 : Str → Str)
    (route : List Registration → Str → Str → Choice) {L : Type 0} (allow : L → Bool × L) where
  refusal : Service L → Script (Service L)
  refusal s = record { calls = refuse_auth sha256 marshal; ending = returned; state = s }

  refused_script :
      (o : Option (ℤ × ℤ)) (srv : Server) (req : Request)
      (body : Context → Service L → Script (Service L)) (ctx : Context) (s : Service L)
      → (elim o [ none ↦ true | some made ↦ (allow s.bucket).0 ]) ≡ true
      → admits sha256 srv.auth_token req.authorization ≡ false
      → (s' : Service L) × (guarded_script topic_text exec marshal sha256 route allow o srv req body
            ctx s
          ≡ refusal s')
        × (s'.db ≡ s.db)
  unfolding guarded_script limited_script checked_script refusal
  refused_script none srv req body ctx s pass refused = (s, rw refused refl, refl)
  refused_script (some made) srv req body ctx s pass refused =
      (record s { bucket = (allow s.bucket).1 }, rw (pass, refused) refl, refl)

  limited_refusal :
      (o : Option (ℤ × ℤ)) (srv : Server) (req : Request)
      (body : Context → Service L → Script (Service L)) (ctx : Context) (s : Service L)
      → (elim o [ none ↦ true | some made ↦ (allow s.bucket).0 ]) ≡ false
      → guarded_script topic_text exec marshal sha256 route allow o srv req body ctx s ≡ record {
        calls = write_error marshal rate_limited_error;
        ending = returned;
        state = record s { bucket = (allow s.bucket).1 };
      }
  unfolding guarded_script limited_script
  limited_refusal none srv req body ctx s empty = absurd cc
  limited_refusal (some made) srv req body ctx s empty = rw empty refl

  -- The run of a guarded route is the guarded run of its endpoint.
  guarded_run :
      (srv : Server) (h : Happening) (req : Request) (n : ℕ) (id : Str) (r : Registration)
      (ctx : Context) (s : Service L)
      → nth n registrations ≡ some r
      → r.guarded ≡ true
      → chosen_script topic_text exec marshal sha256 route allow srv h req (chosen n id) ctx s
        ≡ guarded_script topic_text exec marshal sha256 route allow srv.write_limiter srv req
            (endpoint_script topic_text exec marshal sha256 route allow srv h req id r.endpoint)
            ctx
            s
  unfolding chosen_script
  guarded_run srv h req n id r ctx s found guarded =
      ap (λ o. registered_script topic_text exec marshal sha256 route allow srv h req id o ctx s)
        found
      ∙ plain r guarded
    where
      plain :
          (r : Registration)
          → r.guarded ≡ true
          → registered_script topic_text exec marshal sha256 route allow srv h req id (some r) ctx s
            ≡ guarded_script topic_text exec marshal sha256 route allow srv.write_limiter srv req
                (endpoint_script topic_text exec marshal sha256 route allow srv h req id r.endpoint)
                ctx
                s
      plain r g =
          unfold registered_script mounted_script in
          ap
            (λ b.
              (if b
                  then guarded_script topic_text exec marshal sha256 route allow srv.write_limiter
                      srv req
                      (endpoint_script topic_text exec marshal sha256 route allow srv h req id
                        r.endpoint)
                  else endpoint_script topic_text exec marshal sha256 route allow srv h req id
                      r.endpoint)
                ctx s)
            g

  -- A request for a write route that the limiter lets through and that does not present the token
  -- is answered with the status 401, a challenge for a bearer token, and the envelope of the error
  -- UNAUTHORIZED, and leaves the tables as they are; the status is also the one that is logged.
  pub serve_unauthorized :
      (srv : Server) (h : Happening) (rid : Str) (req : Request) (ctx : Context) (w : Raw)
      (s : Service L) (n : ℕ) (id : Str) {r : Registration} {p : Str}
      → w.sent ≡ none
      → route registrations req.method req.path ≡ chosen n id
      → nth n registrations ≡ some r
      → r.guarded ≡ true
      → passes topic_text exec marshal sha256 route allow srv s ≡ true
      → admits sha256 srv.auth_token req.authorization ≡ false
      → marshal (envelope_of unauthorized_error) ≡ some p
      → (let out = serve topic_text exec marshal sha256 route allow srv h rid req ctx w s in
          (out.status ≡ some 401)
          × (wire_status out.raw ≡ 401)
          × (out.raw.body ≡ w.body ++ p)
          × Carries (codes "WWW-Authenticate") (codes "Bearer") out.raw
          × (out.state.db ≡ s.db))
  unfolding outcome refusal
  serve_unauthorized srv h rid req ctx w s n id {r} {p} unsent choice found guarded pass refused
        told =
      let inside = inner_context srv.read_timeout rid ctx in
      let body =
        endpoint_script topic_text exec marshal sha256 route allow srv h req id r.endpoint in
      let (s', script, same) =
        refused_script srv.write_limiter srv req body inside s pass refused in
      let run : chosen_script topic_text exec marshal sha256 route allow srv h req
            (route registrations req.method req.path) inside s
          ≡ refusal s' =
        ap (λ c. chosen_script topic_text exec marshal sha256 route allow srv h req c inside s)
          choice
        ∙ guarded_run srv h req n id r inside s found guarded
        ∙ script in
      let out : serve topic_text exec marshal sha256 route allow srv h rid req ctx w s
          ≡ outcome marshal returned (record_calls (refuse_auth sha256 marshal) (begun_with rid w))
              s' =
        serve-outcome topic_text exec marshal sha256 route allow srv h rid req ctx w s
        ∙ ap
            (λ (d : Script (Service L)).
              outcome marshal d.ending (record_calls d.calls (begun_with rid w)) d.state)
            run in
      let (status, wire, text, challenge) = refused_recorder sha256 marshal rid w unsent told in
      (
        ap (λ (o : Logged (Service L)). o.status) out ∙ ap some status,
        ap (λ (o : Logged (Service L)). wire_status o.raw) out ∙ wire,
        ap (λ (o : Logged (Service L)). o.raw.body) out ∙ text,
        subst
            (λ (o : Logged (Service L)). Carries (codes "WWW-Authenticate") (codes "Bearer") o.raw)
            (sym out) challenge,
        ap (λ (o : Logged (Service L)). o.state.db) out ∙ same,
      )

  -- A request for a write route that comes when the bucket of the limiter is empty is answered with
  -- the status 429 and the envelope of the error RATE_LIMITED, whatever token it presents, and
  -- leaves the tables as they are.
  pub serve_limited :
      (srv : Server) (h : Happening) (rid : Str) (req : Request) (ctx : Context) (w : Raw)
      (s : Service L) (n : ℕ) (id : Str) {r : Registration} {p : Str}
      → w.sent ≡ none
      → route registrations req.method req.path ≡ chosen n id
      → nth n registrations ≡ some r
      → r.guarded ≡ true
      → passes topic_text exec marshal sha256 route allow srv s ≡ false
      → marshal (envelope_of rate_limited_error) ≡ some p
      → (let out = serve topic_text exec marshal sha256 route allow srv h rid req ctx w s in
          (out.status ≡ some 429)
          × (wire_status out.raw ≡ 429)
          × (out.raw.body ≡ w.body ++ p)
          × (out.state.db ≡ s.db))
  unfolding outcome
  serve_limited srv h rid req ctx w s n id {r} {p} unsent choice found guarded empty told =
      let inside = inner_context srv.read_timeout rid ctx in
      let body =
        endpoint_script topic_text exec marshal sha256 route allow srv h req id r.endpoint in
      let out =
        serve-outcome topic_text exec marshal sha256 route allow srv h rid req ctx w s
        ∙ ap
            (λ (d : Script (Service L)).
              outcome marshal d.ending (record_calls d.calls (begun_with rid w)) d.state)
            (ap (λ c. chosen_script topic_text exec marshal sha256 route allow srv h req c inside s)
                choice
              ∙ guarded_run srv h req n id r inside s found guarded
              ∙ limited_refusal srv.write_limiter srv req body inside s empty) in
      let (status, wire, text) = limited_recorder marshal rid w unsent told in
      (
        ap (λ (o : Logged (Service L)). o.status) out ∙ ap some status,
        ap (λ (o : Logged (Service L)). wire_status o.raw) out ∙ wire,
        ap (λ (o : Logged (Service L)). o.raw.body) out ∙ text,
        ap (λ (o : Logged (Service L)). o.state.db) out,
      )
