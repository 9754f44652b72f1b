-- ===== src/Http/Routes/Reads.antt =====
-- indexer/internal/api: what a GET does, and what a write is answered that is not let through.
use pulsar_app.Base.{
  Bool, true, false, not, List, Option, some, Str, codes, Json, ◌≡◌, refl, ap, ◌∙◌, subst,
}
use pulsar_app.Store.{Dialect, Db}
use pulsar_app.Graphql.Handler.{GraphqlRequest}
use pulsar_app.Http.{Raw, Envelope}
use pulsar_app.Http.Chain.{Context}
use pulsar_app.Http.Chain.Outcome.{inner_context}
use pulsar_app.Http.Routes.{
  Server, Registration, registrations, Choice, chosen, no_route, wrong_method, nth, Request,
  Happening, Service, finished, handle_not_found, handle_method_not_allowed, serve,
}
use pulsar_app.Http.Routes.Runs.{mounted_script, registered_script, chosen_script}
use pulsar_app.Http.Routes.Guarded.{
  reads, registration_guarded, get_reads, endpoint_reads, serve_state,
}

-- The choice keeps to the method of the request.
abbrev pub KeepsMethod : Choice → Str → Type 0
KeepsMethod (chosen n id) method =
    (r : Registration) × (nth n registrations ≡ some r) × (r.method ≡ method)
KeepsMethod no_route method = Unit
KeepsMethod wrong_method method = Unit

module _ (topic_text : Dialect → Json → Option Str) (exec : GraphqlRequest → Db → Option Str)
    (marshal : Envelope → Option Str) (sha256 : Str → Str)
    (route : List Registration → Str → Str → Choice) {L : Type 0} (allow : L → Bool × L) where
  get_state :
      (srv : Server) (h : Happening) (req : Request) (c : Choice) (ctx : Context) (s : Service L)
      → KeepsMethod c (codes "GET")
      → (chosen_script topic_text exec marshal sha256 route allow srv h req c ctx s).state ≡ s
  unfolding chosen_script
  get_state srv h req (chosen n id) ctx s (r, found, is_get) =
      ap
        (λ o.
          (registered_script topic_text exec marshal sha256 route allow srv h req id o ctx s).state)
        found
      ∙ mounted_state r (get_reads n found is_get) (registration_guarded n found)
    where
      mounted_state :
          (r : Registration)
          → reads r.endpoint ≡ true
          → r.guarded ≡ not (reads r.endpoint)
          → (registered_script topic_text exec marshal sha256 route allow srv h req id
              (some r)
              ctx
              s).state
            ≡ s
      mounted_state r k g =
          unfold registered_script mounted_script in
          let plain : r.guarded ≡ false = g ∙ ap not k in
          rw plain (
            endpoint_reads topic_text exec marshal sha256 route allow srv h req id r.endpoint ctx s
              k)
  get_state srv h req no_route ctx s k = unfold handle_not_found finished in refl
  get_state srv h req wrong_method ctx s k = unfold handle_method_not_allowed finished in refl

  -- A GET leaves the tables and the write limiter's bucket as they are, if the route chosen for it
  -- is one for its method.
  pub serve_get :
      (srv : Server) (h : Happening) (rid : Str) (req : Request) (ctx : Context) (w : Raw)
      (s : Service L)
      → req.method ≡ codes "GET"
      → KeepsMethod (route registrations req.method req.path) req.method
      → (serve topic_text exec marshal sha256 route allow srv h rid req ctx w s).state ≡ s
  serve_get srv h rid req ctx w s get keeps =
      serve_state topic_text exec marshal sha256 route allow srv h rid req ctx w s
      ∙ get_state srv h req (route registrations req.method req.path)
          (inner_context srv.read_timeout rid ctx) s
          (subst (KeepsMethod (route registrations req.method req.path)) get keeps)
