-- ===== src/Http/Routes/Integrity.antt =====
-- indexer/internal/api: a request and the integrity of the tables, for every choice of chi.
use pulsar_app.Base.{
  Bool, true, false, not, if◌then◌else◌, List, Option, none, some, Str, ℤ, Json, sym, subst,
}
use pulsar_app.Store.{Dialect, Db}
use pulsar_app.Store.Integrity.{IsIntegral}
use pulsar_app.Graphql.Handler.{GraphqlRequest}
use pulsar_app.Api.Integrity.{
  handle_register_contract-IsIntegral, handle_delete_contract-IsIntegral,
}
use pulsar_app.Http.{Raw, Envelope}
use pulsar_app.Http.Chain.{Context, Script}
use pulsar_app.Http.Chain.Outcome.{inner_context}
use pulsar_app.Http.Auth.{admits}
use pulsar_app.Http.Routes.{
  Server, Endpoint, health, list_contracts, register_contract, get_contract, delete_contract,
  list_events, get_event, graphql, Registration, registrations, Choice, chosen, no_route,
  wrong_method, nth, Request, Happening, Service, finished, finished_with, wrote, endpoint_script,
  handle_not_found, handle_method_not_allowed, serve,
}
use pulsar_app.Http.Routes.Runs.{
  checked_script, limited_script, guarded_script, mounted_script, registered_script, chosen_script,
}
use pulsar_app.Http.Routes.Guarded.{serve_state}

module _ (topic_text : Dialect → Json → Option Str) (exec : GraphqlRequest → Db → Option Str)
    (marshal : Envelope → Option Str) (sha256 : Str → Str)
    (route : List Registration → Str → Str → Choice) {L : Type 0} (allow : L → Bool × L)
    (d : Dialect) where
  abbrev KeepsIntegral : (s : Script (Service L)) → Type 0
  KeepsIntegral s = IsIntegral d s.state.db

  if_lem :
      (b : Bool) (x y : Script (Service L))
      → KeepsIntegral x
      → KeepsIntegral y
      → KeepsIntegral (if b then x else y)
  if_lem true x y p q = p
  if_lem false x y p q = q

  module _ (srv : Server) (h : Happening) (req : Request) where
    endpoint_script-IsIntegral :
        (id : Str) (e : Endpoint) (ctx : Context) (s : Service L)
        → IsIntegral d s.db
        → IsIntegral d
            (endpoint_script topic_text exec marshal sha256 route allow srv h req id e ctx
              s).state.db
    unfolding endpoint_script finished wrote finished_with
    endpoint_script-IsIntegral id health ctx s k = k
    endpoint_script-IsIntegral id list_contracts ctx s k = k
    endpoint_script-IsIntegral id register_contract ctx s k =
        handle_register_contract-IsIntegral d s.db k h.now h.first h.second req.contract_body
    endpoint_script-IsIntegral id get_contract ctx s k = k
    endpoint_script-IsIntegral id delete_contract ctx s k =
        handle_delete_contract-IsIntegral d s.db k h.first id
    endpoint_script-IsIntegral id list_events ctx s k = k
    endpoint_script-IsIntegral id get_event ctx s k = k
    endpoint_script-IsIntegral id graphql ctx s k = k

    module _ (body : Context → Service L → Script (Service L))
        (keeps : (ctx : Context) (s : Service L)
          → IsIntegral d s.db
          → IsIntegral d (body ctx s).state.db)
        (ctx : Context) where
      checked_lem :
          (s : Service L)
          → IsIntegral d s.db
          → KeepsIntegral
              (checked_script topic_text exec marshal sha256 route allow srv req body ctx s)
      unfolding checked_script
      checked_lem s k =
          if_lem (admits sha256 srv.auth_token req.authorization) _ _ (keeps ctx s k) k

      guarded_lem :
          (o : Option (ℤ × ℤ)) (s : Service L)
          → IsIntegral d s.db
          → KeepsIntegral
              (guarded_script topic_text exec marshal sha256 route allow o srv req body ctx s)
      unfolding guarded_script limited_script
      guarded_lem none s k = checked_lem s k
      guarded_lem (some made) s k =
          if_lem (not (allow s.bucket).0) _ _ k
            (checked_lem (record s { bucket = (allow s.bucket).1 }) k)

    registered_lem :
        (id : Str) (o : Option Registration) (ctx : Context) (s : Service L)
        → IsIntegral d s.db
        → KeepsIntegral
            (registered_script topic_text exec marshal sha256 route allow srv h req id o ctx s)
    unfolding registered_script mounted_script handle_not_found finished
    registered_lem id none ctx s k = k
    registered_lem id (some r) ctx s k =
        cases r.guarded _ _
          (guarded_lem _ (endpoint_script-IsIntegral id r.endpoint) ctx srv.write_limiter s k)
          (endpoint_script-IsIntegral id r.endpoint ctx s k)
      where
        cases :
            (b : Bool) (f g : Context → Service L → Script (Service L))
            → KeepsIntegral (f ctx s)
            → KeepsIntegral (g ctx s)
            → KeepsIntegral ((if b then f else g) ctx s)
        cases true f g p q = p
        cases false f g p q = q

    chosen_lem :
        (c : Choice) (ctx : Context) (s : Service L)
        → IsIntegral d s.db
        → KeepsIntegral (chosen_script topic_text exec marshal sha256 route allow srv h req c ctx s)
    unfolding chosen_script handle_not_found handle_method_not_allowed finished
    chosen_lem (chosen n id) ctx s k = registered_lem id (nth n registrations) ctx s k
    chosen_lem no_route ctx s k = k
    chosen_lem wrong_method ctx s k = k

    pub serve-IsIntegral :
        (rid : Str) (ctx : Context) (w : Raw) (s : Service L)
        → IsIntegral d s.db
        → IsIntegral d
            (serve topic_text exec marshal sha256 route allow srv h rid req ctx w s).state.db
    serve-IsIntegral rid ctx w s k =
        subst (λ (t : Service L). IsIntegral d t.db)
          (sym (serve_state topic_text exec marshal sha256 route allow srv h rid req ctx w s))
          (chosen_lem (route registrations req.method req.path)
            (inner_context srv.read_timeout rid ctx) s k)
