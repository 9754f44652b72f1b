-- ===== src/Http/Routes/Guarded.antt =====
-- indexer/internal/api: who may change the tables, whatever chi chooses and whatever the request is.
use pulsar_app.Base.{
  ℕ, zero, suc, Bool, true, false, not, List, [], ◌∷◌, Option, none, some, Str, codes, ℤ, Json, ◌≡◌,
  ◌⊎◌, All, inl, inr, refl, sym, ap, ◌∙◌, subst, arith, Bool-cases,
}
use pulsar_app.Store.{Dialect, Db}
use pulsar_app.Graphql.Handler.{GraphqlRequest}
use pulsar_app.Http.{Raw, Envelope}
use pulsar_app.Http.Chain.{Ending, returned, aborted, panicked, Context, Script, Logged}
use pulsar_app.Http.Chain.Outcome.{inner_context, outcome}
use pulsar_app.Http.Auth.{admits}
use pulsar_app.Http.Routes.{
  Server, Endpoint, health, list_contracts, register_contract, get_contract, delete_contract,
  list_events, get_event, graphql, Registration, registrations, Choice, chosen, no_route,
  wrong_method, nth, Request, Happening, Service, finished, endpoint_script, handle_not_found,
  handle_method_not_allowed, serve,
}
use pulsar_app.Http.Routes.Runs.{
  checked_script, limited_script, guarded_script, mounted_script, registered_script, chosen_script,
  serve-outcome,
}

pub outcome_state :
    (marshal : Envelope → Option Str) {S : Type 0} (e : Ending) (r : _) (s : S)
    → (outcome marshal e r s).state ≡ s
unfolding outcome
outcome_state marshal returned r s = refl
outcome_state marshal aborted r s = refl
outcome_state marshal (panicked v) r s = refl

-- The endpoint only reads.
abbrev pub reads : Endpoint → Bool
reads register_contract = false
reads delete_contract = false
reads _ = true

nth-All {ℓ} :
    (P : Registration → Type ℓ) (n : ℕ) (rs : List Registration) {r : Registration}
    → All P rs
    → nth n rs ≡ some r
    → P r
nth-All P n [] h e = absurd cc
nth-All P zero (r ∷ rs) h e = subst P (some-inj e) h.0
  where
    some-inj : {a b : Registration} → some a ≡ some b → a ≡ b
    some-inj e = cc
nth-All P (suc n) (r ∷ rs) h e = nth-All P n rs h.1 e

-- A registration is guarded exactly when its endpoint writes.
pub registration_guarded :
    (n : ℕ) {r : Registration} → nth n registrations ≡ some r → r.guarded ≡ not (reads r.endpoint)
unfolding registrations
registration_guarded n h =
    nth-All (λ r. r.guarded ≡ not (reads r.endpoint)) n registrations
      (refl, (refl, (refl, (refl, (refl, (refl, (refl, (refl, tt)))))))) h

pub not-false : {g b : Bool} → g ≡ not b → g ≡ false → b ≡ true
not-false {g} {b} same e = ground arith

-- A GET is a read.
pub get_reads :
    (n : ℕ) {r : Registration}
    → nth n registrations ≡ some r
    → (r.method ≡ codes "GET" → reads r.endpoint ≡ true)
unfolding registrations
get_reads n h =
    nth-All (λ r. r.method ≡ codes "GET" → reads r.endpoint ≡ true) n registrations
      (
        (λ e. refl),
        (
          (λ e. refl),
          (
            (λ e. absurd cc),
            ((λ e. refl), ((λ e. absurd cc), ((λ e. refl), ((λ e. refl), ((λ e. refl), tt))))),
          ),
        ),
      )
      h

module _ (topic_text : Dialect → Json → Option Str) (exec : GraphqlRequest → Db → Option Str)
    (marshal : Envelope → Option Str) (sha256 : Str → Str)
    (route : List Registration → Str → Str → Choice) {L : Type 0} (allow : L → Bool × L) where
  pub endpoint_reads :
      (srv : Server) (h : Happening) (req : Request) (id : Str) (e : Endpoint) (ctx : Context)
      (s : Service L)
      → reads e ≡ true
      → (endpoint_script topic_text exec marshal sha256 route allow srv h req id e ctx s).state ≡ s
  unfolding endpoint_script finished
  endpoint_reads srv h req id health ctx s k = refl
  endpoint_reads srv h req id list_contracts ctx s k = refl
  endpoint_reads srv h req id register_contract ctx s k = absurd cc
  endpoint_reads srv h req id get_contract ctx s k = refl
  endpoint_reads srv h req id delete_contract ctx s k = absurd cc
  endpoint_reads srv h req id list_events ctx s k = refl
  endpoint_reads srv h req id get_event ctx s k = refl
  endpoint_reads srv h req id graphql ctx s k = refl

  -- There is no limiter, or its bucket has a token.
  abbrev pub passes : Server → Service L → Bool
  passes srv s = elim srv.write_limiter [ none ↦ true | some made ↦ (allow s.bucket).0 ]

  -- What a handler may have done to the tables: nothing, unless the request is let through.
  abbrev IsAllowed : Server → Request → Service L → Db → Type 0
  IsAllowed srv req s db =
      (db ≡ s.db)
      ⊎ ((admits sha256 srv.auth_token req.authorization ≡ true) × (passes srv s ≡ true))

  checked_state :
      (srv : Server) (req : Request) (body : Context → Service L → Script (Service L))
      (ctx : Context) (s : Service L)
      → ((checked_script topic_text exec marshal sha256 route allow srv req body ctx s).state.db
          ≡ s.db)
        ⊎ (admits sha256 srv.auth_token req.authorization ≡ true)
  unfolding checked_script
  checked_state srv req body ctx s =
      elim (Bool-cases (admits sha256 srv.auth_token req.authorization)) [
        | inl e ↦ inr e
        | inr e ↦ inl (rw e refl)
      ]

  guarded_state :
      (srv : Server) (req : Request) (body : Context → Service L → Script (Service L))
      (ctx : Context) (s : Service L)
      → IsAllowed srv req s
          (guarded_script topic_text exec marshal sha256 route allow srv.write_limiter srv req body
            ctx s).state.db
  guarded_state srv req body ctx s = cases srv.write_limiter
    where
      cases :
          (o : Option (ℤ × ℤ))
          → ((guarded_script topic_text exec marshal sha256 route allow o srv req body ctx
                s).state.db
              ≡ s.db)
            ⊎ ((admits sha256 srv.auth_token req.authorization ≡ true)
                × ((elim o [ none ↦ true | some made ↦ (allow s.bucket).0 ]) ≡ true))
      cases none =
          unfold guarded_script in
          elim (checked_state srv req body ctx s) [ inl e ↦ inl e | inr e ↦ inr (e, refl) ]
      cases (some made) =
          unfold guarded_script limited_script in
          elim (Bool-cases (allow s.bucket).0) [
            | inr e ↦ inl (rw e refl)
            | inl e ↦
                rw e
                  (elim (checked_state srv req body ctx
                    (record s { bucket = (allow s.bucket).1 })) [
                      | inl same ↦ inl same
                      | inr t ↦ inr (t, refl)
                    ])
          ]

  registered_state :
      (srv : Server) (h : Happening) (req : Request) (id : Str) (n : ℕ) (ctx : Context)
      (s : Service L)
      → IsAllowed srv req s
          (registered_script topic_text exec marshal sha256 route allow srv h req id
            (nth n registrations)
            ctx
            s).state.db
  registered_state srv h req id n ctx s = cases (nth n registrations) refl
    where
      cases :
          (o : Option Registration)
          → nth n registrations ≡ o
          → IsAllowed srv req s
              (registered_script topic_text exec marshal sha256 route allow srv h req id o ctx
                s).state.db
      cases none found = unfold registered_script handle_not_found finished in inl refl
      cases (some r) found =
          unfold registered_script mounted_script in
          let body =
            endpoint_script topic_text exec marshal sha256 route allow srv h req id r.endpoint in
          elim (Bool-cases r.guarded) [
            | inl e ↦ rw e (guarded_state srv req body ctx s)
            | inr e ↦ rw e (
                inl (
                  ap (λ (t : Service L). t.db)
                    (endpoint_reads srv h req id r.endpoint ctx s
                      (not-false (registration_guarded n found) e))))
          ]

  chosen_state :
      (srv : Server) (h : Happening) (req : Request) (c : Choice) (ctx : Context) (s : Service L)
      → IsAllowed srv req s
          (chosen_script topic_text exec marshal sha256 route allow srv h req c ctx s).state.db
  unfolding chosen_script
  chosen_state srv h req (chosen n id) ctx s = registered_state srv h req id n ctx s
  chosen_state srv h req no_route ctx s = unfold handle_not_found finished in inl refl
  chosen_state srv h req wrong_method ctx s = unfold handle_method_not_allowed finished in inl refl

  pub serve_state :
      (srv : Server) (h : Happening) (rid : Str) (req : Request) (ctx : Context) (w : Raw)
      (s : Service L)
      → (serve topic_text exec marshal sha256 route allow srv h rid req ctx w s).state
        ≡ (chosen_script topic_text exec marshal sha256 route allow srv h req
            (route registrations req.method req.path)
            (inner_context srv.read_timeout rid ctx)
            s).state
  serve_state srv h rid req ctx w s =
      ap (λ (o : Logged (Service L)). o.state)
        (serve-outcome topic_text exec marshal sha256 route allow srv h rid req ctx w s)
      ∙ outcome_state marshal _ _ _

  -- A request changes the tables only if it presents a token whose hash is that of the configured
  -- one, which is not empty, and the write limiter, if there is one, has let it through: whatever
  -- its method and path are, whichever route is chosen for it, and whatever the database does.
  pub serve-db :
      (srv : Server) (h : Happening) (rid : Str) (req : Request) (ctx : Context) (w : Raw)
      (s : Service L)
      → ((serve topic_text exec marshal sha256 route allow srv h rid req ctx w s).state.db ≡ s.db)
        ⊎ ((admits sha256 srv.auth_token req.authorization ≡ true) × (passes srv s ≡ true))
  serve-db srv h rid req ctx w s =
      subst (λ (t : Service L). IsAllowed srv req s t.db) (sym (serve_state srv h rid req ctx w s))
        (chosen_state srv h req (route registrations req.method req.path)
          (inner_context srv.read_timeout rid ctx) s)
