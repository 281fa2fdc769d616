-- ===== src/App/Api/Laws.antt =====
-- The routes that the service has, and whom they refuse.
use spi_exata.Base.{
  ℕ, String, ◌≡◌, refl, ap, ◌⊎◌, inl, inr, Option, List, [], ◌∷◌, ◌++◌, All, ltb, length,
  Bool-cases,
}
use spi_exata.Base.Errors.{Error, err}
use spi_exata.Errs.{new}
use spi_exata.Errs.Codes.{unauthenticated}
use spi_exata.Auth
use spi_exata.Auth.{Auth}
use spi_exata.Web.{app_error, HandlerFunc, MidFunc, wrap_middleware, respond, replied}
use spi_exata.Web.Server.{Registered, handler_func, registered, set_tracer, set_writer}
use spi_exata.Mid.{Context, Request, handle_error, set}
use spi_exata.Mid.Refusals.{authenticate-refused, metrics-of_answer}
use spi_exata.App.Serving as Serving
use spi_exata.App.Serving.Laws.{handler_func-answer}
use spi_exata.App.Api.{
  Api, Config, Options, authen, user_routes, auth_routes, all_routes, web_api, chosen,
}

pub All-snoc :
    {A : Type 0} (P : A → Type 0) (xs : List A) (x : A) → All P xs → P x → All P (xs ++ (x ∷ []))
All-snoc P [] x all px = (px, tt)
All-snoc P (y ∷ xs) x (py, all) px = (py, All-snoc P xs x all px)

-- Some element of the list has the property.
abbrev pub Any : {A : Type 0} → (A → Type 0) → List A → Type 0
Any P [] = ⊥
Any P (x ∷ xs) = P x ⊎ Any P xs

pub Any-last : {A : Type 0} (P : A → Type 0) (xs : List A) (x : A) → P x → Any P (xs ++ (x ∷ []))
Any-last P [] x px = inl px
Any-last P (y ∷ xs) x px = inr (Any-last P xs x px)

module _ {W K P : Type 0} (cfg : Config W K P) where
  -- the requests whose header auth.Authenticate accepts in no state of the world
  abbrev pub IsRefused : Request → Type 0
  IsRefused r =
      (w : W) → (e : Error) × ((Auth.authenticate cfg.auth (r.header "authorization") w).0 ≡ err e)

  abbrev stack : List (Option (MidFunc W Context Request))
  stack = Serving.web_api cfg.inject cfg.log cfg.counted

  -- A function of the mux that answers the requests which are refused as Unauthenticated.
  abbrev pub IsGuarded : Registered W Context Request → Type 0
  IsGuarded h =
      (out : ℕ) (ctx : Context) (r : Request) (w : W)
      → IsRefused r
      → (e : Error) × ((h out ctx r w).0
          ≡ respond cfg.encode cfg.write_error cfg.canceled (app_error (new unauthenticated e)))

  registered-IsGuarded :
      (app : Api W) (mw : List (Option (MidFunc W Context Request)))
      (handler : HandlerFunc W Context Request)
      → app.mw ≡ stack
      → IsGuarded (
          registered cfg.contexts cfg.propagate cfg.encode cfg.write_error cfg.canceled app
            (authen cfg ∷ mw)
            handler)
  unfolding registered Serving.handler_func handle_error
  registered-IsGuarded app mw handler same out ctx r w refused =
      let ctx' = set_writer cfg.contexts (set_tracer cfg.contexts ctx app.tracer) out in
      let w0 = cfg.propagate ctx' w in
      let inner = cfg.log.started r w0 in
      let (e, p) = refused inner in
      let next = wrap_middleware (authen cfg ∷ mw) handler in
      let (e', q) =
        authenticate-refused cfg.auth mw handler (set cfg.counted (cfg.inject ctx')) r inner e p in
      let m = metrics-of_answer cfg.counted next (cfg.inject ctx') r inner _ q in
      let x =
        handler_func-answer cfg.inject cfg.log cfg.counted (authen cfg ∷ mw) handler ctx' r w0 _
          m in
      (e', rw same (ap (replied cfg.encode cfg.write_error cfg.canceled) x))

  -- a route of the service, which may be the one of the login
  abbrev pub IsRoute : String × Registered W Context Request → Type 0
  IsRoute (pattern, h) = (pattern ≡ "POST /v1/auth/login") ⊎ IsGuarded h

  all_routes-IsRoute :
      (app : Api W) → app.mw ≡ stack → app.routes ≡ [] → All IsRoute (all_routes cfg app).routes
  unfolding all_routes user_routes auth_routes handler_func
  all_routes-IsRoute app same none_yet =
      All-snoc IsRoute _ _
        (All-snoc IsRoute _ _
          (All-snoc IsRoute _ _
            (All-snoc IsRoute _ _
              (All-snoc IsRoute _ _
                (All-snoc IsRoute _ _ (rw none_yet tt) (inr (registered-IsGuarded _ _ _ same)))
                (inr (registered-IsGuarded _ _ _ same)))
              (inr (registered-IsGuarded _ _ _ same)))
            (inr (registered-IsGuarded _ _ _ same)))
          (inr (registered-IsGuarded _ _ _ same)))
        (inl refl)

  -- Every route of the service but POST /v1/auth/login answers a request as Unauthenticated whose
  -- header auth.Authenticate refuses in every state of the world, whatever the options are.
  pub web_api-IsRoute :
      (options : List (Options → Options))
      → All IsRoute (web_api cfg (all_routes cfg) options).routes
  unfolding web_api
  web_api-IsRoute options =
      elim (Bool-cases
        (ltb 0 (length (chosen options (record { cors_origin = [] })).cors_origin))) [
          | inl some_origin ↦ rw some_origin (all_routes-IsRoute _ refl refl)
          | inr no_origin ↦ rw no_origin (all_routes-IsRoute _ refl refl)
        ]

  abbrev pub patterns : List (String × Registered W Context Request) → List String
  patterns [] = []
  patterns ((pattern, h) ∷ routes) = pattern ∷ patterns routes

  patterns-snoc :
      (routes : List (String × Registered W Context Request)) (pattern : String)
      (h : Registered W Context Request)
      → patterns (routes ++ ((pattern, h) ∷ [])) ≡ patterns routes ++ (pattern ∷ [])
  patterns-snoc [] pattern h = refl
  patterns-snoc ((p, k) ∷ routes) pattern h = ap (λ ps. p ∷ ps) (patterns-snoc routes pattern h)

  all_routes-patterns :
      (app : Api W)
      → app.routes ≡ []
      → patterns (all_routes cfg app).routes
        ≡ "GET /v1/users" ∷ "GET /v1/users/{user_id}" ∷ "POST /v1/users" ∷ "PUT /v1/me"
          ∷ "DELETE /v1/me" ∷ "POST /v1/auth/login" ∷ []
  unfolding all_routes user_routes auth_routes handler_func
  all_routes-patterns app none_yet = rw (patterns-snoc) (rw none_yet refl)

  -- Whatever its options are, the service has five routes of users and the login, and no route of
  -- dashboards.
  pub web_api-patterns :
      (options : List (Options → Options))
      → patterns (web_api cfg (all_routes cfg) options).routes
        ≡ "GET /v1/users" ∷ "GET /v1/users/{user_id}" ∷ "POST /v1/users" ∷ "PUT /v1/me"
          ∷ "DELETE /v1/me" ∷ "POST /v1/auth/login" ∷ []
  unfolding web_api
  web_api-patterns options =
      elim (Bool-cases
        (ltb 0 (length (chosen options (record { cors_origin = [] })).cors_origin))) [
          | inl some_origin ↦ rw some_origin (all_routes-patterns _ refl)
          | inr no_origin ↦ rw no_origin (all_routes-patterns _ refl)
        ]
