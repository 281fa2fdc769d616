-- ===== src/App/Users/Routing.antt =====
-- What the routes of the users come to.
use spi_exata.Base.{
  String, ◌≡◌, refl, ◌∙◌, inl, inr, none, some, List, [], ◌∷◌, arith, ◌is◌, Bool-cases,
}
use spi_exata.Base.Errors.{Result, ok, err, panicked, value_of}
use spi_exata.Base.Errors.{Result-cases, >>=-eq-ok, wrapping}
use spi_exata.Types.Enums.{Role, admin}
use spi_exata.User.Core.{Host, Storer}
use spi_exata.Auth
use spi_exata.Auth.{Auth}
use spi_exata.Web.{app_error, Answer, answer, panic, HandlerFunc}
use spi_exata.Web.Wrapping.{wrap_middleware_order}
use spi_exata.Web.Decoding.{decode}
use spi_exata.Mid.{
  Context, Request, find, user_key, tenant_of, get_claims, bind_claims, authenticate_context,
  authenticate, authorize, proceed, if_allowed,
}
use spi_exata.App.Users.{Texts}
use spi_exata.App.Users.Handlers
use spi_exata.App.Users.Handlers.{Models, update_route, delete_route, find_route}

-- An answer that is an error of the application, or a panic.
abbrev pub IsRefused : Answer → Type 0
IsRefused (answer (app_error e)) = Unit {0}
IsRefused (answer _) = ⊥
IsRefused (panic m) = Unit {0}

-- A handler that does nothing but refuse, where the context holds no user.
abbrev IsClosed : {W : Type 0} → HandlerFunc W Context Request → Type 0
IsClosed {W} next =
    (ctx : Context) (r : Request) (w : W)
    → find user_key ctx ≡ none
    → IsRefused (next ctx r w).0 × ((next ctx r w).1 ≡ w)

module _ {W K P : Type 0} (a : Auth W K P) where
  bind_claims-user :
      (ctx ctx' : Context) (claims : Auth.Claims)
      → bind_claims a ctx claims ≡ ok ctx'
      → find user_key ctx' ≡ find user_key ctx
  unfolding bind_claims
  bind_claims-user ctx ctx' claims h =
      let (user_id, h1, e1) =
        >>=-eq-ok (wrapping "invalid user id" (a.parse_uuid claims.subject)) h in
      let (dash_id, h2, e2) =
        >>=-eq-ok (wrapping "invalid dashboard id" (a.parse_uuid claims.dashboard_id)) h1 in
      let (td, h3, e3) = >>=-eq-ok (tenant_of a claims) h2 in ground arith

  -- What authenticating hands on has no user that was not there before.
  authenticate_context-user :
      (ctx ctx' : Context) (header : String) (w : W)
      → (authenticate_context a ctx header w).0 ≡ ok ctx'
      → find user_key ctx' ≡ find user_key ctx
  unfolding authenticate_context
  authenticate_context-user ctx ctx' header w h =
      let (claims, accepted) = value_of (Auth.authenticate a header w).0 (ground arith) in
      bind_claims-user ctx ctx' claims (ground arith)

  proceed-IsRefused :
      (next : HandlerFunc W Context Request) (r : Request) (res : Result Context) (w : W)
      → IsClosed next
      → ((ctx : Context) → res ≡ ok ctx → find user_key ctx ≡ none)
      → IsRefused (proceed a next r res w).0 × ((proceed a next r res w).1 ≡ w)
  proceed-IsRefused next r (ok ctx) w closed h = closed ctx r w (h ctx refl)
  proceed-IsRefused next r (err e) w closed h = (tt, refl)
  proceed-IsRefused next r (panicked m) w closed h = (tt, refl)

  if_allowed-IsRefused :
      (next : HandlerFunc W Context Request) (ctx : Context) (r : Request) (res : Result (Unit {0}))
      (w : W)
      → IsClosed next
      → find user_key ctx ≡ none
      → IsRefused (if_allowed a next ctx r res w).0 × ((if_allowed a next ctx r res w).1 ≡ w)
  if_allowed-IsRefused next ctx r (ok _) w closed h = closed ctx r w h
  if_allowed-IsRefused next ctx r (err e) w closed h = (tt, refl)
  if_allowed-IsRefused next ctx r (panicked m) w closed h = (tt, refl)

  authorize-IsClosed :
      (roles : List Role) (next : HandlerFunc W Context Request)
      → IsClosed next
      → IsClosed (authorize a roles next)
  unfolding authorize
  authorize-IsClosed roles next closed ctx r w h =
      elim (Bool-cases ((get_claims ctx).subject is "")) [
        | inl e ↦ rw e (tt, refl)
        | inr e ↦
            rw e
              (if_allowed-IsRefused next ctx r (Auth.authorize a (get_claims ctx) roles) w closed h)
      ]

  -- What a route behind Authenticate comes to, where its inner handler serves nobody.
  authenticate-IsRefused :
      (next : HandlerFunc W Context Request)
      → IsClosed next
      → (ctx : Context) (r : Request) (w : W) → find user_key ctx ≡ none
      → IsRefused (authenticate a next ctx r w).0
        × ((authenticate a next ctx r w).1
            ≡ (authenticate_context a ctx (r.header "authorization") w).1)
  unfolding authenticate
  authenticate-IsRefused next closed ctx r w h =
      proceed-IsRefused next r (authenticate_context a ctx (r.header "authorization") w).0
        (authenticate_context a ctx (r.header "authorization") w).1 closed
        (λ ctx' e. authenticate_context-user ctx ctx' (r.header "authorization") w e ∙ h)

module _ {W : Type 0} (texts : Texts) (models : Models) (host : Host W) (storer : Storer W) where
  update-IsClosed : IsClosed (Handlers.update texts models host storer)
  unfolding Handlers.update
  update-IsClosed ctx r w h = elim (Result-cases (decode models.update_user r.body)) [
    | inl (app, e) ↦ rw (e, h) (tt, refl)
    | inr (inl (x, e)) ↦ rw e (tt, refl)
    | inr (inr (m, e)) ↦ rw e (tt, refl)
  ]

  delete-IsClosed : IsClosed (Handlers.delete texts models host storer)
  unfolding Handlers.delete
  delete-IsClosed ctx r w h = rw h (tt, refl)

  query_by_id-IsClosed : IsClosed (Handlers.query_by_id texts models host storer)
  unfolding Handlers.query_by_id
  query_by_id-IsClosed ctx r w h = rw h (tt, refl)

  module _ {K P : Type 0} (a : Auth W K P) where
    -- No request to the routes that update, delete or show a single user is ever served, unless the
    -- context holds a user already when it comes: each is refused or panics, whatever token it
    -- carries, and apart from authenticating nothing happens.
    pub user_routes_refuse :
        (ctx : Context) (r : Request) (w : W)
        → find user_key ctx ≡ none
        → let w' = (authenticate_context a ctx (r.header "authorization") w).1 in
          (IsRefused (update_route texts models host storer a ctx r w).0
            × ((update_route texts models host storer a ctx r w).1 ≡ w'))
          × (IsRefused (delete_route texts models host storer a ctx r w).0
              × ((delete_route texts models host storer a ctx r w).1 ≡ w'))
          × (IsRefused (find_route texts models host storer a ctx r w).0
              × ((find_route texts models host storer a ctx r w).1 ≡ w'))
    unfolding update_route delete_route find_route
    user_routes_refuse ctx r w h = (
      rw
          (wrap_middleware_order (some (authenticate a) ∷ [])
            (Handlers.update texts models host storer))
          (authenticate-IsRefused a _ update-IsClosed ctx r w h),
      rw
          (wrap_middleware_order (some (authenticate a) ∷ [])
            (Handlers.delete texts models host storer))
          (authenticate-IsRefused a _ delete-IsClosed ctx r w h),
      rw
          (wrap_middleware_order (some (authenticate a) ∷ some (authorize a (admin ∷ [])) ∷ [])
            (Handlers.query_by_id texts models host storer))
          (authenticate-IsRefused a _ (authorize-IsClosed a _ _ query_by_id-IsClosed) ctx r w h),
    )
