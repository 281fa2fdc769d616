-- ===== src/App/Dashboards/Laws.antt =====
-- What the routes of the dashboards come to.
use spi_exata.Base.{◌≡◌, refl, none, some, List, [], ◌∷◌}
use spi_exata.Base.Errors.{text}
use spi_exata.Types.Enums.{Role, admin, analyst}
use spi_exata.User.{Time}
use spi_exata.Auth.{Auth}
use spi_exata.Dashboard
use spi_exata.Dashboard.{Storer}
use spi_exata.Errs.{AppError, new}
use spi_exata.Errs.Codes.{unauthenticated}
use spi_exata.Web.{app_error, answer, HandlerFunc}
use spi_exata.Web.Wrapping.{wrap_middleware_order}
use spi_exata.Mid.{Context, Request, find, claim_key, get_claims, no_claims, authorize}
use spi_exata.App.Users.{Texts}
use spi_exata.App.Dashboards.{Models, query, query_route}

module _ {W K P : Type 0} (a : Auth W K P) where
  authorize_without_claims :
      (roles : List Role) (next : HandlerFunc W Context Request) (ctx : Context) (r : Request)
      (w : W)
      → find claim_key ctx ≡ none
      → authorize a roles next ctx r w ≡ (
        answer (
            app_error (
              new unauthenticated
                (text "claims missing from context: authorize called without authenticate?"))),
        w,
      )
  unfolding authorize
  authorize_without_claims roles next ctx r w h =
      let e : get_claims ctx ≡ no_claims = rw (get_claims, h) refl in rw e refl

module _ {W : Type 0} (texts : Texts) (models : Models) (clock : W → Time × W)
    (storer : Storer W) where
  module _ {K P : Type 0} (a : Auth W K P) where
    -- The route that shows a dashboard refuses every request as unauthenticated, whatever token it
    -- carries, and changes nothing, unless the context holds claims already when it comes.
    pub query_route_unauthenticated :
        (ctx : Context) (r : Request) (w : W)
        → find claim_key ctx ≡ none
        → (e : AppError) × (e.code ≡ unauthenticated)
          × (query_route texts models clock storer a ctx r w ≡ (answer (app_error e), w))
    unfolding query_route
    query_route_unauthenticated ctx r w h =
        let same =
          wrap_middleware_order (some (authorize a (admin ∷ analyst ∷ [])) ∷ [])
            (query texts models clock storer) in
        (
          new unauthenticated
              (text "claims missing from context: authorize called without authenticate?"),
          refl,
          rw same (authorize_without_claims a (admin ∷ analyst ∷ []) _ ctx r w h),
        )
