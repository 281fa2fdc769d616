-- ===== src/App/Dashboards.antt =====
-- app/domain/dashboardapp: the models, handlers and routes of the dashboards.
pub mod Laws
use spi_exata.Base.{String, Option, none, some, [], ◌∷◌, ◌is◌, if◌then◌else◌}
use spi_exata.Base.Errors.{Result, ok}
use spi_exata.Base.Errors.{◌>>=◌, wrapping}
use spi_exata.Base.State.{lift}
use spi_exata.Types.Name
use spi_exata.Types.Enums.{admin, analyst}
use spi_exata.User.{Time}
use spi_exata.Auth.{Auth}
use spi_exata.Dashboard
use spi_exata.Dashboard.{Storer}
use spi_exata.Errs.Codes.{invalid_argument, unauthenticated, internal}
use spi_exata.Web.{document, Answer, answer, HandlerFunc, wrap_middleware}
use spi_exata.Web.Decoding.{Codec, decode, attempt}
use spi_exata.Mid.{Context, Request, get_dashboard_id, authenticate, authorize}
use spi_exata.App.Users.{Texts, parse_given}
use spi_exata.App.Users.Handlers.{refuse, refusef}

-- Dashboard
pub record AppDashboard : Type 0 where
  pub id : String
  pub tenant_id : String
  pub name : String
  pub domain : String
  pub logo : Option String
  pub created_at : String
  pub updated_at : String

-- NewDashboard
pub record AppNewDashboard : Type 0 where
  pub tenant_id : String
  pub name : String
  pub domain : String
  pub logo : Option String

-- UpdateDashboard
pub record AppUpdateDashboard : Type 0 where
  pub name : Option String
  pub domain : Option String
  pub logo : Option String

pub record Models : Type 0 where
  pub dashboard : AppDashboard → String
  pub new_dashboard : Codec AppNewDashboard
  pub update_dashboard : Codec AppUpdateDashboard

abbrev or_empty : Option String → String
or_empty none = ""
or_empty (some s) = s

module _ (texts : Texts) where
  unfoldable pub to_app_dashboard : Dashboard.Dashboard → AppDashboard
  to_app_dashboard bus = record {
    id = texts.show_uuid bus.id;
    tenant_id = texts.show_uuid bus.tenant_id;
    name = bus.name.value;
    domain = or_empty bus.domain;
    logo = bus.logo;
    created_at = texts.format_time bus.created_at;
    updated_at = texts.format_time bus.updated_at;
  }

  unfoldable pub to_bus_new_dashboard : AppNewDashboard → Result Dashboard.NewDashboard
  to_bus_new_dashboard app = do
    tenant_id ← wrapping "parse tenantID" (texts.parse_uuid app.tenant_id)
    n ← wrapping "parse name" (Name.parse app.name)
    ok (record {
      tenant_id = tenant_id;
      name = n;
      domain = if app.domain is "" then none else some app.domain;
      logo = app.logo;
    })

unfoldable pub to_bus_update_dashboard : AppUpdateDashboard → Result Dashboard.UpdateDashboard
to_bus_update_dashboard app = do
  n ← wrapping "parse name" (parse_given Name.parse app.name)
  ok (record { name = n; domain = app.domain; logo = app.logo })

module _ {W : Type 0} (texts : Texts) (models : Models) (clock : W → Time × W)
    (storer : Storer W) where
  abbrev dashboard_answer : Dashboard.Dashboard → W → Answer × W
  dashboard_answer d w = (answer (document (models.dashboard (to_app_dashboard texts d))), w)

  unfoldable pub create : HandlerFunc W Context Request
  create ctx r =
      attempt (lift (decode models.new_dashboard r.body)) (refuse invalid_argument) (λ req.
        attempt (lift (to_bus_new_dashboard texts req)) (refuse invalid_argument) (λ nd.
          attempt (Dashboard.create clock storer nd) (refusef internal "create dashboard")
            dashboard_answer))

  unfoldable pub query : HandlerFunc W Context Request
  query ctx r = attempt (lift (get_dashboard_id ctx)) (refuse unauthenticated) (λ id.
      attempt (Dashboard.query_by_id clock storer id) (refusef internal "query dashboard")
        dashboard_answer)

  unfoldable pub update : HandlerFunc W Context Request
  update ctx r =
      attempt (lift (decode models.update_dashboard r.body)) (refuse invalid_argument) (λ req.
        attempt (lift (get_dashboard_id ctx)) (refuse unauthenticated) (λ id.
          attempt (Dashboard.query_by_id clock storer id) (refusef internal "query dashboard") (λ d.
            attempt (lift (to_bus_update_dashboard req)) (refuse invalid_argument) (λ ud.
              attempt (Dashboard.update clock storer d ud) (refusef internal "update dashboard")
                dashboard_answer))))

  -- The handlers behind the middleware of their routes.
  module _ {K P : Type 0} (a : Auth W K P) where
    -- No middleware of this route authenticates.
    pub query_route : HandlerFunc W Context Request
    query_route = wrap_middleware (some (authorize a (admin ∷ analyst ∷ [])) ∷ []) query

    unfoldable pub create_route : HandlerFunc W Context Request
    create_route =
        wrap_middleware (some (authenticate a) ∷ some (authorize a (admin ∷ [])) ∷ []) create

    unfoldable pub update_route : HandlerFunc W Context Request
    update_route =
        wrap_middleware (some (authenticate a) ∷ some (authorize a (admin ∷ analyst ∷ [])) ∷ [])
          update
