-- ===== src/App/Api.antt =====
-- app/sdk/mux/mux.go, the routes of app/domain, and api/cmd/build/all/all.go: the application that
-- serves requests.
pub mod Laws
use spi_exata.Base.{ℕ, String, Bool, Option, some, List, [], ◌∷◌, length, ltb, if◌then◌else◌}
use spi_exata.Base.Errors.{Error, Result}
use spi_exata.Types.Enums.{admin, analyst}
use spi_exata.User.{Uuid, Time}
use spi_exata.User.Core.{Host}
use spi_exata.User.Core as Users
use spi_exata.Tenant.Core as Tenants
use spi_exata.Dashboard as Dashboards
use spi_exata.Auth.{Auth}
use spi_exata.Web.{Encoder, HandlerFunc, MidFunc}
use spi_exata.Web.Decoding.{Codec}
use spi_exata.Web.Server.{Contexts, App, new_app, enable_cors, handler_func}
use spi_exata.Mid.{Context, Request, Counted, authenticate, authorize}
use spi_exata.Mid.Logging.{Log}
use spi_exata.App.Users.{Texts}
use spi_exata.App.Users.Handlers as UserApp
use spi_exata.App.Dashboards as DashboardApp
use spi_exata.App.Login.{Credentials, Token, login}
use spi_exata.App.Serving as Serving

-- Options
pub record Options : Type 0 where
  pub cors_origin : List String

-- WithCORS
abbrev pub with_cors : List String → Options → Options
with_cors origins opts = record { cors_origin = origins }

-- the loop over the options
unfoldable pub chosen : List (Options → Options) → Options → Options
chosen [] opts = opts
chosen (option ∷ options) opts = chosen options (option opts)

abbrev pub Api : Type 0 → Type 0
Api W = App W Context Request

-- The systems that handlers and middleware need, and what stands for the libraries.
pub record Config (W K P : Type 0) : Type 0 where
  pub tracer : Option ℕ
  pub inject : Context → Context
  pub log : Log W
  pub counted : Counted W
  pub contexts : Contexts Context
  pub propagate : Context → W → W
  pub encode : Encoder → Result (String × String)
  pub write_error : Option Error
  pub canceled : Bool
  pub auth : Auth W K P
  pub texts : Texts
  pub users : UserApp.Models
  pub dashboards : DashboardApp.Models
  pub credentials : Codec Credentials
  pub render : Token → String
  pub split_host_port : String → Result (String × String)
  pub clock : W → Time × W
  pub new_uuid : W → Uuid × W
  pub host : Host W
  pub user_storer : Users.Storer W
  pub tenant_storer : Tenants.Storer W
  pub dashboard_storer : Dashboards.Storer W

module _ {W K P : Type 0} (cfg : Config W K P) where
  abbrev pub authen : Option (MidFunc W Context Request)
  authen = some (authenticate cfg.auth)

  -- a call of app.HandlerFunc, in the group v1
  abbrev route :
      String
      → String
      → HandlerFunc W Context Request
      → List (Option (MidFunc W Context Request))
      → Api W
      → Api W
  route method path handler mw app =
      handler_func cfg.contexts cfg.propagate cfg.encode cfg.write_error cfg.canceled app method
        "v1" path handler mw

  -- Routes of userapp, whose calls are the arguments from the inside out
  unfoldable pub user_routes : Api W → Api W
  user_routes app =
      let only_admin = some (authorize cfg.auth (admin ∷ [])) in
      let app1 =
        route "GET" "/users" (UserApp.query cfg.texts cfg.users cfg.host cfg.user_storer)
          (authen ∷ only_admin ∷ []) app in
      let app2 =
        route "GET" "/users/{user_id}"
          (UserApp.query_by_id cfg.texts cfg.users cfg.host cfg.user_storer)
          (authen ∷ only_admin ∷ []) app1 in
      let app3 =
        route "POST" "/users" (UserApp.create cfg.texts cfg.users cfg.host cfg.user_storer)
          (authen ∷ only_admin ∷ []) app2 in
      let app4 =
        route "PUT" "/me" (UserApp.update cfg.texts cfg.users cfg.host cfg.user_storer)
          (authen ∷ []) app3 in
      route "DELETE" "/me" (UserApp.delete cfg.texts cfg.users cfg.host cfg.user_storer)
        (authen ∷ []) app4

  -- Routes of authapp
  unfoldable pub auth_routes : Api W → Api W
  auth_routes app =
      route "POST" "/auth/login"
        (login cfg.texts cfg.credentials cfg.render cfg.split_host_port cfg.auth cfg.clock
          cfg.new_uuid cfg.tenant_storer)
        [] app

  -- Routes of dashboardapp
  unfoldable pub dashboard_routes : Api W → Api W
  dashboard_routes app =
      let admin_only = some (authorize cfg.auth (admin ∷ [])) in
      let can_write = some (authorize cfg.auth (admin ∷ analyst ∷ [])) in
      let can_update = some (authorize cfg.auth (admin ∷ analyst ∷ [])) in
      let app1 =
        route "GET" "/dashboard"
          (DashboardApp.query cfg.texts cfg.dashboards cfg.clock cfg.dashboard_storer)
          (can_update ∷ []) app in
      let app2 =
        route "POST" "/dashboard"
          (DashboardApp.create cfg.texts cfg.dashboards cfg.clock cfg.dashboard_storer)
          (authen ∷ admin_only ∷ []) app1 in
      route "PUT" "/dashboard"
        (DashboardApp.update cfg.texts cfg.dashboards cfg.clock cfg.dashboard_storer)
        (authen ∷ can_write ∷ []) app2

  -- Add of the package all, where the dashboards have no part
  unfoldable pub all_routes : Api W → Api W
  all_routes app = auth_routes (user_routes app)

  -- WebAPI
  unfoldable pub web_api : (Api W → Api W) → List (Options → Options) → Api W
  web_api route_adder options =
      let app = new_app cfg.tracer (Serving.web_api cfg.inject cfg.log cfg.counted) in
      let opts = chosen options (record { cors_origin = [] }) in
      route_adder
        (if ltb 0 (length opts.cors_origin) then enable_cors app opts.cors_origin else app)
