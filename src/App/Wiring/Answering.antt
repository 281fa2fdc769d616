-- ===== src/App/Wiring/Answering.antt =====
-- Who gets a token from the service.
use spi_exata.Base.{ℕ, String, ◌≡◌, ◌≢◌, ◌⊎◌, some}
use spi_exata.Base.Errors.{ok}
use spi_exata.User.{User}
use spi_exata.Tenant.{TenantDashboard}
use spi_exata.Tenant.Db as TenantDb
use spi_exata.Tenant.Db.Tables.{Tables, IsDatabase}
use spi_exata.Auth
use spi_exata.Web.{document, respond, HandlerFunc}
use spi_exata.Web.Server.{Registered, set_tracer, set_writer}
use spi_exata.Mid.{Context, Request}
use spi_exata.App.Serving as Serving
use spi_exata.App.Api.{Api, Config}
use spi_exata.App.Login.{fixed_domain, login}
use spi_exata.App.Login.Issuing.{Authenticates, tenant_for}
use spi_exata.App.Wiring.{Database, wired}

module _ {W K P : Type 0} (cfg : Config W K P) (db : Database W) (t : Tables W)
    (laws : IsDatabase db.tenants db.show t) where
  abbrev pub service : Config W K P
  service = wired cfg db

  -- the context and the world that the handler of a route starts with
  abbrev pub started : Context → ℕ → Request → W → W
  started ctx out r w =
      cfg.log.started r
        (cfg.propagate (set_writer cfg.contexts (set_tracer cfg.contexts ctx cfg.tracer) out) w)

  -- That a request to the login gets a token, in a world that comes from `w`.
  pub record IsWelcome (r : Request) (w : W) (token : String) : Type 0 where
    pub usr : User
    pub td : TenantDashboard
    pub checked : W
    pub last : W
    pub authenticates :
        Authenticates service.texts service.credentials service.render service.split_host_port
          service.auth service.clock service.new_uuid db.tenants db.show r w usr checked
    pub domain : t.domain_of checked fixed_domain ≡ some td
    pub access :
        (usr.role.value ≢ "USER") ⊎ (t.access checked usr.id td.dashboard_id ≡ some td.tenant_id)
    pub made :
        Auth.generate_token service.auth
          (tenant_for service.texts service.credentials service.render service.split_host_port
            service.auth service.clock service.new_uuid db.tenants db.show t laws usr td)
          usr.id
          td.dashboard_id
          usr.role
          checked
        ≡ (ok token, last)

  -- A function of the mux that answers such a request with the token.
  abbrev pub IsAnswering : Registered W Context Request → Type 0
  IsAnswering h =
      (out : ℕ) (ctx : Context) (r : Request) (w : W) (token : String)
      → IsWelcome r (started ctx out r w) token
      → (h out ctx r w).0
        ≡ respond cfg.encode cfg.write_error cfg.canceled
            (document (cfg.render (record { token = token })))

  abbrev handler : HandlerFunc W Context Request
  handler =
      login service.texts service.credentials service.render service.split_host_port service.auth
        service.clock service.new_uuid (TenantDb.new_store db.tenants db.show)

  abbrev pub IsLoginAnswering : String × Registered W Context Request → Type 0
  IsLoginAnswering (pattern, h) = pattern ≡ "POST /v1/auth/login" → IsAnswering h

  -- the route of the login, which answers
  abbrev pub IsLogin : String × Registered W Context Request → Type 0
  IsLogin (pattern, h) = (pattern ≡ "POST /v1/auth/login") × IsAnswering h
