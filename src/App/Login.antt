-- ===== src/App/Login.antt =====
-- app/domain/authapp: the handler of the login.
pub mod Laws
pub mod Entering
pub mod Issuing
use spi_exata.Base.{String, if◌then◌else◌}
use spi_exata.Base.Errors.{domain_not_found, access_denied, Error, sentinel, is_error, Result}
use spi_exata.Base.State
use spi_exata.Base.State.{lift}
use spi_exata.Types.Enums.{user, equal}
use spi_exata.User.{Uuid, Time, User}
use spi_exata.Tenant.{TenantDashboard}
use spi_exata.Tenant.Core
use spi_exata.Tenant.Core.{Storer}
use spi_exata.Auth
use spi_exata.Auth.{Auth, extract_domain}
use spi_exata.Errs.Codes.{
  invalid_argument, permission_denied, not_found, unauthenticated, internal_only_log,
}
use spi_exata.Web.{Encoder, document, Answer, answer, HandlerFunc}
use spi_exata.Web.Decoding.{Codec, decode, attempt}
use spi_exata.Mid.{Context, Request}
use spi_exata.App.Users.{Texts}
use spi_exata.App.Users.Handlers.{refuse, refusef}

-- Login
pub record Credentials : Type 0 where
  pub email : String
  pub password : String

-- Token
pub record Token : Type 0 where
  pub token : String

-- the domain that replaces the one of the request
abbrev pub fixed_domain : String
fixed_domain = "apexata.govsp.com"

-- the error of ResolveDomain
pub resolve_refusal : Error → Encoder
unfolding is_error
resolve_refusal e =
    if is_error e domain_not_found
    then refuse not_found (sentinel domain_not_found)
    else refusef internal_only_log "ResolveDomain" e

module _ {W K P : Type 0} (texts : Texts) (credentials : Codec Credentials)
    (render : Token → String) (split_host_port : String → Result (String × String)) (a : Auth W K P)
    (clock : W → Time × W) (new_uuid : W → Uuid × W) (tenants : Storer W) where
  -- the token of the user for the tenant and the dashboard
  pub issue : User → TenantDashboard → W → Answer × W
  issue usr td =
      attempt (Auth.generate_token a td.tenant_id usr.id td.dashboard_id usr.role)
        (refusef internal_only_log "GenerateToken")
        (λ token w. (answer (document (render (record { token = token }))), w))

  -- the dashboard that a user may use, or for an admin or an analyst the one with the domain, without
  -- its tenant
  pub enter : User → String → W → Answer × W
  unfolding issue
  enter usr domain =
      if equal usr.role user
      then attempt (Core.authorize_user_access_to_dashboard clock new_uuid tenants usr.id domain)
          (λ _. refuse permission_denied (sentinel access_denied)) (issue usr)
      else attempt (Core.resolve_domain clock new_uuid tenants domain) resolve_refusal
          (λ td. issue usr (record td { tenant_id = 0 }))

  unfoldable pub login : HandlerFunc W Context Request
  unfolding enter
  login ctx r = attempt (lift (decode credentials r.body)) (refuse invalid_argument) (λ req.
      attempt (State.wrapping "parsing email" (lift (texts.parse_address req.email)))
        (refuse invalid_argument)
        (λ addr. attempt (Auth.login a addr req.password) (refuse unauthenticated) (λ usr.
          let domain = extract_domain split_host_port r.host in
          let domain' = fixed_domain in enter usr domain')))
