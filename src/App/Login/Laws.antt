-- ===== src/App/Login/Laws.antt =====
-- Who gets a token from the login, and for which dashboard.
use spi_exata.Base.{String, ◌≡◌, refl, ◌≢◌, ◌⊎◌, inl, inr, arith, eq_iff, Bool-cases, Option-cases}
use spi_exata.Base.Errors.{Result, ok, value_of}
use spi_exata.Types.Enums.{user, equal}
use spi_exata.User.{Uuid, Time, Address, User}
use spi_exata.Tenant.{TenantDashboard}
use spi_exata.Tenant.Core
use spi_exata.Tenant.Core.{Storer}
use spi_exata.Auth
use spi_exata.Auth.{Auth}
use spi_exata.Web.{document, answer}
use spi_exata.Web.Decoding.{Codec, decode}
use spi_exata.Mid.{Context, Request}
use spi_exata.App.Users.{Texts}
use spi_exata.App.Login.{Credentials, Token, fixed_domain, resolve_refusal, issue, enter, login}

module _ {W K P : Type 0} (texts : Texts) (credentials : Codec Credentials)
    (render : Token → String) (split_host_port : String → Result (String × String)) (a : Auth W K P)
    (clock : W → Time × W) (new_uuid : W → Uuid × W) (tenants : Storer W) where
  -- The token in an answer was made for the tenant and the dashboard.
  abbrev pub IsIssued : User → Uuid → Uuid → W → String → Type 0
  IsIssued usr tenant_id dashboard_id w content =
      (token : String) × ((Auth.generate_token a tenant_id usr.id dashboard_id usr.role w).0
        ≡ ok token)
      × (content ≡ render (record { token = token }))

  issue-answer :
      (usr : User) (td : TenantDashboard) (w : W) (content : String)
      → (issue texts credentials render split_host_port a clock new_uuid tenants usr td w).0
        ≡ answer (document content)
      → IsIssued usr td.tenant_id td.dashboard_id w content
  unfolding issue
  issue-answer usr td w content h =
      let (token, e) =
        value_of (Auth.generate_token a td.tenant_id usr.id td.dashboard_id usr.role w).0
          (ground arith) in
      (token, e, ground arith)

  -- What entering a domain established: a user with the role USER may use the dashboard, and any
  -- other gets a token for the dashboard with the domain and for no tenant.
  abbrev pub IsEntered : User → String → W → String → Type 0
  IsEntered usr domain w content =
      ((usr.role.value ≡ "USER")
        × (td : TenantDashboard) × ((Core.authorize_user_access_to_dashboard clock new_uuid tenants
              usr.id domain w).0
            ≡ ok td)
        × IsIssued usr td.tenant_id td.dashboard_id
            (Core.authorize_user_access_to_dashboard clock new_uuid tenants usr.id domain w).1
            content)
      ⊎ ((usr.role.value ≢ "USER")
          × (td : TenantDashboard) × ((Core.resolve_domain clock new_uuid tenants domain w).0
              ≡ ok td)
          × IsIssued usr 0 td.dashboard_id (Core.resolve_domain clock new_uuid tenants domain w).1
              content)

  enter-IsEntered :
      (usr : User) (domain : String) (w : W) (content : String)
      → (enter texts credentials render split_host_port a clock new_uuid tenants usr domain w).0
        ≡ answer (document content)
      → IsEntered usr domain w content
  unfolding enter resolve_refusal
  enter-IsEntered usr domain w content h = elim (Bool-cases (equal usr.role user)) [
    | inl same ↦
        let k = rw same at h in
        let (td, e) =
          value_of
            (Core.authorize_user_access_to_dashboard clock new_uuid tenants usr.id domain w).0
            (ground arith) in
        inl
          ((eq_iff usr.role.value "USER").0 same, td, e, issue-answer usr td _ content (rw e at k))
    | inr other ↦
        let k = rw other at h in
        let (td, e) =
          value_of (Core.resolve_domain clock new_uuid tenants domain w).0 (ground arith) in
        inr (
          (λ same. ground (arith, eq_iff usr.role.value "USER")),
          td,
          e,
          issue-answer usr (record td { tenant_id = 0 }) _ content (rw e at k),
        )
  ]

  checked-login :
      (addr : Address) (password : String) (w : W) (usr : User)
      → (Auth.login a addr password w).0 ≡ ok usr
      → ((a.check_user addr password w).0 ≡ ok usr)
        × ((Auth.login a addr password w).1 ≡ (a.check_user addr password w).1)
  unfolding Auth.login
  checked-login addr password w usr h = elim (Option-cases a.user_bus) [
    | inl e ↦ let k = rw e at h in cc
    | inr (find, e) ↦ let k = rw e at h in rw e (ground arith, refl)
  ]

  -- What the login established before it answered with a token.
  pub record IsLogin (r : Request) (w : W) (content : String) : Type 0 where
    pub req : Credentials
    pub decoded : decode credentials r.body ≡ ok req
    pub addr : Address
    pub parsed : texts.parse_address req.email ≡ ok addr
    pub usr : User
    pub checked : (a.check_user addr req.password w).0 ≡ ok usr
    pub entered : IsEntered usr fixed_domain (a.check_user addr req.password w).1 content

  -- Whatever the host of the request, the login answers with a document only if the body holds an
  -- address and a password with which the users' layer authenticates a user; the document is the
  -- token that was generated for this user, and for the dashboard of the fixed domain: with its
  -- tenant for a user who may use it, if the role is USER, and without a tenant for other roles.
  pub login-IsLogin :
      (ctx : Context) (r : Request) (w : W) (content : String)
      → (login texts credentials render split_host_port a clock new_uuid tenants ctx r w).0
        ≡ answer (document content)
      → IsLogin r w content
  unfolding login
  login-IsLogin ctx r w content h =
      let (req, d) = value_of (decode credentials r.body) (ground arith) in
      let (addr, p) = value_of (texts.parse_address req.email) (ground arith) in
      let (usr, l) = value_of (Auth.login a addr req.password w).0 (ground arith) in
      let (checked, world) = checked-login addr req.password w usr l in
      record {
        req = req;
        decoded = d;
        addr = addr;
        parsed = p;
        usr = usr;
        checked = checked;
        entered = rw (← world) (
            enter-IsEntered usr fixed_domain (Auth.login a addr req.password w).1 content
              (rw (d, p, l) at h));
      }
