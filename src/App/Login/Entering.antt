-- ===== src/App/Login/Entering.antt =====
-- Who gets a token from the login over the tables of the database.
use spi_exata.Base.{pair_path, String, ◌≡◌, refl, ◌≢◌, ◌⊎◌, inl, inr, some}
use spi_exata.Base.Errors.{Result, ok}
use spi_exata.User.{Uuid, Time, Address, User}
use spi_exata.Tenant.{TenantDashboard}
use spi_exata.Tenant.Core
use spi_exata.Tenant.Core.{Storer}
use spi_exata.Tenant.Db
use spi_exata.Tenant.Db.{Drivers}
use spi_exata.Tenant.Db.Tables.{Tables, IsDatabase}
use spi_exata.Tenant.Db.Answers.{found, domain_lem}
use spi_exata.Tenant.Grants.{authorize-ok_iff, authorize-world, resolve_domain-eq-ok}
use spi_exata.Auth
use spi_exata.Auth.{Auth}
use spi_exata.Web.{document, answer}
use spi_exata.Web.Decoding.{Codec, decode}
use spi_exata.Mid.{Context, Request}
use spi_exata.App.Users.{Texts}
use spi_exata.App.Login.{Credentials, Token, fixed_domain, login}
use spi_exata.App.Login.Laws.{IsEntered, login-IsLogin}

module _ {W K P : Type 0} (texts : Texts) (credentials : Codec Credentials)
    (render : Token → String) (split_host_port : String → Result (String × String)) (a : Auth W K P)
    (clock : W → Time × W) (new_uuid : W → Uuid × W) (db : Drivers W) (show : Uuid → String)
    (t : Tables W) (laws : IsDatabase db show t) where
  resolve_domain-world :
      (domain : String) (w : W)
      → (Core.resolve_domain clock new_uuid (Db.new_store db show) domain w).1 ≡ w
  unfolding Core.resolve_domain Db.new_store found
  resolve_domain-world domain w = rw (domain_lem db show t laws domain w) refl

  -- A user of the domain who entered it, and the token that was made for this user: for the dashboard
  -- of the domain, and its tenant if the role is USER, or else no tenant.
  pub record IsTokenOf (usr : User) (domain : String) (w : W) (content : String) : Type 0 where
    pub td : TenantDashboard
    pub there : t.domain_of w domain ≡ some td
    pub tenant : Uuid
    pub entered :
        ((usr.role.value ≡ "USER")
          × (t.access w usr.id td.dashboard_id ≡ some td.tenant_id)
          × (tenant ≡ td.tenant_id))
        ⊎ ((usr.role.value ≢ "USER") × (tenant ≡ 0))
    pub token : String
    pub made : (Auth.generate_token a tenant usr.id td.dashboard_id usr.role w).0 ≡ ok token
    pub shown : content ≡ render (record { token = token })

  entered-IsTokenOf :
      (usr : User) (domain : String) (w : W) (content : String)
      → IsEntered texts credentials render split_host_port a clock new_uuid
          (Db.new_store db show)
          usr
          domain
          w
          content
      → IsTokenOf usr domain w content
  entered-IsTokenOf usr domain w content (inl (same, td, e, (token, made, shown))) =
      let world = authorize-world clock new_uuid db show t laws usr.id domain w in
      let (there, row) =
        (authorize-ok_iff clock new_uuid db show t laws usr.id domain w td).0 (pair_path e world) in
      record {
        td = td;
        there = there;
        tenant = td.tenant_id;
        entered = inl (same, row, refl);
        token = token;
        made = rw world at made;
        shown = shown;
      }
  entered-IsTokenOf usr domain w content (inr (other, td, e, (token, made, shown))) = record {
    td = td;
    there = resolve_domain-eq-ok clock new_uuid db show t laws domain w td e;
    tenant = 0;
    entered = inr (other, refl);
    token = token;
    made = rw (resolve_domain-world domain w) at made;
    shown = shown;
  }

  -- What stands behind an answer of the login: the credentials in the body of the request, the user
  -- whom the users' layer authenticates with them, and the token of this user in the answer.
  pub record IsLoggedIn (r : Request) (w : W) (content : String) : Type 0 where
    pub req : Credentials
    pub decoded : decode credentials r.body ≡ ok req
    pub addr : Address
    pub parsed : texts.parse_address req.email ≡ ok addr
    pub usr : User
    pub checked : (a.check_user addr req.password w).0 ≡ ok usr
    pub token : IsTokenOf usr fixed_domain (a.check_user addr req.password w).1 content

  -- If the login answers with a document, the body of the request holds an address and a password with
  -- which the users' layer authenticated a user; after that the database had a dashboard with the fixed
  -- domain, to which a user with the role USER had a row of access for its tenant; and the document is
  -- the token that was generated for this user, the dashboard and, if the role is USER, the tenant;
  -- provided that PostgreSQL does what IsDatabase says.
  pub login-IsLoggedIn :
      (ctx : Context) (r : Request) (w : W) (content : String)
      → (login texts credentials render split_host_port a clock new_uuid
          (Db.new_store db show)
          ctx
          r
          w).0
        ≡ answer (document content)
      → IsLoggedIn r w content
  login-IsLoggedIn ctx r w content h =
      let l =
        login-IsLogin texts credentials render split_host_port a clock new_uuid
          (Db.new_store db show) ctx r w content h in
      record {
        req = l.req;
        decoded = l.decoded;
        addr = l.addr;
        parsed = l.parsed;
        usr = l.usr;
        checked = l.checked;
        token =
            entered-IsTokenOf l.usr fixed_domain (a.check_user l.addr l.req.password w).1 content
              l.entered;
      }
