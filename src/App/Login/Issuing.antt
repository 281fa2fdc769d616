-- ===== src/App/Login/Issuing.antt =====
-- Who is sure to get a token from the login.
use spi_exata.Base.{
  String, ◌≡◌, refl, ◌≢◌, ◌⊎◌, inl, inr, none, some, ◌∷◌, List, arith, eq_iff, Option-cases,
  Bool-cases, ◌∙◌, if◌then◌else◌,
}
use spi_exata.Base.Errors.{Result, ok}
use spi_exata.Types.Enums.{user, equal}
use spi_exata.User.{Uuid, Time, Address, User}
use spi_exata.User.Core.{Host}
use spi_exata.User.Core as Users
use spi_exata.Tenant.{TenantDashboard}
use spi_exata.Tenant.Core
use spi_exata.Tenant.Db
use spi_exata.Tenant.Db.{Drivers}
use spi_exata.Tenant.Db.Answers.{found, domain_lem}
use spi_exata.Tenant.Db.Tables.{Tables, IsDatabase}
use spi_exata.Tenant.Grants.{authorize-ok_iff}
use spi_exata.Auth
use spi_exata.Auth.{Auth}
use spi_exata.Web.{document, answer}
use spi_exata.Web.Decoding.{Codec, decode}
use spi_exata.Mid.{Context, Request}
use spi_exata.App.Users.{Texts}
use spi_exata.App.Login.{Credentials, Token, fixed_domain, issue, enter, login}
use spi_exata.Admin.{Flags, run}
use spi_exata.Admin.Laws.{link_user-authorize}

module _ {W K P : Type 0} (texts : Texts) (credentials : Codec Credentials)
    (render : Token → String) (split_host_port : String → Result (String × String)) (a : Auth W K P)
    (clock : W → Time × W) (new_uuid : W → Uuid × W) (db : Drivers W) (show : Uuid → String) where
  issued :
      (usr : User) (td : TenantDashboard) (w w' : W) (token : String)
      → Auth.generate_token a td.tenant_id usr.id td.dashboard_id usr.role w ≡ (ok token, w')
      → issue texts credentials render split_host_port a clock new_uuid
          (Db.new_store db show)
          usr
          td
          w
        ≡ (answer (document (render (record { token = token }))), w')
  unfolding issue
  issued usr td w w' token h = rw h refl

  -- That the text of the request is an address and a password of the user, who is found by the users'
  -- layer, which leaves the world `w'`.
  pub record Authenticates (r : Request) (w : W) (usr : User) (w' : W) : Type 0 where
    pub req : Credentials
    pub decoded : decode credentials r.body ≡ ok req
    pub addr : Address
    pub parsed : texts.parse_address req.email ≡ ok addr
    pub is_set : a.user_bus ≢ none
    pub checked : a.check_user addr req.password w ≡ (ok usr, w')

  logged_in :
      (ctx : Context) (r : Request) (w w' : W) (usr : User)
      → Authenticates r w usr w'
      → login texts credentials render split_host_port a clock new_uuid
          (Db.new_store db show)
          ctx
          r
          w
        ≡ enter texts credentials render split_host_port a clock new_uuid
            (Db.new_store db show)
            usr
            fixed_domain
            w'
  unfolding login Auth.login
  logged_in ctx r w w' usr h = elim (Option-cases a.user_bus) [
    | inl e ↦ absurd (h.is_set e)
    | inr (find, e) ↦ rw (h.decoded, h.parsed, e, h.checked) refl
  ]

  module _ (t : Tables W) (laws : IsDatabase db show t) where
    resolved :
        (domain : String) (w : W) (td : TenantDashboard)
        → t.domain_of w domain ≡ some td
        → Core.resolve_domain clock new_uuid (Db.new_store db show) domain w ≡ (ok td, w)
    unfolding Core.resolve_domain Db.new_store found
    resolved domain w td e = rw (domain_lem db show t laws domain w, e) refl

    -- the tenant that a token names: the dashboard's for the role USER, and none for others
    abbrev pub tenant_for : User → TenantDashboard → Uuid
    tenant_for usr td = if equal usr.role user then td.tenant_id else 0

    entered :
        (usr : User) (domain : String) (td : TenantDashboard) (w w' : W) (token : String)
        → t.domain_of w domain ≡ some td
        → (usr.role.value ≢ "USER") ⊎ (t.access w usr.id td.dashboard_id ≡ some td.tenant_id)
        → Auth.generate_token a (tenant_for usr td) usr.id td.dashboard_id usr.role w
          ≡ (ok token, w')
        → enter texts credentials render split_host_port a clock new_uuid
            (Db.new_store db show)
            usr
            domain
            w
          ≡ (answer (document (render (record { token = token }))), w')
    unfolding enter
    entered usr domain td w w' token there may h = elim (Bool-cases (equal usr.role user)) [
      | inl same ↦
          let row : t.access w usr.id td.dashboard_id ≡ some td.tenant_id =
            ground (arith, eq_iff usr.role.value "USER") in
          let k = rw same at h in
          rw
            (
              same,
              (authorize-ok_iff clock new_uuid db show t laws usr.id domain w td).1 (there, row),
            )
            (issued usr td w w' token k)
      | inr other ↦
          let k = rw other at h in
          rw (other, resolved domain w td there)
            (issued usr (record td { tenant_id = 0 }) w w' token k)
    ]

    -- The login answers with a token whenever the body authenticates a user, the fixed domain has a
    -- dashboard, the user has another role than USER or a row of access to that dashboard for its
    -- tenant, and a token can be generated, if the driver behaves as IsDatabase says.
    pub login_answers :
        (ctx : Context) (r : Request) (w w1 w2 : W) (usr : User) (td : TenantDashboard)
        (token : String)
        → Authenticates r w usr w1
        → t.domain_of w1 fixed_domain ≡ some td
        → (usr.role.value ≢ "USER") ⊎ (t.access w1 usr.id td.dashboard_id ≡ some td.tenant_id)
        → Auth.generate_token a (tenant_for usr td) usr.id td.dashboard_id usr.role w1
          ≡ (ok token, w2)
        → login texts credentials render split_host_port a clock new_uuid
            (Db.new_store db show)
            ctx
            r
            w
          ≡ (answer (document (render (record { token = token }))), w2)
    login_answers ctx r w w1 w2 usr td token h there may made =
        logged_in ctx r w w1 usr h ∙ entered usr fixed_domain td w1 w2 token there may made

    -- After link-user has succeeded for the dashboard of the fixed domain, and there was no row of
    -- access for the user and it before, that user logs in and gets a token for the dashboard, if the
    -- body of the request authenticates the user without changing anything, a token can be generated
    -- for them, and the driver behaves as IsDatabase says.
    pub link_user-login :
        (flags : Flags) (host : Host W) (users : Users.Storer W) (program : String)
        (args : List String) (w : W) (u : Uuid) (td : TenantDashboard)
        → (run flags host users clock new_uuid
            (Db.new_store db show)
            (program ∷ "link-user" ∷ args)
            w).0
          ≡ ok tt
        → let w1 =
            (run flags host users clock new_uuid
              (Db.new_store db show)
              (program ∷ "link-user" ∷ args)
              w).1 in
          flags.parse_uuid (flags.link_flags args).user_id ≡ ok u
          → flags.parse_uuid (flags.link_flags args).dashboard_id ≡ ok td.dashboard_id
          → t.domain_of w fixed_domain ≡ some td
          → t.access w u td.dashboard_id ≡ none
          → (ctx : Context) (r : Request) (usr : User) (token : String) (w2 : W) → usr.id ≡ u
          → Authenticates r w1 usr w1
          → Auth.generate_token a (tenant_for usr td) usr.id td.dashboard_id usr.role w1
            ≡ (ok token, w2)
          → login texts credentials render split_host_port a clock new_uuid
              (Db.new_store db show)
              ctx
              r
              w1
            ≡ (answer (document (render (record { token = token }))), w2)
    link_user-login flags host users program args w u td done parsed parsed2 there fresh ctx r usr
          token w2 same h made =
        let (u', d', p, p2, enters) =
          link_user-authorize flags host users clock new_uuid db show t laws program args w done in
        let su : u' ≡ u = ground arith in
        let sd : td.dashboard_id ≡ d' = ground arith in
        let k = enters fixed_domain td there sd (rw (su, ← sd) fresh) in
        let (there', row) =
          (authorize-ok_iff clock new_uuid db show t laws u' fixed_domain _ td).0 k in
        login_answers ctx r _ _ w2 usr td token h there' (inr (rw (same, ← su) row)) made
