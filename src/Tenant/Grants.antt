-- ===== src/Tenant/Grants.antt =====
-- The tenants' business layer over the store of tenantdb.go and the tables of the database: who can
-- use which dashboard.
use spi_exata.Base.{
  String, ◌≡◌, refl, sym, ◌∙◌, ◌≢◌, ◌↔◌, ◌⊎◌, inl, inr, ◌&&◌, Option, none, some, arith, ◌==◌,
  if◌then◌else◌, Bool-cases, Option-cases,
}
use spi_exata.Base.Errors.{ok}
use spi_exata.Base.State.{M}
use spi_exata.User.{Uuid, Time}
use spi_exata.Tenant.{TenantDashboard}
use spi_exata.Tenant.Core
use spi_exata.Tenant.Db
use spi_exata.Tenant.Db.{
  Drivers, missing_as, upsert_membership, insert_access, user_tenant, user_dashboard_tenant,
}
use spi_exata.Tenant.Db.Answers.{
  found, fits, checked, fits_iff, upsert, insert, upserted, inserted, upsert_lem, insert_lem,
  domain_lem, dashboard_lem, access_lem, member_lem,
}
use spi_exata.Tenant.Db.Tables.{Tables, kept, IsDatabase}

module _ {W : Type 0} (clock : W → Time × W) (new_uuid : W → Uuid × W) (db : Drivers W)
    (show : Uuid → String) where
  abbrev pub authorize : Uuid → String → M W TenantDashboard
  authorize u domain =
      Core.authorize_user_access_to_dashboard clock new_uuid (Db.new_store db show) u domain

  abbrev pub grant : Uuid → Uuid → M W (Unit {0})
  grant u d = Core.grant_user_access_to_dashboard clock new_uuid (Db.new_store db show) u d

  abbrev pub check_access : Uuid → Uuid → M W (Unit {0})
  check_access u x = Core.check_access clock new_uuid (Db.new_store db show) u x

  module _ (t : Tables W) (laws : IsDatabase db show t) where
    -- If PostgreSQL does what IsDatabase says, AuthorizeUserAccessToDashboard gives a dashboard and
    -- changes nothing exactly when it is the one with the domain and there is a row that gives the
    -- user access to it for its tenant. That the user is a member of the tenant is not asked for.
    pub authorize-ok_iff :
        (u : Uuid) (domain : String) (w : W) (td : TenantDashboard)
        → (authorize u domain w ≡ (ok td, w))
          ↔ ((t.domain_of w domain ≡ some td) × (t.access w u td.dashboard_id ≡ some td.tenant_id))
    unfolding Core.authorize_user_access_to_dashboard Db.new_store found checked
    authorize-ok_iff u domain w td = elim (Option-cases (t.domain_of w domain)) [
      | inl e ↦ rw (domain_lem db show t laws domain w, e) (ground arith)
      | inr (x, e) ↦
          rw
            (
              domain_lem db show t laws domain w,
              e,
              access_lem db show t laws u x.dashboard_id x.tenant_id w,
            )
            (ground (arith, fits_iff (t.access w u x.dashboard_id) x.tenant_id))
    ]

    -- Letting a user in changes nothing, and neither does resolving a domain.
    pub authorize-world : (u : Uuid) (domain : String) (w : W) → (authorize u domain w).1 ≡ w
    unfolding Core.authorize_user_access_to_dashboard Db.new_store found checked
    authorize-world u domain w = elim (Option-cases (t.domain_of w domain)) [
      | inl e ↦ rw (domain_lem db show t laws domain w, e) refl
      | inr (x, e) ↦
          rw
            (
              domain_lem db show t laws domain w,
              e,
              access_lem db show t laws u x.dashboard_id x.tenant_id w,
            )
            (elim (Bool-cases (fits (t.access w u x.dashboard_id) x.tenant_id)) [
              | inl f ↦ rw f refl
              | inr f ↦ rw f refl
            ])
    ]

    pub resolve_domain-eq-ok :
        (domain : String) (w : W) (td : TenantDashboard)
        → (Core.resolve_domain clock new_uuid (Db.new_store db show) domain w).0 ≡ ok td
        → t.domain_of w domain ≡ some td
    unfolding Core.resolve_domain Db.new_store found
    resolve_domain-eq-ok domain w td h = elim (Option-cases (t.domain_of w domain)) [
      | inl e ↦ let k = rw (domain_lem db show t laws domain w, e) at h in cc
      | inr (x, e) ↦
          let k : ok x ≡ ok td = rw (domain_lem db show t laws domain w, e) at h in ground arith
    ]

    -- What granting a dashboard of the tenant did.
    pub record IsGranted (u d x : Uuid) (w w' : W) : Type 0 where
      pub tenant : t.tenant_of w d ≡ some x
      pub member : (i : Uuid) → t.member w' i ≡ (if i == u then some x else t.member w i)
      pub access :
          (i e : Uuid)
          → t.access w' i e
            ≡ (if i == u && e == d then some (kept (t.access w u d) x) else t.access w i e)
      pub domain_of : (domain : String) → t.domain_of w' domain ≡ t.domain_of w domain
      pub tenant_of : (e : Uuid) → t.tenant_of w' e ≡ t.tenant_of w e

    -- The calls of a grant that succeeded.
    grant_steps :
        (u d : Uuid) (w : W)
        → (grant u d w).0 ≡ ok tt
        → (x : Uuid) × (t.tenant_of w d ≡ some x)
          × ((Db.add_user_to_tenant db show u x w).0 ≡ ok tt)
          × ((Db.add_user_to_dashboard db show u d x (upsert db show u x w)).0 ≡ ok tt)
          × ((grant u d w).1 ≡ insert db show u d x (upsert db show u x w))
    unfolding Core.grant_user_access_to_dashboard Db.new_store found
    grant_steps u d w h = elim (Option-cases (t.tenant_of w d)) [
      | inl e ↦ let k = rw (dashboard_lem db show t laws d w, e) at h in cc
      | inr (x, e) ↦
          let k = rw (dashboard_lem db show t laws d w, e) at h in
          let a : (Db.add_user_to_tenant db show u x w).0 ≡ ok tt = ground arith in
          let m = upsert_lem db show u x w in
          let n = insert_lem db show u d x (upsert db show u x w) in
          rw (dashboard_lem db show t laws d w, e) (x, refl, a, ground arith, ground arith)
    ]

    -- A grant that succeeds makes the user a member of the dashboard's tenant, in place of any other,
    -- and adds the row of access for that tenant unless there is one for the user and the dashboard;
    -- it changes no other user's rows, no other row of access, and no dashboard.
    pub grant-IsGranted :
        (u d : Uuid) (w : W)
        → (grant u d w).0 ≡ ok tt
        → (x : Uuid) × IsGranted u d x w (grant u d w).1
    unfolding upsert insert
    grant-IsGranted u d w h =
        let (x, tenant, added, given, world) = grant_steps u d w h in
        let done = upserted db show u x w added in
        let there = inserted db show u d x (upsert db show u x w) given in
        let same = laws.upsert_dashboards u x w in
        let same' = laws.insert_dashboards u d x (upsert db show u x w) in
        let old = laws.upsert_access u x w in
        (
          x,
          record {
            tenant = tenant;
            member = λ i. rw world (
                laws.insert_member u d x (upsert db show u x w) i
                ∙ laws.upsert_member u x w done i);
            access = λ i e.
                rw (world, ← old u d, ← old i e)
                  (laws.insert_row u d x (upsert db show u x w) there i e);
            domain_of = λ s. rw world (same'.domain_of s ∙ same.domain_of s);
            tenant_of = λ e. rw world (same'.tenant_of e ∙ same.tenant_of e);
          },
        )

    fits_kept :
        (o : Option Uuid) (x : Uuid) → (some (kept o x) ≡ some x) ↔ ((o ≡ none) ⊎ (o ≡ some x))
    fits_kept none x = ground arith
    fits_kept (some y) x = ground arith

    -- After a dashboard with a domain has been granted to a user, the user is let in under that domain
    -- exactly if there was no row of access for the two before, or one for the dashboard's tenant: a
    -- row for another tenant is kept, and still shuts the user out. PostgreSQL does what IsDatabase
    -- says.
    pub grant-authorize_iff :
        (u : Uuid) (domain : String) (w : W) (td : TenantDashboard)
        → t.domain_of w domain ≡ some td
        → (grant u td.dashboard_id w).0 ≡ ok tt
        → (authorize u domain (grant u td.dashboard_id w).1
            ≡ (ok td, (grant u td.dashboard_id w).1))
          ↔ ((t.access w u td.dashboard_id ≡ none)
              ⊎ (t.access w u td.dashboard_id ≡ some td.tenant_id))
    grant-authorize_iff u domain w td e h =
        let (x, g) = grant-IsGranted u td.dashboard_id w h in
        let same : some x ≡ some td.tenant_id = sym g.tenant ∙ laws.one_row domain td w e in
        let row = g.access u td.dashboard_id in
        let there = g.domain_of domain ∙ e in
        ground (
          arith,
          authorize-ok_iff u domain (grant u td.dashboard_id w).1 td,
          fits_kept (t.access w u td.dashboard_id) x,
        )

    check_access-eq-ok_iff :
        (u x : Uuid) (w : W) → ((check_access u x w).0 ≡ ok tt) ↔ (t.member w u ≡ some x)
    unfolding Core.check_access Db.new_store checked
    check_access-eq-ok_iff u x w =
        rw (member_lem db show t laws u x w) (ground (arith, fits_iff (t.member w u) x))

    -- A user without a row of access to the dashboard with a domain is granted it, and then a dashboard
    -- of another tenant: if both grants succeed, and PostgreSQL does what IsDatabase says, the user is
    -- no member of the first tenant any more, and is still let in under the domain.
    pub access_after_membership :
        (u : Uuid) (domain : String) (w : W) (td other : TenantDashboard)
        → t.domain_of w domain ≡ some td
        → t.access w u td.dashboard_id ≡ none
        → (grant u td.dashboard_id w).0 ≡ ok tt
        → t.tenant_of w other.dashboard_id ≡ some other.tenant_id
        → other.tenant_id ≢ td.tenant_id
        → (grant u other.dashboard_id (grant u td.dashboard_id w).1).0 ≡ ok tt
        → let w2 = (grant u other.dashboard_id (grant u td.dashboard_id w).1).1 in
          ((check_access u td.tenant_id w2).0 ≢ ok tt) × (authorize u domain w2 ≡ (ok td, w2))
    access_after_membership u domain w td other e new h f apart k =
        let w1 = (grant u td.dashboard_id w).1 in
        let w2 = (grant u other.dashboard_id w1).1 in
        let (x, g) = grant-IsGranted u td.dashboard_id w h in
        let (y, g2) = grant-IsGranted u other.dashboard_id w1 k in
        let same : some x ≡ some td.tenant_id = sym g.tenant ∙ laws.one_row domain td w e in
        let same2 : some y ≡ some other.tenant_id =
          sym g2.tenant ∙ g.tenant_of other.dashboard_id ∙ f in
        let row = g.access u td.dashboard_id in
        let row2 = g2.access u td.dashboard_id in
        let member2 = g2.member u in
        let there = g2.domain_of domain ∙ g.domain_of domain ∙ e in
        ground (arith, authorize-ok_iff u domain w2 td, check_access-eq-ok_iff u td.tenant_id w2)
