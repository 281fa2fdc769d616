-- ===== src/Tenant/Db/Answers.antt =====
-- What the store of tenantdb.go answers over the tables of the database.
use spi_exata.Base.{
  String, ◌≡◌, refl, ◌↔◌, inl, inr, Bool, true, false, Option, none, some, arith, ◌==◌,
  if◌then◌else◌, Bool-cases, Option-cases,
}
use spi_exata.Base.Errors.{
  tenant_not_found, domain_not_found, access_denied, Error, sentinel, Result, ok, err,
}
use spi_exata.Sdk.Sqldb.{reply, scan_first}
use spi_exata.User.{Uuid}
use spi_exata.Tenant.Db
use spi_exata.Tenant.Db.{
  Drivers, missing_as, upsert_membership, insert_access, user_tenant, user_dashboard_tenant,
}
use spi_exata.Tenant.Db.Tables.{Tables, IsDatabase}

unfoldable pub found : {A : Type 0} → Option A → Error → Result A
found none e = err e
found (some x) e = ok x

-- whether a row is there for the tenant
pub fits : Option Uuid → Uuid → Bool
fits none x = false
fits (some y) x = y == x

unfoldable pub checked : Bool → Result (Unit {0})
checked b = if b then ok tt else err (sentinel access_denied)

pub fits_iff : (o : Option Uuid) (x : Uuid) → (fits o x ≡ true) ↔ (o ≡ some x)
unfolding fits
fits_iff none x = ground arith
fits_iff (some y) x = ground arith

module _ {W : Type 0} (db : Drivers W) (show : Uuid → String) where
  pub upserted :
      (u x : Uuid) (w : W)
      → (Db.add_user_to_tenant db show u x w).0 ≡ ok tt
      → (db.ones.exec upsert_membership (user_tenant db show u x) w).0 ≡ reply tt
  unfolding Db.add_user_to_tenant
  upserted u x w h = ground arith

  pub inserted :
      (u d x : Uuid) (w : W)
      → (Db.add_user_to_dashboard db show u d x w).0 ≡ ok tt
      → (db.ones.exec insert_access (user_dashboard_tenant db show u d x) w).0 ≡ reply tt
  unfolding Db.add_user_to_dashboard
  inserted u d x w h = ground arith

  unfoldable pub upsert : Uuid → Uuid → W → W
  upsert u x w = (db.ones.exec upsert_membership (user_tenant db show u x) w).1

  unfoldable pub insert : Uuid → Uuid → Uuid → W → W
  insert u d x w = (db.ones.exec insert_access (user_dashboard_tenant db show u d x) w).1

  pub upsert_lem : (u x : Uuid) (w : W) → (Db.add_user_to_tenant db show u x w).1 ≡ upsert u x w
  unfolding Db.add_user_to_tenant upsert
  upsert_lem u x w = refl

  pub insert_lem :
      (u d x : Uuid) (w : W) → (Db.add_user_to_dashboard db show u d x w).1 ≡ insert u d x w
  unfolding Db.add_user_to_dashboard insert
  insert_lem u d x w = refl

module _ {W : Type 0} (db : Drivers W) (show : Uuid → String) (t : Tables W)
    (laws : IsDatabase db show t) where
  pub domain_lem :
      (domain : String) (w : W)
      → Db.query_by_domain db show domain w
        ≡ (found (t.domain_of w domain) (sentinel domain_not_found), w)
  unfolding Db.query_by_domain found scan_first
  domain_lem domain w = elim (Option-cases (t.domain_of w domain)) [
    | inl e ↦ rw (laws.by_domain domain w, e) refl
    | inr (td, e) ↦ rw (laws.by_domain domain w, e) refl
  ]

  pub dashboard_lem :
      (d : Uuid) (w : W)
      → Db.query_tenant_id_by_dashboard_id db show d w
        ≡ (found (t.tenant_of w d) (sentinel tenant_not_found), w)
  unfolding Db.query_tenant_id_by_dashboard_id found scan_first
  dashboard_lem d w = elim (Option-cases (t.tenant_of w d)) [
    | inl e ↦ rw (laws.by_dashboard d w, e) refl
    | inr (x, e) ↦ rw (laws.by_dashboard d w, e) refl
  ]

  pub access_lem :
      (u d x : Uuid) (w : W)
      → Db.check_user_dashboard_access db show u d x w ≡ (checked (fits (t.access w u d) x), w)
  unfolding Db.check_user_dashboard_access checked fits scan_first
  access_lem u d x w = elim (Option-cases (t.access w u d)) [
    | inl e ↦ rw (laws.by_access u d x w, e) refl
    | inr (y, e) ↦ elim (Bool-cases (y == x)) [
      | inl same ↦ rw (laws.by_access u d x w, e, same) refl
      | inr other ↦ rw (laws.by_access u d x w, e, other) refl
    ]
  ]

  pub member_lem :
      (u x : Uuid) (w : W)
      → Db.check_tenant_access db show u x w ≡ (checked (fits (t.member w u) x), w)
  unfolding Db.check_tenant_access checked fits scan_first
  member_lem u x w = elim (Option-cases (t.member w u)) [
    | inl e ↦ rw (laws.by_membership u x w, e) refl
    | inr (y, e) ↦ elim (Bool-cases (y == x)) [
      | inl same ↦ rw (laws.by_membership u x w, e, same) refl
      | inr other ↦ rw (laws.by_membership u x w, e, other) refl
    ]
  ]
