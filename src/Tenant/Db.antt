-- ===== src/Tenant/Db.antt =====
-- business/domain/tenantbus/stores: the store of the tenants over drivers (model.go, tenantdb.go). The
-- texts of the statements are those of the source with each run of white space as one space.
mod Statements
pub mod Tables
pub mod Answers
pub mod Asked
use spi_exata.Base.{String, Bool, ◌||◌, none, some, [], ◌∷◌, ◌is◌, if◌then◌else◌}
use spi_exata.Base.Errors.{
  tenant_not_found, domain_not_found, access_denied, unique_slug, db_not_found, Error, sentinel,
  wrap, is_error, as_duplicate,
}
use spi_exata.Base.Errors.{ok}
use spi_exata.Base.Errors as Errors
use spi_exata.Sdk.Tran.{NewWithTx, get_ext_context}
use spi_exata.Base.State.{M, ◌>>=◌, ◌>>◌, return, wrapping, replacing}
use spi_exata.Base.Int.{ℤ}
use spi_exata.Sdk.Sqldb.{Params, uuid, time, string, bool, Driver, named_exec, named_query_struct}
use spi_exata.User.{Uuid, Time}
pub use Statements.*
use spi_exata.Tenant.{Tenant, TenantDashboard}
use spi_exata.Tenant.Core.{Storer}

-- tenantDB
pub record TenantRow : Type 0 where
  pub id : Uuid
  pub name : String
  pub slug : String
  pub enabled : Bool
  pub created_at : Time
  pub updated_at : Time

to_db_tenant : Tenant → TenantRow
to_db_tenant bus = record {
  id = bus.id;
  name = bus.name;
  slug = bus.slug;
  enabled = bus.enabled;
  created_at = bus.created_at;
  updated_at = bus.updated_at;
}

unfoldable pub to_bus_tenant : TenantRow → Tenant
to_bus_tenant db = record {
  id = db.id;
  name = db.name;
  slug = db.slug;
  enabled = db.enabled;
  created_at = db.created_at;
  updated_at = db.updated_at;
}

-- the arguments that sqlx reads from a tenantDB by its tags
abbrev pub tenant_params : TenantRow → Params
tenant_params db =
    ("tenant_id", uuid db.id)
    ∷ ("name", string db.name)
    ∷ ("slug", string db.slug)
    ∷ ("enabled", bool db.enabled)
    ∷ ("created_at", time db.created_at)
    ∷ ("updated_at", time db.updated_at)
    ∷ []

-- the error of Create
unfoldable pub create_error : Error → Error
unfolding as_duplicate
create_error e = elim (as_duplicate e) [
  | none ↦ wrap "namedexeccontext" e
  | some column ↦
      if column is "slug" || column is "uq_tenant_slug"
      then wrap "namedexeccontext" (sentinel unique_slug)
      else wrap "namedexeccontext" e
]

-- `if errors.Is(err, sqldb.ErrDBNotFound) { return ..., found }`, and else the wrapped error
unfoldable pub missing_as : Error → Error → Error
unfolding is_error
missing_as missing e = if is_error e db_not_found then missing else wrap "db" e

-- What the statements scan into: a tenantDB, an id, the ids of a dashboard, and the 1 of `SELECT 1`.
pub record Drivers (W : Type 0) : Type 0 where
  pub tenants : Driver W TenantRow
  pub ids : Driver W Uuid
  pub dashboards : Driver W TenantDashboard
  pub ones : Driver W ℤ

module _ {W : Type 0} (db : Drivers W) (show : Uuid → String) where
  abbrev pub user_tenant : Uuid → Uuid → Params
  user_tenant user_id tenant_id =
      ("user_id", string (show user_id)) ∷ ("tenant_id", string (show tenant_id)) ∷ []

  abbrev pub user_dashboard_tenant : Uuid → Uuid → Uuid → Params
  user_dashboard_tenant user_id dashboard_id tenant_id =
      ("user_id", string (show user_id))
      ∷ ("dashboard_id", string (show dashboard_id))
      ∷ ("tenant_id", string (show tenant_id))
      ∷ []

  unfoldable pub create : Tenant → M W (Unit {0})
  unfolding named_exec to_db_tenant
  create t =
      replacing create_error (named_exec db.tenants insert_tenant (tenant_params (to_db_tenant t)))

  unfoldable pub update : Tenant → M W (Unit {0})
  unfolding named_exec to_db_tenant
  update t =
      wrapping "namedexeccontext"
        (named_exec db.tenants update_tenant (tenant_params (to_db_tenant t)))

  unfoldable pub delete : Tenant → M W (Unit {0})
  unfolding named_exec to_db_tenant
  delete t =
      wrapping "namedexeccontext"
        (named_exec db.tenants delete_tenant (tenant_params (to_db_tenant t)))

  unfoldable pub query_by_id : Uuid → M W Tenant
  unfolding named_query_struct missing_as
  query_by_id tenant_id = do
    row ←
        replacing (missing_as (wrap "db" (sentinel tenant_not_found))) (
          named_query_struct db.tenants select_tenant (("tenant_id", string (show tenant_id)) ∷ []))
    return (to_bus_tenant row)

  unfoldable pub query_id_by_slug : String → M W Uuid
  unfolding named_query_struct missing_as
  query_id_by_slug slug =
      replacing (missing_as (sentinel tenant_not_found))
        (named_query_struct db.ids select_by_slug (("slug", string slug) ∷ []))

  unfoldable pub query_by_domain : String → M W TenantDashboard
  unfolding named_query_struct missing_as
  query_by_domain domain =
      replacing (missing_as (sentinel domain_not_found))
        (named_query_struct db.dashboards select_by_domain (("domain", string domain) ∷ []))

  -- the row itself is not used
  abbrev exists : M W ℤ → M W (Unit {0})
  exists m = do _ ← replacing (missing_as (sentinel access_denied)) m; return tt

  pub check_tenant_access : Uuid → Uuid → M W (Unit {0})
  unfolding named_query_struct missing_as
  check_tenant_access user_id tenant_id =
      exists (named_query_struct db.ones select_membership (user_tenant user_id tenant_id))

  unfoldable pub check_user_dashboard_access : Uuid → Uuid → Uuid → M W (Unit {0})
  unfolding named_query_struct missing_as
  check_user_dashboard_access user_id dashboard_id tenant_id = exists (
      named_query_struct db.ones select_access
        (user_dashboard_tenant user_id dashboard_id tenant_id))

  unfoldable pub query_tenant_id_by_user_id : Uuid → M W Uuid
  unfolding named_query_struct missing_as
  query_tenant_id_by_user_id user_id =
      replacing (missing_as (sentinel tenant_not_found))
        (named_query_struct db.ids select_by_user (("user_id", string (show user_id)) ∷ []))

  unfoldable pub query_tenant_id_by_dashboard_id : Uuid → M W Uuid
  unfolding named_query_struct missing_as
  query_tenant_id_by_dashboard_id dashboard_id =
      replacing (missing_as (sentinel tenant_not_found)) (
        named_query_struct db.ids select_by_dashboard
          (("dashboard_id", string (show dashboard_id)) ∷ []))

  unfoldable pub add_user_to_tenant : Uuid → Uuid → M W (Unit {0})
  unfolding named_exec
  add_user_to_tenant user_id tenant_id =
      wrapping "namedexeccontext"
        (named_exec db.ones upsert_membership (user_tenant user_id tenant_id))

  unfoldable pub add_user_to_dashboard : Uuid → Uuid → Uuid → M W (Unit {0})
  unfolding named_exec
  add_user_to_dashboard user_id dashboard_id tenant_id =
      wrapping "namedexeccontext"
        (named_exec db.ones insert_access (user_dashboard_tenant user_id dashboard_id tenant_id))

  -- NewStore
  unfoldable pub new_store : Storer W
  new_store = record {
    create = create;
    update = update;
    delete = delete;
    query_by_id = query_by_id;
    query_id_by_slug = query_id_by_slug;
    query_by_domain = query_by_domain;
    check_tenant_access = check_tenant_access;
    check_user_dashboard_access = check_user_dashboard_access;
    query_tenant_id_by_user_id = query_tenant_id_by_user_id;
    query_tenant_id_by_dashboard_id = query_tenant_id_by_dashboard_id;
    add_user_to_tenant = add_user_to_tenant;
    add_user_to_dashboard = add_user_to_dashboard;
  }

-- NewWithTx
unfoldable pub new_with_tx : {W : Type 0} → (Uuid → String) → NewWithTx (Drivers W) (Storer W)
new_with_tx show tx = Errors.◌>>=◌ (get_ext_context tx) (λ ec. ok (new_store ec show))
