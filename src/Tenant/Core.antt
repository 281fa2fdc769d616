-- ===== src/Tenant/Core.antt =====
-- business/domain/tenantbus/tenentbus.go over any store. The clock and the making of UUIDs are
-- parameters.
use spi_exata.Base.{String, true}
use spi_exata.Base.Errors as Errors
use spi_exata.Sdk.Tran.{NewWithTx}
use spi_exata.Base.State.{M, ◌>>=◌, return, step, wrapping}
use spi_exata.User.{Uuid, Time}
use spi_exata.User.Core.{or_keep}
use spi_exata.Tenant.{Tenant, TenantDashboard, NewTenant, UpdateTenant}

-- Storer
pub record Storer (W : Type 0) : Type 0 where
  pub create : Tenant → M W (Unit {0})
  pub update : Tenant → M W (Unit {0})
  pub delete : Tenant → M W (Unit {0})
  pub query_by_id : Uuid → M W Tenant
  pub query_id_by_slug : String → M W Uuid
  pub query_by_domain : String → M W TenantDashboard
  -- the user, then the tenant
  pub check_tenant_access : Uuid → Uuid → M W (Unit {0})
  -- the user, the dashboard, the tenant
  pub check_user_dashboard_access : Uuid → Uuid → Uuid → M W (Unit {0})
  pub query_tenant_id_by_user_id : Uuid → M W Uuid
  pub query_tenant_id_by_dashboard_id : Uuid → M W Uuid
  -- the user, then the tenant
  pub add_user_to_tenant : Uuid → Uuid → M W (Unit {0})
  -- the user, the dashboard, the tenant
  pub add_user_to_dashboard : Uuid → Uuid → Uuid → M W (Unit {0})

module _ {W : Type 0} (clock : W → Time × W) (new_uuid : W → Uuid × W) (storer : Storer W) where
  unfoldable pub create : NewTenant → M W Tenant
  create nt = do
    now ← step clock
    id ← step new_uuid
    let t : Tenant = record {
      id = id;
      name = nt.name;
      slug = nt.slug;
      enabled = true;
      created_at = now;
      updated_at = now;
    }
    _ ← wrapping "create" (storer.create t)
    return t

  unfoldable pub update : Tenant → UpdateTenant → M W Tenant
  update t ut = do
    now ← step clock
    let t' : Tenant = record t {
      name = or_keep ut.name t.name;
      enabled = or_keep ut.enabled t.enabled;
      updated_at = now;
    }
    _ ← wrapping "update" (storer.update t')
    return t'

  unfoldable pub delete : Tenant → M W (Unit {0})
  delete t = wrapping "delete" (storer.delete t)

  unfoldable pub query_by_id : Uuid → M W Tenant
  query_by_id tenant_id = wrapping "query: tenantID" (storer.query_by_id tenant_id)

  unfoldable pub query_id_by_slug : String → M W Uuid
  query_id_by_slug slug = wrapping "query by slug" (storer.query_id_by_slug slug)

  unfoldable pub resolve_domain : String → M W TenantDashboard
  resolve_domain domain = wrapping "queryByDomain" (storer.query_by_domain domain)

  unfoldable pub check_access : Uuid → Uuid → M W (Unit {0})
  check_access user_id tenant_id =
      wrapping "checkTenantAccess" (storer.check_tenant_access user_id tenant_id)

  unfoldable pub query_tenant_id_by_user_id : Uuid → M W Uuid
  query_tenant_id_by_user_id user_id =
      wrapping "queryTenantIDByUserID" (storer.query_tenant_id_by_user_id user_id)

  unfoldable pub authorize_user_access_to_dashboard : Uuid → String → M W TenantDashboard
  unfolding resolve_domain
  authorize_user_access_to_dashboard user_id domain = do
    td ← wrapping "resolveDomain" (resolve_domain domain)
    _ ←
        wrapping "checkUserDashboardAccess"
          (storer.check_user_dashboard_access user_id td.dashboard_id td.tenant_id)
    return td

  unfoldable pub grant_user_access_to_dashboard : Uuid → Uuid → M W (Unit {0})
  grant_user_access_to_dashboard user_id dashboard_id = do
    tenant_id ←
        wrapping "failed to get tenant for dashboard"
          (storer.query_tenant_id_by_dashboard_id dashboard_id)
    _ ←
        wrapping "failed to add user to tenant membership"
          (storer.add_user_to_tenant user_id tenant_id)
    wrapping "failed to grant dashboard access"
        (storer.add_user_to_dashboard user_id dashboard_id tenant_id)

-- NewWithTx; a Core is its store
unfoldable pub new_with_tx : {W D : Type 0} → NewWithTx D (Storer W) → NewWithTx D (Storer W)
new_with_tx of_storer tx = Errors.wrapping "newWithTx" (of_storer tx)
