-- ===== src/Tenant.antt =====
-- business/domain/tenantbus/model.go: tenants, and the dashboards that belong to them.
pub mod Core
pub mod Grants
pub mod Db
use spi_exata.Base.{String, Bool, Option}
use spi_exata.User.{Uuid, Time}

pub record Tenant : Type 0 where
  pub id : Uuid
  pub name : String
  pub slug : String
  pub enabled : Bool
  pub created_at : Time
  pub updated_at : Time

pub record TenantDashboard : Type 0 where
  pub tenant_id : Uuid
  pub dashboard_id : Uuid

pub record NewTenant : Type 0 where
  pub name : String
  pub slug : String

pub record UpdateTenant : Type 0 where
  pub name : Option String
  pub enabled : Option Bool
