-- ===== src/Dashboard.antt =====
-- business/domain/dashboardbus: the dashboards' model and business layer, over any store. A logo is a
-- byte slice, or nil. The clock is a parameter.
pub mod Db
pub mod Laws
use spi_exata.Base.{String, Option, none, some}
use spi_exata.Base.Errors as Errors
use spi_exata.Sdk.Tran.{NewWithTx}
use spi_exata.Base.State.{M, ◌>>=◌, ◌>>◌, return, step, wrapping}
use spi_exata.Types.Name.{Name}
use spi_exata.User.{Uuid, Time}
use spi_exata.User.Core.{or_keep}

pub record Dashboard : Type 0 where
  pub id : Uuid
  pub tenant_id : Uuid
  pub name : Name
  pub domain : Option String
  pub logo : Option String
  pub created_at : Time
  pub updated_at : Time

pub record NewDashboard : Type 0 where
  pub tenant_id : Uuid
  pub name : Name
  pub domain : Option String
  pub logo : Option String

pub record UpdateDashboard : Type 0 where
  pub name : Option Name
  pub domain : Option String
  pub logo : Option String

-- Storer
pub record Storer (W : Type 0) : Type 0 where
  pub create : Dashboard → M W Dashboard
  pub query_by_id : Uuid → M W Dashboard
  pub update : Dashboard → M W (Unit {0})

-- `if p != nil { x = p }`
abbrev or_same {ℓ} : {A : Type ℓ} → Option A → Option A → Option A
or_same none x = x
or_same (some y) x = some y

module _ {W : Type 0} (clock : W → Time × W) (storer : Storer W) where
  -- The store fills the id in.
  unfoldable pub create : NewDashboard → M W Dashboard
  create nd = do
    now ← step clock
    let d : Dashboard = record {
      id = 0;
      tenant_id = nd.tenant_id;
      name = nd.name;
      domain = nd.domain;
      logo = nd.logo;
      created_at = now;
      updated_at = now;
    }
    wrapping "create" (storer.create d)

  unfoldable pub query_by_id : Uuid → M W Dashboard
  query_by_id dashboard_id = wrapping "query: dashboardID" (storer.query_by_id dashboard_id)

  unfoldable pub update : Dashboard → UpdateDashboard → M W Dashboard
  update d ud = do
    now ← step clock
    let d' : Dashboard = record d {
      name = or_keep ud.name d.name;
      domain = or_same ud.domain d.domain;
      logo = or_same ud.logo d.logo;
      updated_at = now;
    }
    _ ← wrapping "update" (storer.update d')
    return d'

-- NewWithTx; a Core is its store
unfoldable pub new_with_tx : {W D : Type 0} → NewWithTx D (Storer W) → NewWithTx D (Storer W)
new_with_tx of_storer tx = Errors.wrapping "newWithTx" (of_storer tx)
