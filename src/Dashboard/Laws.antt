-- ===== src/Dashboard/Laws.antt =====
-- What a dashboard keeps on its way through the table and through an update.
use spi_exata.Base.{String, ◌≡◌, refl, Option, none, some, arith, pair_path}
use spi_exata.Base.Errors.{ok}
use spi_exata.Types.Name
use spi_exata.User.{Uuid, Time}
use spi_exata.User.Core.{or_keep}
use spi_exata.Dashboard
use spi_exata.Dashboard.{Dashboard, UpdateDashboard, Storer, or_same}
use spi_exata.Dashboard.Db.{to_null, of_null, to_db_dashboard, to_bus_dashboard}

of_null-to_null : (o : Option String) → of_null (to_null o) ≡ o
of_null-to_null none = refl
of_null-to_null (some s) = refl

-- A dashboard whose name its parser accepts is read back from its row as it was, with or without a
-- domain or a logo.
pub to_bus_dashboard-to_db_dashboard :
    (d : Dashboard)
    → Name.parse d.name.value ≡ ok d.name
    → to_bus_dashboard (to_db_dashboard d) ≡ ok d
unfolding to_bus_dashboard to_db_dashboard
to_bus_dashboard-to_db_dashboard d h = rw (h, of_null-to_null d.domain) refl

module _ {W : Type 0} (clock : W → Time × W) (storer : Storer W) where
  -- What the business layer found is what the store has.
  pub queried :
      (id : Uuid) (d : Dashboard) (w : W)
      → (Dashboard.query_by_id clock storer id w).0 ≡ ok d
      → ((storer.query_by_id id w).0 ≡ ok d)
        × ((Dashboard.query_by_id clock storer id w).1 ≡ (storer.query_by_id id w).1)
  unfolding Dashboard.query_by_id
  queried id d w h = (ground arith, refl)

  -- what an update leaves of a dashboard
  abbrev merged : Dashboard → UpdateDashboard → Time → Dashboard
  merged d ud now = record d {
    name = or_keep ud.name d.name;
    domain = or_same ud.domain d.domain;
    logo = or_same ud.logo d.logo;
    updated_at = now;
  }

  -- A successful update is one call of the store's, for the dashboard with the same id, tenant and time
  -- of creation.
  pub updated :
      (d new : Dashboard) (ud : UpdateDashboard) (w : W)
      → (Dashboard.update clock storer d ud w).0 ≡ ok new
      → (d' : Dashboard) × (d'.id ≡ d.id)
        × (d'.tenant_id ≡ d.tenant_id)
        × (d'.created_at ≡ d.created_at)
        × (storer.update d' (clock w).1 ≡ (ok tt, (Dashboard.update clock storer d ud w).1))
  unfolding Dashboard.update
  updated d new ud w h =
      let d' = merged d ud (clock w).0 in
      let e : (storer.update d' (clock w).1).0 ≡ ok tt = ground arith in
      (d', refl, refl, refl, pair_path e (rw e refl))
