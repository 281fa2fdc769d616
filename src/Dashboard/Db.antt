-- ===== src/Dashboard/Db.antt =====
-- business/domain/dashboardbus/stores/dashboarddb: the store of the dashboards over drivers. The texts
-- of the statements are those of the source with each run of white space as one space.
use spi_exata.Base.{String, true, false, Option, none, some, [], ◌∷◌, if◌then◌else◌}
use spi_exata.Base.Errors.{
  Sentinel, user_not_found, unique_email, unique_phone, authentication_failure, tenant_not_found,
  domain_not_found, access_denied, unique_slug, dashboard_not_found, db_not_found, undefined_table,
  forbidden, kid_missing, kid_malformed, user_disabled, invalid_role, key_not_found, Error,
  sentinel, text, invalid, wrap, duplicated_entry, foreign, is_error, as_duplicate, Result, ok, err,
  panicked, is_ok, value_of,
}
use spi_exata.Base.Errors as Errors
use spi_exata.Sdk.Tran.{NewWithTx, get_ext_context}
use spi_exata.Base.State.{M, ◌>>=◌, return, lift, wrapping, replacing}
use spi_exata.Base.Errors
use spi_exata.Types.Name
use spi_exata.Types.Phone.{NullString}
use spi_exata.Sdk.Sqldb.{
  Params, uuid, time, string, null_string, null_bytes, Driver, named_exec, named_query_struct,
}
use spi_exata.User.{Uuid, Time}
use spi_exata.Base.Strings.{◌<>◌}
use spi_exata.Tenant.Db.{missing_as}
use spi_exata.Dashboard.{Dashboard, Storer}

-- dashboardDB
pub record DashboardRow : Type 0 where
  pub id : Uuid
  pub tenant_id : Uuid
  pub name : String
  pub domain : NullString
  pub logo : Option String
  pub created_at : Time
  pub updated_at : Time

abbrev pub to_null : Option String → NullString
to_null none = record { string = ""; valid = false }
to_null (some s) = record { string = s; valid = true }

abbrev pub of_null : NullString → Option String
of_null n = if n.valid then some n.string else none

unfoldable pub to_db_dashboard : Dashboard → DashboardRow
to_db_dashboard bus = record {
  id = bus.id;
  tenant_id = bus.tenant_id;
  name = bus.name.value;
  domain = to_null bus.domain;
  logo = bus.logo;
  created_at = bus.created_at;
  updated_at = bus.updated_at;
}

unfoldable pub to_bus_dashboard : DashboardRow → Result Dashboard
to_bus_dashboard db = Errors.◌>>=◌ (Errors.wrapping "parse name" (Name.parse db.name)) (λ n.
    ok (record {
      id = db.id;
      tenant_id = db.tenant_id;
      name = n;
      domain = of_null db.domain;
      logo = db.logo;
      created_at = db.created_at;
      updated_at = db.updated_at;
    }))

-- the arguments that sqlx reads from a dashboardDB by its tags
abbrev pub dashboard_params : DashboardRow → Params
dashboard_params db =
    ("dashboard_id", uuid db.id)
    ∷ ("tenant_id", uuid db.tenant_id)
    ∷ ("name", string db.name)
    ∷ ("domain", null_string db.domain)
    ∷ ("logo", null_bytes db.logo)
    ∷ ("created_at", time db.created_at)
    ∷ ("updated_at", time db.updated_at)
    ∷ []

abbrev pub insert_dashboard : String
insert_dashboard =
    "WITH new_resource AS ( INSERT INTO \"public\".\"resource\" (resource_type_id) VALUES (1) RETURNING "
    <> "resource_id ) INSERT INTO \"public\".\"dashboard\" (dashboard_id, tenant_id, name, domain, logo, "
    <> "created_at, updated_at) SELECT resource_id, :tenant_id, :name, :domain, :logo, :created_at, "
    <> ":updated_at FROM new_resource RETURNING dashboard_id"

abbrev pub select_dashboard : String
select_dashboard =
    "SELECT dashboard_id, tenant_id, name, domain, logo, created_at, updated_at FROM "
    <> "\"public\".\"dashboard\" WHERE dashboard_id = :dashboard_id"

abbrev pub update_dashboard : String
update_dashboard =
    "UPDATE \"public\".\"dashboard\" SET name = :name, domain = :domain, logo = :logo, updated_at = "
    <> ":updated_at WHERE dashboard_id = :dashboard_id"

-- The driver scans into an id for an insertion, and into a dashboardDB for a query.
module _ {W : Type 0} (ids : Driver W Uuid) (db : Driver W DashboardRow)
    (show : Uuid → String) where
  unfoldable pub create : Dashboard → M W Dashboard
  unfolding named_query_struct to_db_dashboard
  create d = do
    id ←
        wrapping "namedquerystruct"
          (named_query_struct ids insert_dashboard (dashboard_params (to_db_dashboard d)))
    return (record d { id = id })

  unfoldable pub query_by_id : Uuid → M W Dashboard
  unfolding named_query_struct missing_as
  query_by_id dashboard_id = do
    row ←
        replacing (missing_as (wrap "db" (sentinel dashboard_not_found))) (
          named_query_struct db select_dashboard
            (("dashboard_id", string (show dashboard_id)) ∷ []))
    lift (to_bus_dashboard row)

  unfoldable pub update : Dashboard → M W (Unit {0})
  unfolding named_exec to_db_dashboard
  update d =
      wrapping "namedexeccontext"
        (named_exec db update_dashboard (dashboard_params (to_db_dashboard d)))

  -- NewStore
  unfoldable pub new_store : Storer W
  new_store = record { create = create; query_by_id = query_by_id; update = update }

-- NewWithTx: the store over the drivers of the transaction, for ids and for dashboards
unfoldable pub new_with_tx :
    {W : Type 0} → (Uuid → String) → NewWithTx (Driver W Uuid × Driver W DashboardRow) (Storer W)
new_with_tx show tx = Errors.◌>>=◌ (get_ext_context tx) (λ ec. ok (new_store ec.0 ec.1 show))
