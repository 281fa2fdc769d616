-- ===== src/Tenant/Db/Statements.antt =====
-- The texts of the statements of business/domain/tenantbus/stores/tenantdb.go, with each run of white
-- space as one space.
use spi_exata.Base.{String}
use spi_exata.Base.Strings.{◌<>◌}

abbrev pub insert_tenant : String
insert_tenant =
    "INSERT INTO \"public\".\"tenant\" (tenant_id, name, slug, enabled, created_at, updated_at) VALUES "
    <> "(:tenant_id, :name, :slug, :enabled, :created_at, :updated_at)"

abbrev pub update_tenant : String
update_tenant =
    "UPDATE \"public\".\"tenant\" SET name = :name, enabled = :enabled, updated_at = :updated_at WHERE "
    <> "tenant_id = :tenant_id"

abbrev pub delete_tenant : String
delete_tenant = "DELETE FROM \"public\".\"tenant\" WHERE tenant_id = :tenant_id"

abbrev pub select_tenant : String
select_tenant =
    "SELECT tenant_id, name, slug, enabled, created_at, updated_at FROM \"public\".\"tenant\" WHERE "
    <> "tenant_id = :tenant_id"

abbrev pub select_by_slug : String
select_by_slug = "SELECT tenant_id FROM \"public\".\"tenant\" WHERE slug = :slug"

abbrev pub select_by_domain : String
select_by_domain =
    "SELECT tenant_id, dashboard_id FROM \"public\".\"dashboard\" WHERE domain = :domain"

abbrev pub select_membership : String
select_membership =
    "SELECT 1 FROM \"public\".\"tenant_membership\" WHERE user_id = :user_id AND tenant_id = :tenant_id"

abbrev pub select_access : String
select_access =
    "SELECT 1 FROM \"public\".\"user_dashboard_access\" WHERE user_id = :user_id AND dashboard_id = "
    <> ":dashboard_id AND tenant_id = :tenant_id"

abbrev pub select_by_user : String
select_by_user = "SELECT tenant_id FROM \"public\".\"tenant_membership\" WHERE user_id = :user_id"

abbrev pub select_by_dashboard : String
select_by_dashboard =
    "SELECT tenant_id FROM \"public\".\"dashboard\" WHERE dashboard_id = :dashboard_id"

abbrev pub upsert_membership : String
upsert_membership =
    "INSERT INTO \"public\".\"tenant_membership\" (user_id, tenant_id, created_at) VALUES (:user_id, "
    <> ":tenant_id, NOW()) ON CONFLICT (user_id) DO UPDATE SET tenant_id = EXCLUDED.tenant_id"

abbrev pub insert_access : String
insert_access =
    "INSERT INTO \"public\".\"user_dashboard_access\" (user_id, dashboard_id, tenant_id, created_at) "
    <> "VALUES (:user_id, :dashboard_id, :tenant_id, NOW()) ON CONFLICT (user_id, dashboard_id) DO "
    <> "NOTHING"
