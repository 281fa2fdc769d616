-- ===== src/Tenant/Db/Tables.antt =====
-- What the statements of tenantdb.go read and write, as PostgreSQL documents them: the tables that a
-- world holds, and how a query answers from them and a statement changes them.
use spi_exata.Base.{String, ◌≡◌, ◌&&◌, Option, none, some, List, [], ◌∷◌, ◌==◌, if◌then◌else◌}
use spi_exata.Base.Errors.{Result, ok}
use spi_exata.Base.Int.{ℤ, pos}
use spi_exata.Sdk.Sqldb.{Params, reply, string}
use spi_exata.User.{Uuid}
use spi_exata.Tenant.{TenantDashboard}
use spi_exata.Base.Strings.{◌<>◌}
use spi_exata.Tenant.Db.{Drivers}

-- The dashboard with a domain, the tenant of a dashboard, the tenant that a user is a member of, and
-- the tenant of the row that gives a user access to a dashboard.
pub record Tables (W : Type 0) : Type 0 where
  pub domain_of : W → String → Option TenantDashboard
  pub tenant_of : W → Uuid → Option Uuid
  pub member : W → Uuid → Option Uuid
  pub access : W → Uuid → Uuid → Option Uuid

-- the rows of a query that finds one at most
abbrev pub rows {ℓ} : {A : Type ℓ} → Option A → List (Result A)
rows none = []
rows (some x) = ok x ∷ []

-- the rows of `SELECT 1 ... AND tenant_id = :tenant_id`
abbrev pub ones : Option Uuid → Uuid → List (Result ℤ)
ones none tenant = []
ones (some x) tenant = if x == tenant then ok (pos 1) ∷ [] else []

-- ON CONFLICT DO NOTHING: the row that is there stays.
abbrev pub kept : Option Uuid → Uuid → Uuid
kept none tenant = tenant
kept (some old) tenant = old

-- The tables of the dashboards are the same.
pub record SameDashboards {W : Type 0} (t : Tables W) (w w' : W) : Type 0 where
  pub domain_of : (domain : String) → t.domain_of w' domain ≡ t.domain_of w domain
  pub tenant_of : (d : Uuid) → t.tenant_of w' d ≡ t.tenant_of w d

-- The texts that the laws below are about, written out here as they stand in them.
abbrev pub dashboard_of_domain : String
dashboard_of_domain =
    "SELECT tenant_id, dashboard_id FROM \"public\".\"dashboard\" WHERE domain = :domain"

abbrev pub membership_of : String
membership_of =
    "SELECT 1 FROM \"public\".\"tenant_membership\" WHERE user_id = :user_id AND tenant_id = :tenant_id"

abbrev pub access_of : String
access_of =
    "SELECT 1 FROM \"public\".\"user_dashboard_access\" WHERE user_id = :user_id AND dashboard_id = "
    <> ":dashboard_id AND tenant_id = :tenant_id"

abbrev pub tenant_of_user : String
tenant_of_user = "SELECT tenant_id FROM \"public\".\"tenant_membership\" WHERE user_id = :user_id"

abbrev pub tenant_of_dashboard : String
tenant_of_dashboard =
    "SELECT tenant_id FROM \"public\".\"dashboard\" WHERE dashboard_id = :dashboard_id"

abbrev pub move_member : String
move_member =
    "INSERT INTO \"public\".\"tenant_membership\" (user_id, tenant_id, created_at) VALUES (:user_id, "
    <> ":tenant_id, NOW()) ON CONFLICT (user_id) DO UPDATE SET tenant_id = EXCLUDED.tenant_id"

abbrev pub add_access : String
add_access =
    "INSERT INTO \"public\".\"user_dashboard_access\" (user_id, dashboard_id, tenant_id, created_at) "
    <> "VALUES (:user_id, :dashboard_id, :tenant_id, NOW()) ON CONFLICT (user_id, dashboard_id) DO "
    <> "NOTHING"

abbrev pub of_two : (Uuid → String) → Uuid → Uuid → Params
of_two show u x = ("user_id", string (show u)) ∷ ("tenant_id", string (show x)) ∷ []

abbrev pub of_three : (Uuid → String) → Uuid → Uuid → Uuid → Params
of_three show u d x =
    ("user_id", string (show u))
    ∷ ("dashboard_id", string (show d))
    ∷ ("tenant_id", string (show x))
    ∷ []

-- Queries answer from the tables and change nothing. A statement that succeeds writes its row, and
-- only that. A dashboard is one row, with its tenant and its domain.
pub record IsDatabase {W : Type 0} (db : Drivers W) (show : Uuid → String) (t : Tables W)
    : Type 0 where
  pub by_domain :
      (domain : String) (w : W)
      → db.dashboards.query dashboard_of_domain (("domain", string domain) ∷ []) w
        ≡ (reply (rows (t.domain_of w domain)), w)
  pub by_dashboard :
      (d : Uuid) (w : W)
      → db.ids.query tenant_of_dashboard (("dashboard_id", string (show d)) ∷ []) w
        ≡ (reply (rows (t.tenant_of w d)), w)
  pub by_user :
      (u : Uuid) (w : W)
      → db.ids.query tenant_of_user (("user_id", string (show u)) ∷ []) w
        ≡ (reply (rows (t.member w u)), w)
  pub by_membership :
      (u x : Uuid) (w : W)
      → db.ones.query membership_of (of_two show u x) w ≡ (reply (ones (t.member w u) x), w)
  pub by_access :
      (u d x : Uuid) (w : W)
      → db.ones.query access_of (of_three show u d x) w ≡ (reply (ones (t.access w u d) x), w)
  pub upsert_member :
      (u x : Uuid) (w : W)
      → (db.ones.exec move_member (of_two show u x) w).0 ≡ reply tt
      → (i : Uuid)
      → t.member (db.ones.exec move_member (of_two show u x) w).1 i
        ≡ (if i == u then some x else t.member w i)
  pub upsert_access :
      (u x : Uuid) (w : W) (i d : Uuid)
      → t.access (db.ones.exec move_member (of_two show u x) w).1 i d ≡ t.access w i d
  pub upsert_dashboards :
      (u x : Uuid) (w : W) → SameDashboards t w (db.ones.exec move_member (of_two show u x) w).1
  pub insert_row :
      (u d x : Uuid) (w : W)
      → (db.ones.exec add_access (of_three show u d x) w).0 ≡ reply tt
      → (i e : Uuid)
      → t.access (db.ones.exec add_access (of_three show u d x) w).1 i e
        ≡ (if i == u && e == d then some (kept (t.access w u d) x) else t.access w i e)
  pub insert_member :
      (u d x : Uuid) (w : W) (i : Uuid)
      → t.member (db.ones.exec add_access (of_three show u d x) w).1 i ≡ t.member w i
  pub insert_dashboards :
      (u d x : Uuid) (w : W)
      → SameDashboards t w (db.ones.exec add_access (of_three show u d x) w).1
  pub one_row :
      (domain : String) (td : TenantDashboard) (w : W)
      → t.domain_of w domain ≡ some td
      → t.tenant_of w td.dashboard_id ≡ some td.tenant_id
