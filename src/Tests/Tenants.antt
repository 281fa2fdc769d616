-- ===== src/Tests/Tenants.antt =====
-- Two dashboards of two tenants, and the rows that let users in, in memory.
use spi_exata.Base.{
  ℕ, zero, suc, String, ◌≡◌, refl, ap, ◌≢◌, ◌↔◌, ◌⊎◌, ◌&&◌, Option, none, some, List, [], ◌∷◌,
  arith, ◌==◌, ◌is◌, if◌then◌else◌,
}
use spi_exata.Base.Errors.{text, Result, ok}
use spi_exata.Base.Int.{ℤ}
use Prim.Native.Char.{Char}
use spi_exata.Sdk.Sqldb.{
  Value, string, Params, other, Reply, reply, failure, Driver, named_exec, named_query_struct,
}
use spi_exata.User.{Uuid}
use spi_exata.Tenant.{TenantDashboard}
use spi_exata.Tenant.Core
use spi_exata.Tenant.Db
use spi_exata.Tenant.Db.{
  Drivers, select_by_domain, select_membership, select_access, select_by_user, select_by_dashboard,
  upsert_membership, insert_access, missing_as,
}
use spi_exata.Tenant.Db.Tables.{Tables, rows, ones, kept, IsDatabase}
use spi_exata.Tenant.Db.Asked.{dashboards, accesses, authorize-asked_iff}
use spi_exata.Tenant.Grants.{
  authorize, grant, check_access, grant-authorize_iff, access_after_membership,
}

pub record World : Type 0 where
  pub members : Uuid → Option Uuid
  pub accesses : Uuid → Uuid → Option Uuid

abbrev pub here : TenantDashboard
here = record { tenant_id = 1; dashboard_id = 10 }

abbrev pub there : TenantDashboard
there = record { tenant_id = 2; dashboard_id = 20 }

abbrev domains : String → Option TenantDashboard
domains s =
    if s is "apexata.govsp.com" then some here else if s is "there.com" then some there else none

abbrev tenants : Uuid → Option Uuid
tenants d = if d == 10 then some 1 else if d == 20 then some 2 else none

abbrev pub tables : Tables World
tables = record {
  domain_of = λ w. domains;
  tenant_of = λ w. tenants;
  member = World.members;
  access = World.accesses;
}

abbrev letter : Char
letter = "a"

-- The text of an id has as many letters as the id says.
abbrev pub show : Uuid → String
show zero = String.[]
show (suc n) = String.◌∷◌ letter (show n)

abbrev read : String → Uuid
read String.[] = 0
read (String.◌∷◌ c s) = suc (read s)

read-show : (n : Uuid) → read (show n) ≡ n
read-show zero = refl
read-show (suc n) = ap suc (read-show n)

abbrev join_tenant : Uuid → Uuid → World → World
join_tenant u x w = record w { members = λ i. if i == u then some x else w.members i }

abbrev enter_dashboard : Uuid → Uuid → Uuid → World → World
enter_dashboard u d x w = record w {
  accesses = λ i e. if i == u && e == d then some (kept (w.accesses u d) x) else w.accesses i e;
}

abbrev no_statement : {A : Type 0} → Reply A
no_statement = failure (other (text "no such statement"))

abbrev written : String → Params → World → Reply (Unit {0}) × World
written s ((_, string u) ∷ (_, string x) ∷ []) w =
    if s is upsert_membership
    then (reply tt, join_tenant (read u) (read x) w)
    else (no_statement, w)
written s ((_, string u) ∷ (_, string d) ∷ (_, string x) ∷ []) w =
    if s is insert_access
    then (reply tt, enter_dashboard (read u) (read d) (read x) w)
    else (no_statement, w)
written s _ w = (no_statement, w)

abbrev matched : String → Params → World → Reply (List (Result ℤ))
matched s ((_, string u) ∷ (_, string x) ∷ []) w =
    if s is select_membership then reply (ones (w.members (read u)) (read x)) else no_statement
matched s ((_, string u) ∷ (_, string d) ∷ (_, string x) ∷ []) w =
    if s is select_access
    then reply (ones (w.accesses (read u) (read d)) (read x))
    else no_statement
matched s _ w = no_statement

abbrev selected : String → Params → World → Reply (List (Result Uuid))
selected s ((_, string u) ∷ []) w =
    if s is select_by_user
    then reply (rows (w.members (read u)))
    else if s is select_by_dashboard
    then reply (rows (tenants (read u)))
    else no_statement
selected s _ w = no_statement

abbrev resolved : String → Params → Reply (List (Result TenantDashboard))
resolved s ((_, string domain) ∷ []) =
    if s is select_by_domain then reply (rows (domains domain)) else no_statement
resolved s _ = no_statement

abbrev pub drivers : Drivers World
drivers = record {
  tenants = record { exec = λ s p w. (no_statement, w); query = λ s p w. (no_statement, w) };
  ids = record { exec = λ s p w. (no_statement, w); query = λ s p w. (selected s p w, w) };
  dashboards = record { exec = λ s p w. (no_statement, w); query = λ s p w. (resolved s p, w) };
  ones = record { exec = written; query = λ s p w. (matched s p w, w) };
}

one_row :
    (domain : String) (td : TenantDashboard)
    → domains domain ≡ some td
    → tenants td.dashboard_id ≡ some td.tenant_id
one_row domain td h = ground arith

pub drivers-IsDatabase : IsDatabase drivers show tables
drivers-IsDatabase = record {
  by_domain = λ domain w. refl;
  by_dashboard = λ d w. rw (read-show d) refl;
  by_user = λ u w. rw (read-show u) refl;
  by_membership = λ u x w. rw (read-show u, read-show x) refl;
  by_access = λ u d x w. rw (read-show u, read-show d, read-show x) refl;
  upsert_member = λ u x w h i. rw (read-show u, read-show x) refl;
  upsert_access = λ u x w i d. refl;
  upsert_dashboards = λ u x w. record { domain_of = λ s. refl; tenant_of = λ d. refl };
  insert_row = λ u d x w h i e. rw (read-show u, read-show d, read-show x) refl;
  insert_member = λ u d x w i. refl;
  insert_dashboards = λ u d x w. record { domain_of = λ s. refl; tenant_of = λ d'. refl };
  one_row = λ domain td w h. one_row domain td h;
}

abbrev pub no_rows : World
no_rows = record { members = λ i. none; accesses = λ i d. none }

abbrev pub clock : World → ℕ × World
clock w = (5, w)

abbrev granted : Uuid → Uuid → World → World
granted u d w = (grant clock clock drivers show u d w).1

-- Granting in memory succeeds.
granted_here : (grant clock clock drivers show 7 10 no_rows).0 ≡ ok tt
unfolding Core.grant_user_access_to_dashboard Db.new_store Db.query_tenant_id_by_dashboard_id
    Db.add_user_to_tenant Db.add_user_to_dashboard named_exec named_query_struct missing_as
    spi_exata.Sdk.Sqldb.scan_first
granted_here = refl

granted_there : (grant clock clock drivers show 7 20 (granted 7 10 no_rows)).0 ≡ ok tt
unfolding Core.grant_user_access_to_dashboard Db.new_store Db.query_tenant_id_by_dashboard_id
    Db.add_user_to_tenant Db.add_user_to_dashboard named_exec named_query_struct missing_as
    spi_exata.Sdk.Sqldb.scan_first
granted_there = refl

-- The row of the grant is found.
authorize-asked_example :
    (authorize clock clock drivers show 7 "apexata.govsp.com" (granted 7 10 no_rows)
      ≡ (ok here, granted 7 10 no_rows))
    ↔ ((w1 : World) × (others : List (Result TenantDashboard)) × (n : ℤ) × (ones : List (Result ℤ))
        × (dashboards drivers show "apexata.govsp.com" (granted 7 10 no_rows)
            ≡ (reply (ok here ∷ others), w1))
        × (accesses drivers show 7 here w1 ≡ (reply (ok n ∷ ones), granted 7 10 no_rows)))
authorize-asked_example =
    authorize-asked_iff clock clock drivers show 7 "apexata.govsp.com" (granted 7 10 no_rows)
      (granted 7 10 no_rows) here

grant-authorize_example :
    (authorize clock clock drivers show 7 "apexata.govsp.com" (granted 7 10 no_rows)
      ≡ (ok here, granted 7 10 no_rows))
    ↔ ((tables.access no_rows 7 10 ≡ none) ⊎ (tables.access no_rows 7 10 ≡ some 1))
grant-authorize_example =
    grant-authorize_iff clock clock drivers show tables drivers-IsDatabase 7 "apexata.govsp.com"
      no_rows here refl granted_here

access_after_membership_example :
    ((check_access clock clock drivers show 7 1 (granted 7 20 (granted 7 10 no_rows))).0 ≢ ok tt)
    × (authorize clock clock drivers show 7 "apexata.govsp.com"
          (granted 7 20 (granted 7 10 no_rows))
        ≡ (ok here, granted 7 20 (granted 7 10 no_rows)))
access_after_membership_example =
    access_after_membership clock clock drivers show tables drivers-IsDatabase 7 "apexata.govsp.com"
      no_rows here there refl refl granted_here refl (λ e. ground arith) granted_there
