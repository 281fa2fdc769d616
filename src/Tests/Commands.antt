-- ===== src/Tests/Commands.antt =====
-- The commands over the dashboards in memory.
use spi_exata.Base.{◌≡◌, refl, [], ◌∷◌, ◌is◌, if◌then◌else◌}
use spi_exata.Base.Errors.{text, ok, err}
use spi_exata.Sdk.Sqldb.{named_exec, named_query_struct, scan_first}
use spi_exata.User.Core.{Host, Storer}
use spi_exata.Tenant.Core
use spi_exata.Tenant.Db
use spi_exata.Tenant.Db.{missing_as}
use spi_exata.Admin.{Flags, run}
use spi_exata.Tests.Values.{bill_user}
use spi_exata.Tests.Tenants.{World, show, drivers, no_rows, clock}

abbrev pub flags : Flags
flags = record {
  create_flags = λ args. record { email = ""; password = ""; name = ""; role = "USER" };
  link_flags = λ args. record { user_id = "7"; dashboard_id = "10" };
  parse_uuid =
      λ s. if s is "7" then ok 7 else if s is "10" then ok 10 else err (text "invalid UUID");
}

abbrev pub host : Host World
host = record {
  now = clock;
  new_uuid = clock;
  generate_from_password = λ p w. (ok p, w);
  compare_hash_and_password = λ h p. ok tt;
}

abbrev pub users : Storer World
users = record {
  create = λ u w. (ok tt, w);
  update = λ u w. (ok tt, w);
  delete = λ u w. (ok tt, w);
  query = λ f o p w. (ok [], w);
  count = λ f w. (err (text "none"), w);
  query_by_id = λ i w. (ok bill_user, w);
  query_by_email = λ e w. (ok bill_user, w);
}

pub linked :
    (run flags host users clock clock
      (Db.new_store drivers show)
      ("admin" ∷ "link-user" ∷ [])
      no_rows).0
    ≡ ok tt
unfolding run Core.grant_user_access_to_dashboard Db.new_store Db.query_tenant_id_by_dashboard_id
    Db.add_user_to_tenant Db.add_user_to_dashboard named_exec named_query_struct missing_as
    scan_first
linked = refl

abbrev pub linked_world : World
linked_world =
    (run flags host users clock clock (Db.new_store drivers show) ("admin" ∷ "link-user" ∷ [])
      no_rows).1
