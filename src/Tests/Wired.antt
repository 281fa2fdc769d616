-- ===== src/Tests/Wired.antt =====
-- The service over the dashboards in memory, and a table of users with one guest.
use spi_exata.Base.{String, refl, inr, false, true, none, [], ◌∷◌}
use spi_exata.Base.Errors.{text, ok, err}
use spi_exata.Types.Enums.{parse_role}
use spi_exata.Types.Name
use spi_exata.Types.Regex.{matches}
use spi_exata.Types.Phone
use spi_exata.Sdk.Sqldb.{reply, scan_first, named_query_struct}
use spi_exata.User.Core
use spi_exata.User.Cache
use spi_exata.User.Cache.{Client}
use spi_exata.User.Db.{UserRow, to_bus_user}
use spi_exata.User.Db.Store as UserDb
use spi_exata.Tenant.Db as TenantDb
use spi_exata.Dashboard
use spi_exata.Auth
use spi_exata.Web.Decoding.{decode}
use spi_exata.App.Api.{Config}
use spi_exata.App.Wiring.{Database, user_bus, auth_client}
use spi_exata.App.Wiring.Answering.{service, IsWelcome}
use spi_exata.Tests.Values.{address}
use spi_exata.Tests.Requests.{request}
use spi_exata.Tests.Tenants.{World, tables, show, drivers, drivers-IsDatabase, clock, here}
use spi_exata.Tests.Commands as Commands
use spi_exata.Tests.Apps as Apps
use spi_exata.Tests.Apps.{guest, granted}
use spi_exata.Tests.Routes.{models, dashboard_models}

abbrev guest_row : UserRow
guest_row = record {
  id = guest.id;
  name = guest.name.value;
  email = guest.email.address;
  role = guest.role.value;
  password_hash = guest.password_hash;
  phone = record { string = guest.phone.value; valid = true };
  enabled = true;
  created_at = 1;
  updated_at = 1;
}

abbrev db : Database World
db = record {
  users = record {
    exec = λ q ps w. (reply tt, w);
    query = λ q ps w. (reply (ok guest_row ∷ []), w);
  };
  counts = record { exec = λ q ps w. (reply tt, w); query = λ q ps w. (reply [], w) };
  tenants = drivers;
  cache = record { get = λ k w. (none, w); set = λ k u w. w; delete = λ k w. w };
  show = show;
  show_address = λ a. a.address;
}

abbrev no_boards : Dashboard.Storer World
no_boards = record {
  create = λ d w. (ok d, w);
  query_by_id = λ i w. (err (text "none"), w);
  update = λ d w. (ok tt, w);
}

abbrev cfg : Config World String String
cfg = record {
  tracer = none;
  inject = λ ctx. ctx;
  log = record { started = λ r w. w; completed = λ r code w. w };
  counted = record {
    num_goroutine = λ w. 1;
    counters = λ w. record { goroutines = 0; requests = 0; errors = 0; panics = 0 };
    put = λ m w. w;
  };
  contexts = record { with_value = λ key v ctx. ctx; value = λ key ctx. none };
  propagate = λ ctx w. w;
  encode = λ resp. ok ("{}", "application/json");
  write_error = none;
  canceled = false;
  auth = Apps.service;
  texts = Apps.texts;
  users = models;
  dashboards = dashboard_models;
  credentials = Apps.codec;
  render = Apps.render;
  split_host_port = Apps.split_host_port;
  clock = clock;
  new_uuid = clock;
  host = Commands.host;
  user_storer = Commands.users;
  tenant_storer = TenantDb.new_store drivers show;
  dashboard_storer = no_boards;
}

-- The guest's request is such a request.
welcome : IsWelcome cfg db tables drivers-IsDatabase request granted "t"
unfolding decode Core.authenticate Core.query_by_email Core.check_password auth_client user_bus
    Cache.new_store UserDb.new_store Cache.query_by_email UserDb.query_by_email named_query_struct
    scan_first to_bus_user parse_role Auth.generate_token Name.parse matches Phone.parse_null
welcome = record {
  usr = guest;
  td = here;
  checked = granted;
  last = granted;
  authenticates = record {
    req = record { email = "bill@example.com"; password = "" };
    decoded = refl;
    addr = address "bill@example.com";
    parsed = refl;
    is_set = λ e. cc;
    checked = refl;
  };
  domain = refl;
  access = inr refl;
  made = refl;
}
