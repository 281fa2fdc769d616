-- ===== src/Tests/Services.antt =====
-- The service over numbers as worlds, and a run of the program that only opens and closes.
use spi_exata.Base.{ℕ, ◌+◌, ◌-◌, String, ◌≡◌, refl, sym, true, false, none, [], ◌∷◌, All, ap}
use spi_exata.Base.Errors.{text, Result, ok, err}
use spi_exata.Tenant.Core as Tenants
use spi_exata.App.Api.{Config, web_api, all_routes, with_cors}
use spi_exata.App.Api.Laws.{IsRoute, patterns, web_api-IsRoute, web_api-patterns}
use spi_exata.Base.Int.{pos}
use spi_exata.Logger.{Arg}
use spi_exata.Program
use spi_exata.Program.{Calls, signal}
use spi_exata.Program.Running.{run}
use spi_exata.Program.Holding.{Resource, one_of, database, provider, server, IsKept, IsHolder}
use spi_exata.Program.Releasing.{run-Keeps}
use spi_exata.Tests.Apps.{texts}
use spi_exata.Tests.Tokens.{auth}
use spi_exata.Tests.Routes.{models, host, storer, dashboard_models, boards, clock, no_codec}

abbrev fails : {A : Type 0} → ℕ → Result A × ℕ
fails w = (err (text "none"), w)

abbrev no_tenants : Tenants.Storer ℕ
no_tenants = record {
  create = λ t. fails;
  update = λ t. fails;
  delete = λ t. fails;
  query_by_id = λ i. fails;
  query_id_by_slug = λ s. fails;
  query_by_domain = λ s. fails;
  check_tenant_access = λ u t. fails;
  check_user_dashboard_access = λ u d t. fails;
  query_tenant_id_by_user_id = λ u. fails;
  query_tenant_id_by_dashboard_id = λ d. fails;
  add_user_to_tenant = λ u t. fails;
  add_user_to_dashboard = λ u d t. fails;
}

abbrev cfg : Config ℕ String String
cfg = record {
  tracer = none;
  inject = λ ctx. ctx;
  log = record { started = λ r w. w; completed = λ r code w. w };
  counted = record {
    num_goroutine = λ w. 1;
    counters = λ w. record { goroutines = 0; requests = 0; errors = 0; panics = 0 };
    put = λ m w. w;
  };
  contexts = record { with_value = λ key v ctx. ctx; value = λ key ctx. none };
  propagate = λ ctx w. w;
  encode = λ resp. ok ("{}", "application/json");
  write_error = none;
  canceled = false;
  auth = auth;
  texts = texts;
  users = models;
  dashboards = dashboard_models;
  credentials = no_codec;
  render = λ t. t.token;
  split_host_port = λ s. err (text "missing port");
  clock = clock;
  new_uuid = clock;
  host = host;
  user_storer = storer;
  tenant_storer = no_tenants;
  dashboard_storer = boards;
}

web_api-IsRoute_example :
    All (IsRoute cfg) (web_api cfg (all_routes cfg) (with_cors ("*" ∷ []) ∷ [])).routes
web_api-IsRoute_example = web_api-IsRoute cfg (with_cors ("*" ∷ []) ∷ [])

web_api-patterns_example :
    patterns cfg (web_api cfg (all_routes cfg) (with_cors ("*" ∷ []) ∷ [])).routes
    ≡ "GET /v1/users" ∷ "GET /v1/users/{user_id}" ∷ "POST /v1/users" ∷ "PUT /v1/me"
      ∷ "DELETE /v1/me" ∷ "POST /v1/auth/login" ∷ []
web_api-patterns_example = web_api-patterns cfg (with_cors ("*" ∷ []) ∷ [])

-- how many there are of each resource
abbrev Counts : Type 0
Counts = Resource → ℕ

abbrev none_held : Counts
none_held x = 0

abbrev with_one : Resource → Counts → Counts
with_one taken w x = w x + one_of taken x

abbrev less_one : Resource → Counts → Counts
less_one taken w x = w x - one_of taken x

abbrev done : Counts → Result (Unit {0}) × Counts
done w = (ok tt, w)

-- the defaults of the environment
abbrev settings : Program.Version → Program.Config ℕ
settings v = record {
  version = v;
  web = record {
    read_timeout = 5;
    write_timeout = 10;
    idle_timeout = 120;
    shutdown_timeout = 20;
    api_host = "0.0.0.0:3000";
    debug_host = "0.0.0.0:3010";
    cors_allowed_origins = "*" ∷ [];
  };
  db = record {
    user = "postgres";
    password = "postgres";
    host = "localhost";
    name = "spi";
    max_idle_conns = pos 0;
    max_open_conns = pos 0;
    disable_tls = true;
  };
  auth = record {
    keys_folder = "foundation/zarf/keys/";
    issuer = "spi-exata";
    active_kid = "e02696d9-f1b7-4c0a-b78c-90eb05d5f998";
  };
  tempo = record {
    host = "tempo:4317";
    service_name = "SPI-EXATA";
    probability = 5;
    enabled = true;
  };
}

-- A signal comes, and the shutdown fails.
abbrev calls : Calls Counts ℕ ℕ ℕ ℕ ℕ
calls = record {
  build = "develop";
  process = λ v w. (ok (settings v), w);
  info = λ msg args w. done w;
  version_arg = λ v. Arg.string v.build;
  print = λ c. "{}";
  build_info = λ w. done w;
  publish = λ s w. done w;
  open_db = λ c w. (ok 0, with_one database w);
  close_db = λ d w. less_one database w;
  load_keys = λ dir w. (ok 0, w);
  init_tracing = λ c w. (ok (0, less_one provider), with_one provider w);
  notify = λ w. done w;
  web_api = λ c d ks t w. (ok 0, w);
  listen = λ api w. with_one server w;
  wait = λ w. (signal 15, w);
  shutdown = λ t w. (err (text "deadline exceeded"), w);
  close_server = less_one server;
}

-- the function that comes with a value
abbrev teardown_of : Result (ℕ × (Counts → Counts)) → Counts → Counts
teardown_of (ok (n, f)) = f
teardown_of _ = λ w. w

calls-IsHolder : IsHolder calls (λ w. w)
calls-IsHolder = record {
  info = λ msg args w x. refl;
  info_returns = λ msg args w e h. cc;
  build_info = λ w x. refl;
  publish = λ s w x. refl;
  notify = λ w x. refl;
  process = λ v w x. refl;
  open_db = λ c. ((λ w d x h. refl), (λ w e x h. cc), (λ w p x h. cc), λ v d w x h. refl);
  load_keys = λ dir w x. refl;
  init_tracing = λ c. (
    (λ w d x h. refl),
    (λ w e x h. cc),
    (λ w p x h. cc),
    λ v d w x h. sym (ap (λ r. teardown_of r w x) h),
  );
  web_api = λ c d ks t w x. refl;
  listen = λ api w x. refl;
  wait_error = λ w e x h. cc;
  wait_signal = λ w sig x h. refl;
  shutdown_done = λ t w x h. cc;
  shutdown_failed = λ t w e x h. refl;
  shutdown_fell = λ t w p x h. cc;
  close_server = λ w x. refl;
}

run-Keeps_example :
    IsKept (λ w. w) server (run calls 8 none_held).0 none_held (run calls 8 none_held).1
run-Keeps_example = run-Keeps calls (λ w. w) calls-IsHolder 8 none_held server
