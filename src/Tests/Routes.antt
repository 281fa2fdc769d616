-- ===== src/Tests/Routes.antt =====
-- Requests to the routes of the users and of the dashboards.
use spi_exata.Base.{ℕ, suc, String, ◌≡◌, refl, none, some, []}
use spi_exata.Base.Errors.{text, Result, ok, err}
use spi_exata.User.Core.{Host, Storer}
use spi_exata.Auth
use spi_exata.Auth.{Auth}
use spi_exata.Dashboard
use spi_exata.Errs.{AppError}
use spi_exata.Errs.Codes.{unauthenticated}
use spi_exata.Web.{app_error, answer}
use spi_exata.Web.Decoding.{Codec}
use spi_exata.Mid
use spi_exata.Mid.{Context, Request, authenticate_context}
use spi_exata.App.Users.Handlers
use spi_exata.App.Users.Handlers.{update_route, delete_route, find_route}
use spi_exata.App.Users.Routing.{IsRefused, user_routes_refuse}
use spi_exata.App.Dashboards
use spi_exata.App.Dashboards.Laws.{query_route_unauthenticated}
use spi_exata.Tests.Values.{bill_user, bill}
use spi_exata.Tests.Tokens.{auth}
use spi_exata.Tests.Requests.{request}
use spi_exata.Tests.Apps.{texts}

abbrev missing : {A : Type 0} → String → Result A
missing s = err (text "unexpected end of JSON input")

abbrev any_codec : {A : Type 0} → A → Codec A
any_codec a = record { unmarshal = λ s. ok a; check = λ v. none }

abbrev pub no_codec : {A : Type 0} → Codec A
no_codec = record { unmarshal = missing; check = λ v. none }

abbrev pub models : Handlers.Models
models = record {
  user = λ u. u.name;
  users = λ l. "";
  new_user = no_codec;
  update_user = no_codec;
  update_role = no_codec;
}

abbrev pub host : Host ℕ
host = record {
  now = λ w. (w, w);
  new_uuid = λ w. (w, w);
  generate_from_password = λ p w. (ok p, w);
  compare_hash_and_password = λ h p. ok tt;
}

abbrev pub storer : Storer ℕ
storer = record {
  create = λ u w. (ok tt, w);
  update = λ u w. (ok tt, w);
  delete = λ u w. (ok tt, w);
  query = λ f o p w. (ok [], w);
  count = λ f w. (err (text "none"), w);
  query_by_id = λ i w. (ok bill_user, w);
  query_by_email = λ e w. (ok bill_user, w);
}

user_routes_refuse_example :
    (IsRefused (update_route texts models host storer auth [] request 3).0
      × ((update_route texts models host storer auth [] request 3).1
          ≡ (authenticate_context auth [] "Bearer t" 3).1))
    × (IsRefused (delete_route texts models host storer auth [] request 3).0
        × ((delete_route texts models host storer auth [] request 3).1
            ≡ (authenticate_context auth [] "Bearer t" 3).1))
    × (IsRefused (find_route texts models host storer auth [] request 3).0
        × ((find_route texts models host storer auth [] request 3).1
            ≡ (authenticate_context auth [] "Bearer t" 3).1))
user_routes_refuse_example = user_routes_refuse texts models host storer auth [] request 3 refl

abbrev pub dashboard_models : Dashboards.Models
dashboard_models = record {
  dashboard = λ d. d.name;
  new_dashboard = no_codec;
  update_dashboard = any_codec (record { name = none; domain = some "bill.com"; logo = none });
}

abbrev bills_dashboard : Dashboard.Dashboard
bills_dashboard = record {
  id = 9;
  tenant_id = 1;
  name = bill;
  domain = none;
  logo = none;
  created_at = 1;
  updated_at = 1;
}

abbrev pub boards : Dashboard.Storer ℕ
boards = record {
  create = λ d w. (ok d, w);
  query_by_id = λ i w. (ok bills_dashboard, w);
  update = λ d w. (ok tt, suc w);
}

abbrev pub clock : ℕ → ℕ × ℕ
clock w = (w, w)

query_route_unauthenticated_example :
    (e : AppError) × (e.code ≡ unauthenticated)
    × (Dashboards.query_route texts dashboard_models clock boards auth [] request 3
        ≡ (answer (app_error e), 3))
query_route_unauthenticated_example =
    query_route_unauthenticated texts dashboard_models clock boards auth [] request 3 refl
