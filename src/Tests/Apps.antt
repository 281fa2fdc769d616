-- ===== src/Tests/Apps.antt =====
-- Requests to the handlers of the application layer, and what they come to.
use spi_exata.Base.{
  ◌-◌, ◌%◌, String, ◌≡◌, refl, ◌↔◌, inl, ◌&&◌, none, some, [], ◌==◌, ◌is◌, if◌then◌else◌,
}
use spi_exata.Base.Errors.{text, Result, ok, err}
use spi_exata.Types.Name
use spi_exata.Types.Enums.{user}
use spi_exata.Sdk.Sqldb.{scan_first}
use spi_exata.Sdk.Order
use spi_exata.Sdk.Order.{By, new_by, with_parts, parse_parts}
use spi_exata.Sdk.Order.Laws.{IsDirection}
use spi_exata.User
use spi_exata.User.{Uuid, Address, QueryFilter, default_order_by}
use spi_exata.User.Db.{order_by_clause}
use spi_exata.Tenant.Core
use spi_exata.Tenant.Db
use spi_exata.Tenant.Db.{missing_as}
use spi_exata.Auth
use spi_exata.Auth.{Claims, Kid, missing, Auth}
use spi_exata.Web.{document, answer}
use spi_exata.Base.Strings.{split, trim_space, ◌<>◌}
use spi_exata.Web.Decoding.{Codec, decode}
use spi_exata.App.Users.{Texts, app_order_by_fields}
use spi_exata.App.Users.Filter.{QueryParams, parse_filter}
use spi_exata.User.Db.Placeholders.{IsColumn}
use spi_exata.App.Users.Parsing.{IsField, parse_filter_iff, order_of_request}
use spi_exata.App.Login.{Credentials, Token, login}
use spi_exata.App.Login.Entering.{IsLoggedIn, login-IsLoggedIn}
use spi_exata.Tests.Values.{bill_user, address}
use spi_exata.Tests.Requests.{request}
use spi_exata.Tests.Tenants.{World, tables, show, drivers, drivers-IsDatabase, no_rows, clock}

abbrev pub texts : Texts
texts = record {
  parse_address = λ s. ok (address s);
  parse_uuid = λ s. if s is "7" then ok 7 else err (text "invalid UUID");
  parse_time = λ s. err (text "parsing time");
  show_uuid = λ i. "7";
  format_time = λ t. "now";
}

abbrev pub guest : User.User
guest = record bill_user { role = user }

-- The only user is a guest, and each token is "t".
abbrev pub service : Auth World String String
service = record {
  jwt = record {
    parse_unverified = λ s. err (text "malformed");
    parse_with_claims = λ s f w. (err (text "malformed"), w);
    parse_private_key = λ pem. ok pem;
    parse_public_key = λ pem. ok pem;
    signed_string = λ h claims key. ok "t";
    numeric_date = λ t. t - t % 1_000_000_000;
  };
  key_lookup = record { private_key = λ k w. (ok k, w); public_key = λ k w. (ok k, w) };
  user_bus = some (λ i w. (ok guest, w));
  check_user = λ email password w. (ok guest, w);
  issuer = "service";
  active_kid = "k";
  now = clock;
  parse_uuid = λ s. ok 7;
  show_uuid = λ i. "7";
}

abbrev pub codec : Codec Credentials
codec = record {
  unmarshal = λ s. ok (record { email = "bill@example.com"; password = s });
  check = λ v. none;
}

abbrev pub render : Token → String
render t = t.token

abbrev pub split_host_port : String → Result (String × String)
split_host_port s = err (text "missing port")

abbrev pub granted : World
granted = record no_rows { accesses = λ i d. if i == 7 && d == 10 then some 1 else none }

logged_in :
    (login texts codec render split_host_port service clock clock
      (Db.new_store drivers show)
      []
      request
      granted).0
    ≡ answer (document "t")
unfolding login decode Auth.login Core.authorize_user_access_to_dashboard Db.new_store
    Db.query_by_domain scan_first Db.check_user_dashboard_access Auth.generate_token
logged_in = refl

login-IsLoggedIn_example :
    IsLoggedIn texts codec render split_host_port service clock clock drivers show tables
      drivers-IsDatabase request granted "t"
login-IsLoggedIn_example =
    login-IsLoggedIn texts codec render split_host_port service clock clock drivers show tables
      drivers-IsDatabase [] request granted "t" logged_in

abbrev params : QueryParams
params = record {
  page = "";
  rows = "";
  order_by = "";
  id = "7";
  name = "Bill";
  email = "";
  start_created_date = "";
  end_created_date = "";
}

abbrev filter : QueryFilter
filter = record {
  id = some 7;
  name = some (record { value = "Bill" });
  email = none;
  start_created_at = none;
  end_created_at = none;
}

parse_filter_example : (parse_filter texts params ≡ ok (inl filter)) ↔ (
    IsField params.id texts.parse_uuid filter.id
    × IsField params.name Name.parse filter.name
    × IsField params.email texts.parse_address filter.email
    × IsField params.start_created_date texts.parse_time filter.start_created_at
    × IsField params.end_created_date texts.parse_time filter.end_created_at)
parse_filter_example = parse_filter_iff texts params filter

abbrev by_name : By
by_name = record { field = "b"; direction = "DESC" }

ordered : Order.parse app_order_by_fields "name,DESC" default_order_by ≡ ok by_name
unfolding Order.parse new_by with_parts parse_parts split trim_space
ordered = refl

order_of_request_example :
    (column direction : String) × IsColumn column
    × IsDirection direction
    × (order_by_clause by_name ≡ ok (" ORDER BY " <> column <> " " <> direction))
order_of_request_example = order_of_request "name,DESC" by_name ordered
