-- ===== src/App/Users.antt =====
-- app/domain/userapp: the models of the application layer and their conversions (model.go, order.go)
-- and app/sdk/query. Parsing and showing addresses, UUIDs and times are parameters.
pub mod Filter
pub mod Handlers
pub mod Parsing
pub mod Routing
use spi_exata.Base.{String, Bool, Option, none, some, List, [], ◌∷◌}
use spi_exata.Base.Errors.{Result, ok}
use spi_exata.Base.Int.{ℤ}
use spi_exata.Base.Errors.{◌>>=◌, wrapping}
use spi_exata.Types.Name
use spi_exata.Types.Phone
use spi_exata.Types.Password
use spi_exata.Types.Password.{Password}
use spi_exata.Types.Enums.{parse_role}
use spi_exata.Sdk.Page.{Page}
use spi_exata.User
use spi_exata.User.{
  Uuid, Time, Address, order_by_id, order_by_name, order_by_email, order_by_role, order_by_enabled,
}

-- mail.ParseAddress, uuid.Parse, time.Parse and UUID.String, Time.Format for RFC 3339
pub record Texts : Type 0 where
  pub parse_address : String → Result Address
  pub parse_uuid : String → Result Uuid
  pub parse_time : String → Result Time
  pub show_uuid : Uuid → String
  pub format_time : Time → String

-- User
pub record AppUser : Type 0 where
  pub id : String
  pub name : String
  pub email : String
  pub role : String
  pub phone : String
  pub enabled : Bool
  pub date_created : String
  pub date_updated : String

-- NewUser
pub record AppNewUser : Type 0 where
  pub name : String
  pub email : String
  pub role : String
  pub phone : String
  pub password : String
  pub password_confirm : String

pub record UpdateUserRole : Type 0 where
  pub role : String

-- UpdateUser
pub record AppUpdateUser : Type 0 where
  pub name : Option String
  pub email : Option String
  pub phone : Option String
  pub password : Option String
  pub password_confirm : Option String
  pub enabled : Option Bool

-- query.Result
pub record Listing (T : Type 0) : Type 0 where
  pub items : List T
  pub total : ℤ
  pub page : ℤ
  pub rows_per_page : ℤ

abbrev pub new_result : {T : Type 0} → List T → ℤ → Page → Listing T
new_result items total page = record {
  items = items;
  total = total;
  page = page.number;
  rows_per_page = page.rows;
}

-- orderByFields
abbrev pub app_order_by_fields : List (String × String)
app_order_by_fields =
    ("user_id", order_by_id)
    ∷ ("name", order_by_name)
    ∷ ("email", order_by_email)
    ∷ ("role", order_by_role)
    ∷ ("enabled", order_by_enabled)
    ∷ []

-- `if p != nil { x, err := parse(*p); ... }`
abbrev pub parse_given : {A : Type 0} → (String → Result A) → Option String → Result (Option A)
parse_given parse none = ok none
parse_given parse (some s) = do a ← parse s; ok (some a)

module _ (texts : Texts) where
  unfoldable pub to_app_user : User.User → AppUser
  to_app_user bus = record {
    id = texts.show_uuid bus.id;
    name = bus.name.value;
    email = bus.email.address;
    role = bus.role.value;
    phone = Phone.to_string bus.phone;
    enabled = bus.enabled;
    date_created = texts.format_time bus.created_at;
    date_updated = texts.format_time bus.updated_at;
  }

  -- the loop of toAppUsers
  unfoldable pub to_app_users : List User.User → List AppUser
  to_app_users [] = []
  to_app_users (usr ∷ users) = to_app_user usr ∷ to_app_users users

  -- The confirmation is checked with the tags, and not again.
  unfoldable pub to_bus_new_user : AppNewUser → Result User.NewUser
  to_bus_new_user app = do
    parsed_role ← wrapping "parse role" (parse_role app.role)
    addr ← wrapping "parse email" (texts.parse_address app.email)
    nme ← wrapping "parse name" (Name.parse app.name)
    ph ← wrapping "parse phone" (Phone.parse_null app.phone)
    pass ← wrapping "parse password" (Password.parse app.password)
    ok (record { name = nme; email = addr; phone = ph; role = parsed_role; password = pass })

  unfoldable pub to_bus_update_user_role : UpdateUserRole → Result User.UpdateUser
  to_bus_update_user_role app = do
    r ← wrapping "parse role" (parse_role app.role)
    ok (record {
      name = none;
      email = none;
      role = some r;
      phone = none;
      password = none;
      enabled = none;
    })

  unfoldable pub to_bus_update_user : AppUpdateUser → Result User.UpdateUser
  to_bus_update_user app = do
    addr ← wrapping "parse email" (parse_given texts.parse_address app.email)
    nme ← wrapping "parse name" (parse_given Name.parse app.name)
    ph ← wrapping "parse phone" (parse_given Phone.parse_null app.phone)
    pass ← wrapping "parse password" (parse_given Password.parse app.password)
    ok (record {
      name = nme;
      email = addr;
      role = none;
      phone = ph;
      password = pass;
      enabled = app.enabled;
    })
