-- ===== src/User.antt =====
-- business/domain/userbus: the users' model. A UUID is its 128-bit number, with 0 for uuid.Nil, and a
-- time is its instant: what UTC and In(time.Local) change is only how an instant is shown.
pub mod Core
pub mod Cache
pub mod Db
use spi_exata.Base.{ℕ, String, Bool, Option}
use spi_exata.Types.Name.{Name}
use spi_exata.Types.Phone
use spi_exata.Types.Password.{Password}
use spi_exata.Types.Enums.{Role}
use spi_exata.Sdk.Order.{By, new_by, asc}

abbrev pub Uuid : Type 0
Uuid = ℕ

abbrev pub Time : Type 0
Time = ℕ

-- mail.Address
pub record Address : Type 0 where
  pub name : String
  pub address : String

pub record User : Type 0 where
  pub id : Uuid
  pub name : Name
  pub email : Address
  pub role : Role
  pub password_hash : String
  pub phone : Phone.Null
  pub enabled : Bool
  pub created_at : Time
  pub updated_at : Time

pub record NewUser : Type 0 where
  pub name : Name
  pub email : Address
  pub phone : Phone.Null
  pub role : Role
  pub password : Password

pub record UpdateUser : Type 0 where
  pub name : Option Name
  pub email : Option Address
  pub role : Option Role
  pub phone : Option Phone.Null
  pub password : Option Password
  pub enabled : Option Bool

pub record QueryFilter : Type 0 where
  pub id : Option Uuid
  pub name : Option Name
  pub email : Option Address
  pub start_created_at : Option Time
  pub end_created_at : Option Time

-- order.go: the names under which the business layer knows the fields to order by
abbrev pub order_by_id : String
order_by_id = "a"

abbrev pub order_by_name : String
order_by_name = "b"

abbrev pub order_by_email : String
order_by_email = "c"

abbrev pub order_by_role : String
order_by_role = "d"

abbrev pub order_by_enabled : String
order_by_enabled = "e"

unfoldable pub default_order_by : By
unfolding new_by
default_order_by = new_by order_by_id asc
