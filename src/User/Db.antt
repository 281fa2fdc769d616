-- ===== src/User/Db.antt =====
-- business/domain/userbus/stores/userdb: rows, filters and the order clause (model.go, filter.go,
-- order.go). The store over them is in User/Db/Store.antt.
pub mod Store
pub mod Rows
pub mod Clauses
pub mod Placeholders
pub mod Paging
pub mod Failures
use spi_exata.Base.{◌+◌, ◌<◌, String, Bool, Option, none, some, List, [], ◌∷◌, ◌++◌, lookup}
use spi_exata.Base.Errors.{invalid, Result, ok, err, panicked}
use spi_exata.Base.Strings.{◌<>◌}
use Prim.Native.String
use spi_exata.Types.Name
use spi_exata.Types.Phone
use spi_exata.Types.Phone.{NullString, to_sql_null_string}
use spi_exata.Types.Enums.{parse_role}
use spi_exata.Base.Errors.{◌>>=◌, wrapping}
use spi_exata.Sdk.Order.{By}
use spi_exata.Sdk.Sqldb.{Value, Params, uuid, time, string}
use spi_exata.User.{
  Uuid, Time, Address, User, QueryFilter, order_by_id, order_by_name, order_by_email, order_by_role,
  order_by_enabled,
}

-- userDB
pub record UserRow : Type 0 where
  pub id : Uuid
  pub name : String
  pub email : String
  pub role : String
  pub password_hash : String
  pub phone : NullString
  pub enabled : Bool
  pub created_at : Time
  pub updated_at : Time

unfoldable pub to_db_user : User → UserRow
to_db_user bus = record {
  id = bus.id;
  name = bus.name.value;
  email = bus.email.address;
  role = bus.role.value;
  password_hash = bus.password_hash;
  phone = to_sql_null_string bus.phone;
  enabled = bus.enabled;
  created_at = bus.created_at;
  updated_at = bus.updated_at;
}

unfoldable pub to_bus_user : UserRow → Result User
to_bus_user db = do
  usr_role ← wrapping "parse" (parse_role db.role)
  nme ← wrapping "parse name" (Name.parse db.name)
  phone ← wrapping "parse phone" (Phone.parse_null db.phone.string)
  ok (record {
    id = db.id;
    name = nme;
    email = record { name = ""; address = db.email };
    role = usr_role;
    password_hash = db.password_hash;
    phone = phone;
    enabled = db.enabled;
    created_at = db.created_at;
    updated_at = db.updated_at;
  })

-- the loop of toBusUsers: the first row that cannot be read ends it
unfoldable pub to_bus_users : List UserRow → Result (List User)
unfolding to_bus_user
to_bus_users [] = ok []
to_bus_users (db ∷ dbs) = do usr ← to_bus_user db; usrs ← to_bus_users dbs; ok (usr ∷ usrs)

-- strings.Join
abbrev pub join : String → List String → String
join sep [] = ""
join sep (s ∷ []) = s
join sep (s ∷ t ∷ ss) = s <> sep <> join sep (t ∷ ss)

-- The arguments and the conditions that a filter has gathered.
pub record Gathered : Type 0 where
  pub arguments : Params
  pub conditions : List String

abbrev gather : String → Value → String → Gathered → Gathered
gather key value condition g = record {
  arguments = (key, value) ∷ g.arguments;
  conditions = g.conditions ++ condition ∷ [];
}

abbrev filter_id : Option Uuid → Gathered → Gathered
filter_id none g = g
filter_id (some i) g = gather "user_id" (uuid i) "user_id = :user_id" g

abbrev filter_name : Option Name.Name → Gathered → Gathered
filter_name none g = g
filter_name (some n) g = gather "name" (string ("%" <> n.value <> "%")) "name LIKE :name" g

abbrev filter_email : (Address → String) → Option Address → Gathered → Gathered
filter_email show none g = g
filter_email show (some a) g = gather "email" (string (show a)) "email = :email" g

-- The value for the start is read from the end, `filter.EndCreatedAt.UTC()`, which panics if there
-- is none.
abbrev filter_start : Option Time → Option Time → Gathered → Result Gathered
filter_start none end g = ok g
filter_start (some _) none g = panicked "nil pointer dereference"
filter_start (some _) (some end) g =
    ok (gather "start_date_created" (time end) "date_created >= :start_date_created" g)

abbrev filter_end : Option Time → Gathered → Gathered
filter_end none g = g
filter_end (some end) g = gather "end_date_created" (time end) "date_created <= :end_date_created" g

-- the conditions, after WHERE if there are any
abbrev pub with_where : String → List String → String
with_where buf [] = buf
with_where buf (c ∷ cs) = buf <> " WHERE " <> join " AND " (c ∷ cs)

-- applyFilter, with the text of an address (mail.Address.String) as a parameter: the arguments and
-- the text with what the filter adds to them.
pub apply_filter : (Address → String) → QueryFilter → Params → String → Result (Params × String)
apply_filter show filter arguments buf = do
  let start : Gathered = record { arguments = arguments; conditions = [] }
  g ←
      filter_start filter.start_created_at filter.end_created_at
        (filter_email show filter.email (filter_name filter.name (filter_id filter.id start)))
  let g' = filter_end filter.end_created_at g
  ok (g'.arguments, with_where buf g'.conditions)

abbrev pub order_by_fields : List (String × String)
order_by_fields =
    (order_by_id, "user_id")
    ∷ (order_by_name, "name")
    ∷ (order_by_email, "email")
    ∷ (order_by_role, "role")
    ∷ (order_by_enabled, "enabled")
    ∷ []

unfoldable pub order_by_clause : By → Result String
order_by_clause order_by = elim (lookup order_by.field order_by_fields) [
  | none ↦ err (invalid "field does not exist" order_by.field)
  | some by ↦ ok (" ORDER BY " <> by <> " " <> order_by.direction)
]
