-- ===== src/User/Db/Store.antt =====
-- business/domain/userbus/stores/userdb/userdb.go: the store of the users over a driver. The texts of
-- the statements are those of the source with each run of white space written as one space.
use spi_exata.Base.Strings.{◌<>◌}
use spi_exata.Base.{String, ◌||◌, Option, none, some, List, [], ◌∷◌, ◌is◌, if◌then◌else◌}
use spi_exata.Base.Errors.{
  Sentinel, user_not_found, unique_email, unique_phone, db_not_found, Error, sentinel, wrap,
  is_error, as_duplicate,
}
use spi_exata.Base.Errors.{ok}
use spi_exata.Base.Errors as Errors
use spi_exata.Sdk.Tran.{NewWithTx, get_ext_context}
use spi_exata.Base.State.{replacing, M, ◌>>=◌, lift, wrapping}
use spi_exata.Base.Int.{ℤ, sub_one, ◌*ℤ◌}
use spi_exata.Sdk.Page.{Page}
use spi_exata.Sdk.Order.{By}
use spi_exata.Sdk.Sqldb.{
  Params, uuid, time, string, bytes, null_string, bool, int, Driver, named_exec, named_query_slice,
  named_query_struct,
}
use spi_exata.User.{Uuid, Address, User, QueryFilter}
use spi_exata.User.Core.{Storer}
use spi_exata.User.Db.{
  UserRow, to_db_user, to_bus_user, to_bus_users, apply_filter, order_by_clause,
}

abbrev pub insert_user : String
insert_user =
    "INSERT INTO \"public\".\"users\" (user_id, role_id, name, email, password, phone, enabled, "
    <> "created_at, updated_at) VALUES (:user_id, (SELECT role_id FROM \"public\".\"role\" WHERE "
    <> "name = :role), :name, :email, :password_hash, :phone, :enabled, :created_at, :updated_at)"

abbrev pub update_user : String
update_user =
    "UPDATE \"public\".\"users\" SET name = :name, email = :email, phone = :phone, role_id = (SELECT "
    <> "role_id FROM \"public\".\"role\" WHERE name = :role), password = :password_hash, enabled = "
    <> ":enabled, updated_at = :updated_at WHERE user_id = :user_id"

abbrev pub delete_user : String
delete_user = "DELETE FROM \"public\".\"users\" WHERE user_id = :user_id"

abbrev pub select_users : String
select_users =
    "SELECT u.user_id, u.name, u.email, u.password AS password_hash, u.phone, u.enabled, "
    <> "u.created_at, u.updated_at, r.name AS role FROM \"public\".\"users\" AS u JOIN "
    <> "\"public\".\"role\" AS r ON r.role_id = u.role_id"

abbrev pub count_users : String
count_users = "SELECT count(1) FROM \"public\".\"users\" AS u"

-- the arguments that sqlx reads from a userDB by its tags
abbrev pub row_params : UserRow → Params
row_params db =
    ("user_id", uuid db.id)
    ∷ ("name", string db.name)
    ∷ ("email", string db.email)
    ∷ ("role", string db.role)
    ∷ ("password_hash", bytes db.password_hash)
    ∷ ("phone", null_string db.phone)
    ∷ ("enabled", bool db.enabled)
    ∷ ("created_at", time db.created_at)
    ∷ ("updated_at", time db.updated_at)
    ∷ []

-- `switch dupErr.Column`: the error of the business layer for a column, if it has one
unfoldable pub duplicate_error : String → Option Sentinel
duplicate_error column =
    if column is "email" || column is "uq_user_email"
    then some unique_email
    else if column is "phone" || column is "uq_user_phone"
    then some unique_phone
    else none

abbrev duplicate_of : Error → Option Sentinel
duplicate_of e = elim (as_duplicate e) [ none ↦ none | some column ↦ duplicate_error column ]

-- Create wraps the error of the business layer, and Update returns it bare.
unfoldable pub create_error : Error → Error
unfolding as_duplicate duplicate_error
create_error e = elim (duplicate_of e) [
  | none ↦ wrap "namedexeccontext" e
  | some s ↦ wrap "namedexeccontext" (sentinel s)
]

unfoldable pub update_error : Error → Error
unfolding as_duplicate duplicate_error
update_error e = elim (duplicate_of e) [ none ↦ wrap "namedexeccontext" e | some s ↦ sentinel s ]

-- the error of the two queries for one user
find_error : Error → Error
unfolding is_error
find_error e = if is_error e db_not_found then wrap "db" (sentinel user_not_found) else wrap "db" e

abbrev pub offset : Page → ℤ
offset page = sub_one page.number *ℤ page.rows

-- the text that Query sends: the filtered query, the order and the page
abbrev pub paged : String → String → String
paged buf clause = buf <> clause <> " OFFSET :offset ROWS FETCH NEXT :rows_per_page ROWS ONLY"

abbrev pub page_params : Page → Params
page_params page = ("offset", int (offset page)) ∷ ("rows_per_page", int page.rows) ∷ []

-- The driver scans into userDB for users, and into an int for a count.
module _ {W : Type 0} (db : Driver W UserRow) (counts : Driver W ℤ) (show : Uuid → String)
    (show_address : Address → String) where
  unfoldable pub create : User → M W (Unit {0})
  unfolding named_exec to_db_user
  create usr = replacing create_error (named_exec db insert_user (row_params (to_db_user usr)))

  unfoldable pub update : User → M W (Unit {0})
  unfolding named_exec to_db_user
  update usr = replacing update_error (named_exec db update_user (row_params (to_db_user usr)))

  unfoldable pub delete : User → M W (Unit {0})
  unfolding named_exec to_db_user
  delete usr = wrapping "namedexeccontext" (named_exec db delete_user (row_params (to_db_user usr)))

  unfoldable pub query : QueryFilter → By → Page → M W (List User)
  unfolding named_query_slice apply_filter order_by_clause
  query filter order_by page = do
    (arguments, buf) ← lift (apply_filter show_address filter (page_params page) select_users)
    clause ← lift (order_by_clause order_by)
    dbs ← wrapping "namedqueryslice" (named_query_slice db (paged buf clause) arguments)
    lift (to_bus_users dbs)

  unfoldable pub count : QueryFilter → M W ℤ
  unfolding named_query_struct apply_filter
  count filter = do
    (arguments, buf) ← lift (apply_filter show_address filter [] count_users)
    wrapping "db" (named_query_struct counts buf arguments)

  unfoldable pub query_by_id : Uuid → M W User
  unfolding named_query_struct find_error
  query_by_id user_id = do
    row ← replacing find_error (
        named_query_struct db (select_users <> " WHERE u.user_id = :user_id")
          (("user_id", string (show user_id)) ∷ []))
    lift (to_bus_user row)

  unfoldable pub query_by_email : Address → M W User
  unfolding named_query_struct find_error
  query_by_email email = do
    row ← replacing find_error (
        named_query_struct db (select_users <> " WHERE u.email = :email")
          (("email", string email.address) ∷ []))
    lift (to_bus_user row)

  -- NewStore
  unfoldable pub new_store : Storer W
  new_store = record {
    create = create;
    update = update;
    delete = delete;
    query = query;
    count = count;
    query_by_id = query_by_id;
    query_by_email = query_by_email;
  }

-- NewWithTx: the store over the drivers of the transaction, for users and for counts
unfoldable pub new_with_tx :
    {W : Type 0}
    → (Uuid → String)
    → (Address → String)
    → NewWithTx (Driver W UserRow × Driver W ℤ) (Storer W)
new_with_tx show show_address tx =
    Errors.◌>>=◌ (get_ext_context tx) (λ ec. ok (new_store ec.0 ec.1 show show_address))
