-- ===== src/User/Db/Rows.antt =====
-- Users and rows of the table: what is written can be read back.
use spi_exata.Base.{String, ◌≡◌, sym, ap, ◌∙◌, inl, inr, arith}
use spi_exata.Base.Errors.{ok}
use spi_exata.Types.Name
use spi_exata.Types.Name.{Name}
use spi_exata.Types.Phone
use spi_exata.Types.Enums.{parse_role}
use spi_exata.Types.Parsing.{parse_name_iff, parse_null_iff, parse_role_iff}
use spi_exata.User.{User}
use spi_exata.User.Db.{UserRow, to_db_user, to_bus_user}

-- A user whose parts came out of the parsers.
pub record IsParsed (u : User) : Type 0 where
  pub name : Name.parse u.name.value ≡ ok u.name
  pub role : parse_role u.role.value ≡ ok u.role
  pub phone : Phone.parse_null u.phone.value ≡ ok u.phone

-- The user without the display name of its e-mail address.
abbrev pub without_display_name : User → User
without_display_name u = record u { email = record { name = ""; address = u.email.address } }

-- A user whose name, role and phone came out of their parsers is read back from its row, but for
-- the display name of the e-mail address, which has no column.
pub to_bus_user-to_db_user :
    (u : User) → IsParsed u → to_bus_user (to_db_user u) ≡ ok (without_display_name u)
unfolding to_bus_user to_db_user
to_bus_user-to_db_user u p = rw (p.role, p.name, p.phone)

phone_value : (v : String) (p : Phone.Null) → Phone.parse_null v ≡ ok p → p.value ≡ v
phone_value v p h = elim ((parse_null_iff v p).0 h) [ inl e ↦ e.1 ∙ sym e.0 | inr e ↦ e.2 ]

-- A user that is read from a row has a name, a role and a phone that their parsers accept.
pub to_bus_user-IsParsed : (db : UserRow) (u : User) → to_bus_user db ≡ ok u → IsParsed u
unfolding to_bus_user
to_bus_user-IsParsed db u h =
    let name : Name.parse db.name ≡ ok u.name = ground arith in
    let role : parse_role db.role ≡ ok u.role = ground arith in
    let phone : Phone.parse_null db.phone.string ≡ ok u.phone = ground arith in
    record {
      name = ap Name.parse ((parse_name_iff db.name u.name).0 name).0 ∙ name;
      role = ap parse_role ((parse_role_iff db.role u.role).0 role).0 ∙ role;
      phone = ap Phone.parse_null (phone_value db.phone.string u.phone phone) ∙ phone;
    }
