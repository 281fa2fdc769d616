-- ===== src/User/Db/Failures.antt =====
-- The errors of the database as the errors of the business layer.
use spi_exata.Base.{String, ◌≡◌, ◌↔◌, ◌⊎◌, inl, inr, refl, true, arith, eq_iff}
use spi_exata.Base.Errors.{unique_email, unique_phone, Error, is_error, as_duplicate, err}
use spi_exata.Base.Int.{ℤ}
use spi_exata.Sdk.Sqldb.{Driver, failure, pg_error, unique_violation, exec_error, named_exec}
use spi_exata.User.{Uuid, Address, User}
use spi_exata.User.Db.{UserRow, to_db_user}
use spi_exata.User.Db.Store.{insert_user, row_params, duplicate_error, create_error, create}

-- The columns for which an error variable stands.
abbrev pub IsEmailColumn : String → Type 0
IsEmailColumn c = (c ≡ "email") ⊎ (c ≡ "uq_user_email")

abbrev pub IsPhoneColumn : String → Type 0
IsPhoneColumn c = (c ≡ "phone") ⊎ (c ≡ "uq_user_phone")

abbrev of_column : String → Error
of_column column = create_error (exec_error (pg_error unique_violation column))

of_column-unique_email :
    (column : String) → (is_error (of_column column) unique_email ≡ true) ↔ IsEmailColumn column
unfolding create_error exec_error duplicate_error as_duplicate is_error
of_column-unique_email column = ground (
  arith,
  eq_iff column "email",
  eq_iff column "uq_user_email",
  eq_iff column "phone",
  eq_iff column "uq_user_phone",
)

of_column-unique_phone :
    (column : String) → (is_error (of_column column) unique_phone ≡ true) ↔ IsPhoneColumn column
unfolding create_error exec_error duplicate_error as_duplicate is_error
of_column-unique_phone column = (
  (λ h. ground (arith, eq_iff column "phone", eq_iff column "uq_user_phone")),
  λ h. elim h [ inl e ↦ rw e refl | inr e ↦ rw e refl ],
)

module _ {W : Type 0} (db : Driver W UserRow) (counts : Driver W ℤ) (show : Uuid → String)
    (show_address : Address → String) where
  -- Where PostgreSQL refuses a new user for a unique column, Create fails, and errors.Is finds
  -- ErrUniqueEmail in its error exactly if the column it is told is "email" or "uq_user_email", and
  -- ErrUniquePhone exactly if it is "phone" or "uq_user_phone".
  pub create_of_duplicate :
      (usr : User) (w w' : W) (column : String)
      → db.exec insert_user (row_params (to_db_user usr)) w
        ≡ (failure (pg_error unique_violation column), w')
      → (e : Error) × (create db counts show show_address usr w ≡ (err e, w'))
        × ((is_error e unique_email ≡ true) ↔ IsEmailColumn column)
        × ((is_error e unique_phone ≡ true) ↔ IsPhoneColumn column)
  unfolding create named_exec
  create_of_duplicate usr w w' column h =
      (of_column column, rw h refl, of_column-unique_email column, of_column-unique_phone column)
