-- ===== src/Tests/Rows.antt =====
-- Rows, filters and the texts of the queries.
use spi_exata.Base.{String, ◌≡◌, ◌≢◌, ◌↔◌, refl, none, some, [], ◌∷◌}
use spi_exata.Base.Errors.{ok, panicked}
use spi_exata.Types.Regex.{matches}
use spi_exata.Types.Name
use spi_exata.Types.Phone
use spi_exata.Types.Enums.{parse_role}
use spi_exata.User.{Address, QueryFilter}
use spi_exata.User.Db.{to_db_user, to_bus_user, apply_filter}
use spi_exata.User.Db.Store.{count_users}
use spi_exata.User.Db.Rows.{IsParsed, without_display_name, to_bus_user-to_db_user}
use spi_exata.User.Db.Placeholders.{placeholders}
use spi_exata.User.Db.Clauses.{apply_filter-panicked_iff}
use spi_exata.Tests.Values.{bill, bill_user}

bill-IsParsed : IsParsed bill_user
unfolding Name.parse Phone.parse_null parse_role matches
bill-IsParsed = record { name = refl; role = refl; phone = refl }

to_bus_user-to_db_user_example :
    to_bus_user (to_db_user bill_user) ≡ ok (without_display_name bill_user)
to_bus_user-to_db_user_example = to_bus_user-to_db_user bill_user bill-IsParsed

bill_read : to_bus_user (to_db_user bill_user) ≡ ok bill_user
unfolding to_bus_user to_db_user Name.parse Phone.parse_null parse_role matches
bill_read = refl

abbrev from_5 : QueryFilter
from_5 = record {
  id = none;
  name = some bill;
  email = none;
  start_created_at = some 5;
  end_created_at = none;
}

apply_filter-panicked_example :
    ((m : String) × (apply_filter Address.address from_5 [] count_users ≡ panicked m))
    ↔ ((from_5.start_created_at ≢ none) × (from_5.end_created_at ≡ none))
apply_filter-panicked_example = apply_filter-panicked_iff Address.address from_5 [] count_users

abbrev with_id : QueryFilter
with_id = record from_5 { id = some 7; start_created_at = none }

placeholders_test : placeholders "a = :b, c >= :d_e" ≡ "b" ∷ "d_e" ∷ []
unfolding placeholders
placeholders_test = refl
