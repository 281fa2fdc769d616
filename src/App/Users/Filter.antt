-- ===== src/App/Users/Filter.antt =====
-- app/domain/userapp/filter.go: the filter in the URL's parameters. The errors of all fields are
-- gathered.
use spi_exata.Base.{String, ◌⊎◌, inl, inr, Option, none, some, [], ◌∷◌, ◌is◌, if◌then◌else◌}
use spi_exata.Base.Errors.{Result, ok, err, panicked}
use spi_exata.Base.Errors.{◌>>=◌}
use spi_exata.Types.Name
use spi_exata.User.{QueryFilter}
use spi_exata.Errs.{FieldErrors, AppError, add, to_error}
use spi_exata.Mid.{Request}
use spi_exata.App.Users.{Texts}

pub record QueryParams : Type 0 where
  pub page : String
  pub rows : String
  pub order_by : String
  pub id : String
  pub name : String
  pub email : String
  pub start_created_date : String
  pub end_created_date : String

unfoldable pub parse_query_params : Request → QueryParams
parse_query_params r = record {
  page = r.query "page";
  rows = r.query "rows";
  order_by = r.query "orderBy";
  id = r.query "user_id";
  name = r.query "name";
  email = r.query "email";
  start_created_date = r.query "start_created_date";
  end_created_date = r.query "end_created_date";
}

-- one of the blocks `if qp.X != "" { ... }`: the value for the filter, and the errors so far
unfoldable pub parse_field :
    {A : Type 0}
    → String
    → String
    → (String → Result A)
    → FieldErrors
    → Result (Option A × FieldErrors)
parse_field field value parse fe = if value is "" then ok (none, fe) else elim (parse value) [
  | ok a ↦ ok (some a, fe)
  | err e ↦ ok (none, add fe field e)
  | panicked m ↦ panicked m
]

-- `if fieldErrors != nil`
abbrev pub unless_errors : FieldErrors → QueryFilter → QueryFilter ⊎ AppError
unless_errors [] filter = inl filter
unless_errors (e ∷ es) filter = inr (to_error (e ∷ es))

unfoldable pub parse_filter : Texts → QueryParams → Result (QueryFilter ⊎ AppError)
parse_filter texts qp = do
  (id, fe1) ← parse_field "user_id" qp.id texts.parse_uuid []
  (name, fe2) ← parse_field "name" qp.name Name.parse fe1
  (email, fe3) ← parse_field "email" qp.email texts.parse_address fe2
  (start, fe4) ← parse_field "start_created_date" qp.start_created_date texts.parse_time fe3
  (end, fe5) ← parse_field "end_created_date" qp.end_created_date texts.parse_time fe4
  let filter : QueryFilter = record {
    id = id;
    name = name;
    email = email;
    start_created_at = start;
    end_created_at = end;
  }
  ok (unless_errors fe5 filter)
