-- ===== src/Types/Enums.antt =====
-- business/types/role/role.go, business/types/actions/actions.go and
-- business/types/resource/resource.go: named values that register themselves in a map when the
-- package is initialised. The three packages have the same text but for the names.
use spi_exata.Base.{String, Bool, none, some, List, [], ◌∷◌, ◌is◌, lookup}
use spi_exata.Base.Errors.{invalid, Result, ok, err, panicked}

module _ {A : Type 0} where
  -- `x, exists := known[value]`, and the error if it is missing
  abbrev find : String → String → List (String × A) → Result A
  find kind value known = elim (lookup value known) [
    | none ↦ err (invalid kind value)
    | some x ↦ ok x
  ]

  -- MustParse panics where Parse fails.
  abbrev must : Result A → Result A
  must (ok x) = ok x
  must (err e) = panicked "invalid value"
  must (panicked m) = panicked m

pub record Role : Type 0 where
  pub value : String

-- newRole: the value, beside the entry that it registers
abbrev new_role : String → String × Role
new_role role = (role, record { value = role })

abbrev pub analyst : Role
analyst = record { value = "ANALYST" }

abbrev pub admin : Role
admin = record { value = "ADMIN" }

abbrev pub user : Role
user = record { value = "USER" }

abbrev pub roles : List (String × Role)
roles = new_role "ANALYST" ∷ new_role "ADMIN" ∷ new_role "USER" ∷ []

abbrev pub equal : Role → Role → Bool
equal r r2 = r.value is r2.value

unfoldable pub parse_role : String → Result Role
parse_role value = find "role" value roles

unfoldable pub must_parse_role : String → Result Role
unfolding parse_role
must_parse_role value = must (parse_role value)

pub record Action : Type 0 where
  pub value : String

abbrev pub action_equal : Action → Action → Bool
action_equal a a2 = a.value is a2.value

abbrev new_action : String → String × Action
new_action action = (action, record { value = action })

abbrev pub actions : List (String × Action)
actions = new_action "CREATE" ∷ new_action "DELETE" ∷ new_action "UPDATE" ∷ new_action "GET" ∷ []

parse_action : String → Result Action
parse_action value = find "action" value actions

unfoldable pub must_parse_action : String → Result Action
unfolding parse_action
must_parse_action value = must (parse_action value)

pub record Resource : Type 0 where
  pub value : String

abbrev pub resource_equal : Resource → Resource → Bool
resource_equal r r2 = r.value is r2.value

abbrev new_resource : String → String × Resource
new_resource resource = (resource, record { value = resource })

abbrev pub resources : List (String × Resource)
resources = new_resource "DASHBOARD" ∷ new_resource "SUBJECT" ∷ new_resource "PAGE" ∷ []

parse_resource : String → Result Resource
parse_resource value = find "resource" value resources

unfoldable pub must_parse_resource : String → Result Resource
unfolding parse_resource
must_parse_resource value = must (parse_resource value)
