-- ===== src/App/Models.antt =====
-- The models of app/domain as they are decoded: unmarshalling, and the validation by the tags of their
-- fields. json.Unmarshal, json.Marshal and the validator are parameters.
pub mod Confirmed
use spi_exata.Base.{
  ℕ, String, Bool, true, false, not, ◌&&◌, ◌||◌, Option, none, some, List, [], ◌∷◌, ◌is◌, ◌⊎◌, all,
  any, if◌then◌else◌,
}
use spi_exata.Base.Errors.{Error, text, Result}
use spi_exata.Errs.{FieldErrors}
use spi_exata.Errs.Checking.{Validation, check}
use spi_exata.Web.Decoding.{Codec}
use spi_exata.App.Users.{AppNewUser, UpdateUserRole, AppUpdateUser}
use spi_exata.App.Dashboards.{AppNewDashboard, AppUpdateDashboard}
use spi_exata.App.Login.{Credentials}

-- The rules in the tags `validate`.
pub data Rule : Type 0 where
  required omitempty email uuid hostname : Rule
  min : ℕ → Rule
  eq_field : String → Rule

-- A field that has rules: its name in Go and in JSON, and its text, where a nil pointer has none.
pub record Field : Type 0 where
  pub name : String
  pub json : String
  pub value : Option String
  pub rules : List Rule

abbrev field : String → String → Option String → List Rule → Field
field name json value rules = record { name = name; json = json; value = value; rules = rules }

-- NewUser of userapp
abbrev pub new_user_fields : AppNewUser → List Field
new_user_fields app =
    field "Name" "name" (some app.name) (required ∷ [])
    ∷ field "Email" "email" (some app.email) (required ∷ email ∷ [])
    ∷ field "Role" "role" (some app.role) (required ∷ [])
    ∷ field "Phone" "phone" (some app.phone) []
    ∷ field "Password" "password" (some app.password) (required ∷ [])
    ∷ field "PasswordConfirm" "passwordConfirm" (some app.password_confirm)
        (eq_field "Password" ∷ [])
    ∷ []

-- UpdateUserRole
abbrev pub update_role_fields : UpdateUserRole → List Field
update_role_fields app = field "Role" "role" (some app.role) (required ∷ []) ∷ []

-- UpdateUser
abbrev pub update_user_fields : AppUpdateUser → List Field
update_user_fields app =
    field "Name" "name" app.name []
    ∷ field "Email" "email" app.email (omitempty ∷ email ∷ [])
    ∷ field "Phone" "phone" app.phone []
    ∷ field "Password" "password" app.password []
    ∷ field "PasswordConfirm" "passwordConfirm" app.password_confirm
        (omitempty ∷ eq_field "Password" ∷ [])
    ∷ []

-- NewDashboard of dashboardapp
abbrev pub new_dashboard_fields : AppNewDashboard → List Field
new_dashboard_fields app =
    field "TenantID" "tenantId" (some app.tenant_id) (required ∷ uuid ∷ [])
    ∷ field "Name" "name" (some app.name) (required ∷ min 3 ∷ [])
    ∷ field "Domain" "domain" (some app.domain) (omitempty ∷ hostname ∷ [])
    ∷ field "Logo" "logo" app.logo []
    ∷ []

-- UpdateDashboard
abbrev pub update_dashboard_fields : AppUpdateDashboard → List Field
update_dashboard_fields app =
    field "Name" "name" app.name (omitempty ∷ min 3 ∷ [])
    ∷ field "Domain" "domain" app.domain (omitempty ∷ hostname ∷ [])
    ∷ field "Logo" "logo" app.logo (omitempty ∷ [])
    ∷ []

-- Login of authapp
abbrev pub login_fields : Credentials → List Field
login_fields app =
    field "Email" "email" (some app.email) (required ∷ email ∷ [])
    ∷ field "Password" "password" (some app.password) (required ∷ [])
    ∷ []

abbrev pub refused : Option (FieldErrors ⊎ Error) → Option Error
refused none = none
refused (some _) = some (text "validate")

-- Decode and Validate of a model with the fields `fields`: an error of Validate keeps its text only
abbrev pub codec_of :
    {A : Type 0} → (List Field → Validation) → (String → Result A) → (A → List Field) → Codec A
codec_of validate_struct unmarshal fields = record {
  unmarshal = unmarshal;
  check = λ app. refused (check (validate_struct (fields app)));
}

-- What the validator documents of the rules `required` and `eqfield`; nothing is said of the others.
abbrev text_of : Option String → String
text_of none = ""
text_of (some s) = s

-- the text of the field with a name
abbrev pub text_named : String → List Field → String
text_named name [] = ""
text_named name (f ∷ fs) = if f.name is name then text_of f.value else text_named name fs

abbrev pub holds : List Field → String → Rule → Bool
holds fs value required = not (value is "")
holds fs value (eq_field name) = value is text_named name fs
holds fs value _ = true

abbrev is_omitempty : Rule → Bool
is_omitempty omitempty = true
is_omitempty _ = false

-- a field without a text is let pass by omitempty
abbrev pub is_valid : List Field → Field → Bool
is_valid fs f =
    any is_omitempty f.rules && text_of f.value is "" || all (holds fs (text_of f.value)) f.rules
