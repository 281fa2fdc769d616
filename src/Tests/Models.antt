-- ===== src/Tests/Models.antt =====
-- A user who is created by a request.
use spi_exata.Base.{ℕ, String, ◌≡◌, refl, List, [], ◌∷◌, arith, all, if◌then◌else◌}
use spi_exata.Base.Errors.{Result, ok}
use spi_exata.Base.Strings.{split, drop, folds_to}
use spi_exata.Types.Regex.{matches}
use spi_exata.Types.Name
use spi_exata.Types.Phone
use spi_exata.Types.Password
use spi_exata.Types.Enums.{admin, parse_role}
use spi_exata.Auth
use spi_exata.Auth.{Claims}
use spi_exata.Auth.Laws.{IsAuthentic, IsListed}
use spi_exata.User.Core
use spi_exata.Errs.Checking.{Validation, passed, failed, check}
use spi_exata.Web.{document, answer, wrap_middleware}
use spi_exata.Web.Decoding.{decode}
use spi_exata.Mid
use spi_exata.Mid.{Request}
use spi_exata.App.Users.{AppNewUser, to_app_user, to_bus_new_user}
use spi_exata.App.Users.Handlers
use spi_exata.App.Users.Handlers.{create, create_route}
use spi_exata.App.Models.{Field, new_user_fields, codec_of, is_valid}
use spi_exata.App.Models.Confirmed.{IsValidator, IsConfirmed, create_route-IsConfirmed}
use spi_exata.Tests.Tokens.{auth}
use spi_exata.Tests.Requests.{request}
use spi_exata.Tests.Apps.{texts}
use spi_exata.Tests.Routes.{models, host, storer}

-- A validator of just these rules.
abbrev validate_struct : List Field → Validation
validate_struct fs = if all (is_valid fs) fs then passed else failed []

validate_struct-IsValidator : IsValidator validate_struct
validate_struct-IsValidator fs h = ground arith

-- Each body is Will's, with the body as the confirmation of his password.
abbrev unmarshal : String → Result AppNewUser
unmarshal s = ok (record {
  name = "Will";
  email = "will@example.com";
  role = "USER";
  phone = "";
  password = "secret12";
  password_confirm = s;
})

abbrev tagged : Handlers.Models
tagged = record models { new_user = codec_of validate_struct unmarshal new_user_fields }

abbrev signing_up : Request
signing_up = record request { body = ok "secret12" }

created : (create_route texts tagged host storer auth [] signing_up 3).0 ≡ answer (document "Will")
unfolding create_route create decode check to_bus_new_user parse_role Name.parse matches
    Phone.parse_null Password.parse Core.create to_app_user wrap_middleware Mid.authenticate split
    folds_to Auth.authenticate Auth.authenticate_token drop Auth.verify_signature_and_claims
    Auth.is_user_enabled Mid.authorize Auth.authorize
created = refl

create_route-IsConfirmed_example :
    (claims : Claims) × (w' : ℕ) × IsAuthentic auth "Bearer t" claims 3
    × IsListed auth claims (admin ∷ [])
    × IsConfirmed texts tagged host storer validate_struct unmarshal signing_up w'
        (create_route texts tagged host storer auth [] signing_up 3)
create_route-IsConfirmed_example =
    create_route-IsConfirmed texts tagged host storer validate_struct unmarshal auth [] signing_up 3
      "Will" validate_struct-IsValidator refl created
