-- ===== src/Types/Password.antt =====
-- business/types/password/password.go
use spi_exata.Base.{ℕ, String, Bool, Option, some, [], ◌∷◌, ◌||◌, ◌==◌, ◌is◌, not, if◌then◌else◌}
use spi_exata.Base.Strings.{codes}
use spi_exata.Base.Errors.{text, invalid, Result, ok, err, panicked, ◌>>=◌}
use spi_exata.Types.Regex.{Regex, matches}
use spi_exata.Types.Name.{is_letter, is_digit}

pub record Password : Type 0 where
  pub value : String

abbrev pub equal : Password → Password → Bool
equal n n2 = n.value is n2.value

-- [a-zA-Z0-9#@!-]
abbrev pub is_password_char : ℕ → Bool
is_password_char c = is_letter c || is_digit c || c == b'#' || c == b'@' || c == b'!' || c == b'-'

-- ^[a-zA-Z0-9#@!-]{3,19}$
abbrev pub password_regex : Regex
password_regex = record { class = is_password_char; least = 3; extra = 16 } ∷ []

unfoldable pub parse : String → Result Password
parse value =
    if matches password_regex (codes value)
    then ok (record { value = value })
    else err (invalid "password" value)

-- MustParse panics where Parse fails.
unfoldable pub must_parse : String → Result Password
must_parse value = elim (parse value) [
  | ok p ↦ ok p
  | err e ↦ panicked "invalid password"
  | panicked m ↦ panicked m
]

unfoldable pub parse_confirm : String → String → Result Password
parse_confirm pass confirm = do
  p ← parse pass
  if not (pass is confirm) then err (text "passwords do not match") else ok p

unfoldable pub parse_confirm_pointers : Option String → Option String → Result Password
parse_confirm_pointers (some pass) (some confirm) = parse_confirm pass confirm
parse_confirm_pointers _ _ = err (text "passwords do not match")
