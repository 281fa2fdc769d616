-- ===== src/Types/Phone.antt =====
-- business/types/phone/phone.go
use spi_exata.Base.{
  ℕ, String, Bool, true, false, [], ◌∷◌, ◌||◌, ◌==◌, ◌is◌, ◌&&◌, same, if◌then◌else◌,
}
use spi_exata.Base.Strings.{codes}
use spi_exata.Base.Errors.{invalid, Result, ok, err, panicked}
use spi_exata.Types.Regex.{Regex, matches}
use spi_exata.Types.Name.{is_digit}

pub record Phone : Type 0 where
  pub value : String

abbrev pub equal : Phone → Phone → Bool
equal p p2 = p.value is p2.value

-- [0-9\s-], where \s is a tab, a line feed, a form feed, a carriage return or a space
abbrev pub is_phone_char : ℕ → Bool
is_phone_char c = is_digit c || c == 9 || c == 10 || c == 12 || c == 13 || c == 32 || c == b'-'

-- ^\+?[0-9\s-]{3,20}$
abbrev pub phone_regex : Regex
phone_regex =
    record { class = λ c. c == b'+'; least = 0; extra = 1 }
    ∷ record { class = is_phone_char; least = 3; extra = 17 }
    ∷ []

unfoldable pub parse : String → Result Phone
parse value =
    if matches phone_regex (codes value)
    then ok (record { value = value })
    else err (invalid "phone" value)

-- MustParse panics where Parse fails.
unfoldable pub must_parse : String → Result Phone
must_parse value = elim (parse value) [
  | ok p ↦ ok p
  | err e ↦ panicked "invalid phone"
  | panicked m ↦ panicked m
]

-- Null, a phone number that can be empty
pub record Null : Type 0 where
  pub value : String
  pub valid : Bool

-- sql.NullString
pub record NullString : Type 0 where
  pub string : String
  pub valid : Bool

abbrev pub to_sql_null_string : Null → NullString
to_sql_null_string n = record { string = n.value; valid = n.valid }

abbrev pub null_equal : Null → Null → Bool
null_equal n n2 = n.value is n2.value && same n.valid n2.valid

abbrev pub to_string : Null → String
to_string n = if n.valid then n.value else "NULL"

unfoldable pub parse_null : String → Result Null
parse_null value =
    if value is ""
    then ok (record { value = ""; valid = false })
    else if matches phone_regex (codes value)
    then ok (record { value = value; valid = true })
    else err (invalid "phone" value)

unfoldable pub must_parse_null : String → Result Null
must_parse_null value = elim (parse_null value) [
  | ok n ↦ ok n
  | err e ↦ panicked "invalid phone"
  | panicked m ↦ panicked m
]
