-- ===== src/Types/Name.antt =====
-- business/types/name/name.go
use spi_exata.Base.{
  ℕ, String, Bool, false, true, [], ◌∷◌, ◌&&◌, ◌||◌, ◌==◌, ◌is◌, same, leb, if◌then◌else◌,
}
use spi_exata.Base.Strings.{codes}
use spi_exata.Base.Errors.{invalid, Result, ok, err, panicked}
use spi_exata.Types.Regex.{Regex, matches}

pub record Name : Type 0 where
  pub value : String

abbrev pub equal : Name → Name → Bool
equal n n2 = n.value is n2.value

abbrev pub is_letter : ℕ → Bool
is_letter c = leb b'a' c && leb c b'z' || leb b'A' c && leb c b'Z'

abbrev pub is_digit : ℕ → Bool
is_digit c = leb b'0' c && leb c b'9'

-- [a-zA-Z0-9' -], where 39 is the quote
abbrev pub is_name_char : ℕ → Bool
is_name_char c = is_letter c || is_digit c || c == 39 || c == b' ' || c == b'-'

-- ^[a-zA-Z][a-zA-Z0-9' -]{2,19}$
abbrev pub name_regex : Regex
name_regex =
    record { class = is_letter; least = 1; extra = 0 }
    ∷ record { class = is_name_char; least = 2; extra = 17 }
    ∷ []

unfoldable pub parse : String → Result Name
parse value =
    if matches name_regex (codes value)
    then ok (record { value = value })
    else err (invalid "name" value)

-- MustParse panics where Parse fails.
unfoldable pub must_parse : String → Result Name
must_parse value = elim (parse value) [
  | ok n ↦ ok n
  | err e ↦ panicked "invalid name"
  | panicked m ↦ panicked m
]

-- Null, a name that can be empty
pub record Null : Type 0 where
  pub value : String
  pub valid : Bool

abbrev pub null_equal : Null → Null → Bool
null_equal n n2 = n.value is n2.value && same n.valid n2.valid

abbrev pub to_string : Null → String
to_string n = if n.valid then n.value else "NULL"

unfoldable pub parse_null : String → Result Null
parse_null value =
    if value is ""
    then ok (record { value = ""; valid = false })
    else if matches name_regex (codes value)
    then ok (record { value = value; valid = true })
    else err (invalid "name" value)

unfoldable pub must_parse_null : String → Result Null
must_parse_null value = elim (parse_null value) [
  | ok n ↦ ok n
  | err e ↦ panicked "invalid name"
  | panicked m ↦ panicked m
]
