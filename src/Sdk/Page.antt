-- ===== src/Sdk/Page.antt =====
-- business/sdk/page/page.go
pub mod Bounds
use spi_exata.Base.{ℕ, String, Bool, false, ◌is◌, ltb, if◌then◌else◌}
use spi_exata.Base.Errors.{text, Result, ok, err, panicked, ◌>>=◌, wrapping}
use spi_exata.Base.Int.{ℤ, pos, negsuc, is_le_zero, atoi}

pub record Page : Type 0 where
  pub number : ℤ
  pub rows : ℤ

abbrev pub exceeds : ℤ → ℕ → Bool
exceeds (pos n) m = ltb m n
exceeds (negsuc n) m = false

-- the value of a parameter, with a default where it is missing
pub number_or : ℕ → String → String → Result ℤ
number_or missing prefix value =
    if value is "" then ok (pos missing) else wrapping prefix (atoi value)

-- The checks after the conversions.
pub check : ℤ → ℤ → Result Page
check number rows =
    if is_le_zero number
    then err (text "page value too small, must be larger than 0")
    else if is_le_zero rows
    then err (text "rows value too small, must be larger than 0")
    else if exceeds rows 100
    then err (text "rows value too large, must be less than 100")
    else ok (record { number = number; rows = rows })

unfoldable pub parse : String → String → Result Page
unfolding number_or check
parse page rows_per_page = do
  number ← number_or 1 "page conversion" page
  rows ← number_or 10 "rows conversion" rows_per_page
  check number rows

unfoldable pub must_parse : String → String → Result Page
unfolding parse
must_parse page rows_per_page = elim (parse page rows_per_page) [
  | ok p ↦ ok p
  | err e ↦ panicked "page"
  | panicked m ↦ panicked m
]
