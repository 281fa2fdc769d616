-- ===== src/Tests/Parsers.antt =====
-- The parsers of texts, and the tables of error codes.
use spi_exata.Base.{◌≡◌, ◌≢◌, ◌↔◌, refl, true, String, some, arith}
use spi_exata.Base.Strings.{split, trim_space}
use spi_exata.Base.Errors.{ok}
use spi_exata.Base.Int.{pos, negsuc, atoi}
use spi_exata.Types.Regex.{matches}
use spi_exata.Types.Name
use spi_exata.Types.Phone
use spi_exata.Errs.Codes.{no_content, not_found, to_string, unmarshal_text}
use spi_exata.Errs.Laws.{unmarshal_text-to_string_iff}
use spi_exata.Sdk.Page
use spi_exata.Sdk.Page.{Page}
use spi_exata.Sdk.Page.Bounds.{IsPage}
use spi_exata.Sdk.Order
use spi_exata.Sdk.Order.{By}
use spi_exata.User.Db.{order_by_fields}
use spi_exata.User.Db.Store.{offset}
use spi_exata.User.Db.Paging.{offset_wrapped}
use spi_exata.Tests.Values.{bill}

name_test : Name.parse "Bill" ≡ ok bill
unfolding Name.parse matches
name_test = refl

abbrev number_text : String
number_text = "+15551234"

abbrev number : Phone.Null
number = record { value = number_text; valid = true }

abbrev pass : String
pass = "go#pher"

abbrev role_text : String
role_text = "ADMIN"

unmarshal_text_example :
    (unmarshal_text (to_string not_found) ≡ some not_found) ↔ (not_found ≢ no_content)
unmarshal_text_example = unmarshal_text-to_string_iff not_found

abbrev pub third_page : Page
third_page = record { number = pos 3; rows = pos 20 }

page_test : Page.parse "3" "20" ≡ ok third_page
unfolding Page.parse atoi
page_test = refl

abbrev third-IsPage : IsPage third_page
third-IsPage = record {
  n = 3;
  r = 20;
  number = refl;
  rows = refl;
  first = omega arith;
  some_rows = omega arith;
  few_rows = omega arith;
}

abbrev far_page : Page
far_page = record { number = pos 100000000000000002; rows = pos 100 }

abbrev far-IsPage : IsPage far_page
far-IsPage = record {
  n = 100000000000000002;
  r = 100;
  number = refl;
  rows = refl;
  first = omega arith;
  some_rows = omega arith;
  few_rows = omega arith;
}

offset_wrapped_example : offset far_page ≡ negsuc 8446744073709551515
offset_wrapped_example =
    offset_wrapped far_page far-IsPage (omega arith) (omega arith) (omega arith)

abbrev by_id : By
by_id = record { field = "a"; direction = "ASC" }

abbrev by_name : By
by_name = record { field = "name"; direction = "DESC" }

abbrev order_text : String
order_text = "b, DESC"

order_test : Order.parse order_by_fields order_text by_id ≡ ok by_name
unfolding Order.parse Order.new_by trim_space split
order_test = refl
