-- ===== src/Sdk/Order.antt =====
-- business/sdk/order/order.go
pub mod Laws
use spi_exata.Base.{String, none, some, List, [], ◌∷◌, ◌is◌, lookup, if◌then◌else◌}
use spi_exata.Base.Strings.{split, trim_space}
use spi_exata.Base.Errors.{invalid, Result, ok, err, panicked}

abbrev pub asc : String
asc = "ASC"

abbrev pub desc : String
desc = "DESC"

abbrev pub directions : List (String × String)
directions = (asc, "ASC") ∷ (desc, "DESC") ∷ []

pub record By : Type 0 where
  pub field : String
  pub direction : String

unfoldable pub new_by : String → String → By
new_by field direction = elim (lookup direction directions) [
  | none ↦ record { field = field; direction = asc }
  | some _ ↦ record { field = field; direction = direction }
]

-- the `switch` on the number of parts, after the field name was found
unfoldable pub with_parts : String → String → List String → Result By
with_parts order_by field_name (_ ∷ []) = ok (new_by field_name asc)
with_parts order_by field_name (_ ∷ part ∷ []) =
    let direction = trim_space part in
    elim (lookup direction directions) [
      | none ↦ err (invalid "unknown direction" direction)
      | some _ ↦ ok (new_by field_name direction)
    ]
with_parts order_by field_name _ = err (invalid "unknown order" order_by)

-- The first part of a split text exists; Go would panic if it did not.
unfoldable pub parse_parts : List (String × String) → String → List String → Result By
parse_parts field_mappings order_by [] = panicked "index out of range"
parse_parts field_mappings order_by (part ∷ parts) =
    let name = trim_space part in
    elim (lookup name field_mappings) [
      | none ↦ err (invalid "unknown order" name)
      | some field_name ↦ with_parts order_by field_name (part ∷ parts)
    ]

unfoldable pub parse : List (String × String) → String → By → Result By
unfolding parse_parts with_parts
parse field_mappings order_by default_order =
    if order_by is ""
    then ok default_order
    else parse_parts field_mappings order_by (split order_by b',')
