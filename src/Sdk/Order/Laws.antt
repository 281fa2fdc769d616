-- ===== src/Sdk/Order/Laws.antt =====
-- What order.Parse can return.
use spi_exata.Base.{
  String, ◌≡◌, refl, ◌≢◌, ◌⊎◌, inl, inr, some, List, [], ◌∷◌, arith, eq_iff, ◌is◌, Bool-cases,
  Option-cases, lookup,
}
use spi_exata.Base.Strings.{split, split-ne-nil, trim_space}
use spi_exata.Base.Errors.{ok, panicked}
use spi_exata.Sdk.Order.{asc, By, directions, new_by, with_parts, parse_parts, parse}

-- A direction that can stand in a statement.
abbrev pub IsDirection : String → Type 0
IsDirection d = (d ≡ "ASC") ⊎ (d ≡ "DESC")

directions-lookup : (d : String) {v : String} → lookup d directions ≡ some v → IsDirection d
directions-lookup d h = ground (arith, eq_iff "ASC" d, eq_iff "DESC" d)

-- The direction of a new order is one of the two, whatever text was given.
pub new_by-IsDirection : (field d : String) → IsDirection (new_by field d).direction
unfolding new_by
new_by-IsDirection field d = ground (arith, eq_iff "ASC" d, eq_iff "DESC" d)

pub field-new_by : (field d : String) → (new_by field d).field ≡ field
unfolding new_by
field-new_by field d = ground arith

with_parts_sound :
    (order_by field : String) (parts : List String) {by : By}
    → with_parts order_by field parts ≡ ok by
    → (by.field ≡ field) × IsDirection by.direction
unfolding with_parts
with_parts_sound order_by field (_ ∷ []) h =
    let e = field-new_by field asc in let d = new_by-IsDirection field asc in ground arith
with_parts_sound order_by field (_ ∷ part ∷ []) h =
    let e = field-new_by field (trim_space part) in
    let d = new_by-IsDirection field (trim_space part) in ground arith
with_parts_sound order_by field [] h = cc
with_parts_sound order_by field (_ ∷ _ ∷ _ ∷ _) h = cc

parse_parts_sound :
    (m : List (String × String)) (order_by : String) (parts : List String) {by : By}
    → parse_parts m order_by parts ≡ ok by
    → (name : String) × (lookup name m ≡ some by.field) × IsDirection by.direction
unfolding parse_parts
parse_parts_sound m order_by [] h = cc
parse_parts_sound m order_by (part ∷ parts) h = elim (Option-cases (lookup (trim_space part) m)) [
  | inl missing ↦ absurd (ground arith)
  | inr (field, found) ↦
      let (e, d) = with_parts_sound order_by field (part ∷ parts) (rw (found, parse_parts) at h) in
      (trim_space part, rw e found, d)
]

-- An order that order.Parse makes is the default one, and the text was empty, or it orders by a
-- field that the mapping gives for some name, in one of the two directions.
pub parse_sound :
    (m : List (String × String)) (order_by : String) (default by : By)
    → parse m order_by default ≡ ok by
    → ((order_by ≡ "") × (by ≡ default))
      ⊎ ((name : String) × (lookup name m ≡ some by.field) × IsDirection by.direction)
unfolding parse
parse_sound m order_by default by h = elim (Bool-cases (order_by is "")) [
  | inl empty ↦ inl ((eq_iff order_by "").0 empty, ground arith)
  | inr given ↦ inr (parse_parts_sound m order_by (split order_by b',') (rw given at h))
]

with_parts-ne-panicked :
    (order_by field : String) (parts : List String) (message : String)
    → with_parts order_by field parts ≢ panicked message
unfolding with_parts
with_parts-ne-panicked order_by field [] message = cc
with_parts-ne-panicked order_by field (_ ∷ []) message = cc
with_parts-ne-panicked order_by field (_ ∷ part ∷ []) message = ground arith
with_parts-ne-panicked order_by field (_ ∷ _ ∷ _ ∷ _) message = cc

parse_parts-ne-panicked :
    (m : List (String × String)) (order_by : String) (parts : List String) (message : String)
    → parts ≢ []
    → parse_parts m order_by parts ≢ panicked message
unfolding parse_parts
parse_parts-ne-panicked m order_by [] message h = absurd (h refl)
parse_parts-ne-panicked m order_by (part ∷ parts) message h =
    elim (Option-cases (lookup (trim_space part) m)) [
      | inl missing ↦ ground arith
      | inr (field, found) ↦
          rw (found, parse_parts) (with_parts-ne-panicked order_by field (part ∷ parts) message)
    ]

-- order.Parse panics for no text: splitting always gives a first part to look at.
pub parse-ne-panicked :
    (m : List (String × String)) (order_by : String) (default : By) (message : String)
    → parse m order_by default ≢ panicked message
unfolding parse
parse-ne-panicked m order_by default message =
    let rest =
      parse_parts-ne-panicked m order_by (split order_by b',') message
        (split-ne-nil order_by b',') in
    ground arith
