-- ===== src/App/Users/Parsing.antt =====
-- What the parameters of the URL come to: the filter, and the order clause of the statement.
use spi_exata.Base.{
  String, ◌≡◌, refl, ap, ◌≢◌, ◌↔◌, ◌⊎◌, inl, inr, Option, none, some, [], ◌∷◌, arith, eq_iff, ◌is◌,
  Bool-cases, lookup,
}
use spi_exata.Base.Errors.{Error, Result, ok}
use spi_exata.Base.Errors.{Result-cases, >>=-eq-ok}
use spi_exata.Types.Name
use spi_exata.Sdk.Order
use spi_exata.Sdk.Order.{By, new_by}
use spi_exata.Sdk.Order.Laws.{IsDirection, parse_sound}
use spi_exata.User.{QueryFilter, default_order_by}
use spi_exata.User.Db.Placeholders.{IsColumn}
use spi_exata.User.Db.{order_by_clause}
use spi_exata.Base.Strings.{◌<>◌}
use spi_exata.Errs.{FieldErrors, add}
use spi_exata.App.Users.{Texts, app_order_by_fields}
use spi_exata.App.Users.Filter.{QueryParams, parse_field, parse_filter, unless_errors}

-- A missing parameter leaves the field out; any other parses to the field's value.
abbrev pub IsField : {A : Type 0} → String → (String → Result A) → Option A → Type 0
IsField {A} value parse o =
    ((value ≡ "") × (o ≡ none)) ⊎ ((value ≢ "") × (a : A) × (parse value ≡ ok a) × (o ≡ some a))

add-ne-nil : (fe : FieldErrors) (field : String) (e : Error) → add fe field e ≢ []
add-ne-nil [] field e = cc
add-ne-nil (x ∷ fe) field e = cc

module _ {A : Type 0} (field value : String) (parse : String → Result A) where
  field-IsField :
      (fe : FieldErrors) (o : Option A)
      → parse_field field value parse fe ≡ ok (o, [])
      → (fe ≡ []) × IsField value parse o
  unfolding parse_field
  field-IsField fe o h = elim (Bool-cases (value is "")) [
    | inl empty ↦
        let k = rw empty at h in (ground arith, inl ((eq_iff value "").0 empty, ground arith))
    | inr given ↦
        let k = rw given at h in
        elim (Result-cases (parse value)) [
          | inl (a, e) ↦
              let l = rw e at k in
              (ground arith, inr ((λ v. ground (arith, eq_iff value "")), a, e, ground arith))
          | inr (inl (e, f)) ↦ let l = rw f at k in absurd (add-ne-nil fe field e (ground arith))
          | inr (inr (m, f)) ↦ let l = rw f at k in cc
        ]
  ]

  -- The same, where the end of the errors and the value are known by equations.
  field-step :
      (fe fe' : FieldErrors) (o o' : Option A)
      → parse_field field value parse fe ≡ ok (o, fe')
      → fe' ≡ []
      → o ≡ o'
      → (fe ≡ []) × IsField value parse o'
  field-step fe fe' o o' h e p = field-IsField fe o' (rw (e, p) at h)

  IsField-field :
      (fe : FieldErrors) (o : Option A)
      → IsField value parse o
      → parse_field field value parse fe ≡ ok (o, fe)
  unfolding parse_field
  IsField-field fe o (inl (empty, e)) = ground (arith, eq_iff value "")
  IsField-field fe o (inr (given, a, p, e)) = ground (arith, eq_iff value "")

unless_errors-inl :
    (fe : FieldErrors) (f g : QueryFilter) → unless_errors fe f ≡ inl g → (fe ≡ []) × (f ≡ g)
unless_errors-inl [] f g h = (refl, ground arith)
unless_errors-inl (x ∷ fe) f g h = cc

-- parseFilter gives a filter exactly when every parameter that is given parses, and the filter holds
-- the values of those, and nothing for the others.
pub parse_filter_iff :
    (texts : Texts) (qp : QueryParams) (f : QueryFilter)
    → (parse_filter texts qp ≡ ok (inl f)) ↔ (
        IsField qp.id texts.parse_uuid f.id
        × IsField qp.name Name.parse f.name
        × IsField qp.email texts.parse_address f.email
        × IsField qp.start_created_date texts.parse_time f.start_created_at
        × IsField qp.end_created_date texts.parse_time f.end_created_at)
unfolding parse_filter
parse_filter_iff texts qp f = (
  (λ h.
      let ((id, fe1), h1, e1) = >>=-eq-ok (parse_field "user_id" qp.id texts.parse_uuid []) h in
      let ((name, fe2), h2, e2) = >>=-eq-ok (parse_field "name" qp.name Name.parse fe1) h1 in
      let ((email, fe3), h3, e3) =
        >>=-eq-ok (parse_field "email" qp.email texts.parse_address fe2) h2 in
      let ((start, fe4), h4, e4) =
        >>=-eq-ok (parse_field "start_created_date" qp.start_created_date texts.parse_time fe3)
          h3 in
      let ((end, fe5), h5, e5) =
        >>=-eq-ok (parse_field "end_created_date" qp.end_created_date texts.parse_time fe4) h4 in
      let (none_left, same) = unless_errors-inl fe5 _ f (ground arith) in
      let (z4, f5) =
        field-step "end_created_date" qp.end_created_date texts.parse_time fe4 fe5 end
          f.end_created_at e5 none_left (ap QueryFilter.end_created_at same) in
      let (z3, f4) =
        field-step "start_created_date" qp.start_created_date texts.parse_time fe3 fe4 start
          f.start_created_at e4 z4 (ap QueryFilter.start_created_at same) in
      let (z2, f3) =
        field-step "email" qp.email texts.parse_address fe2 fe3 email f.email e3 z3
          (ap QueryFilter.email same) in
      let (z1, f2) =
        field-step "name" qp.name Name.parse fe1 fe2 name f.name e2 z2 (ap QueryFilter.name same) in
      let (z0, f1) =
        field-step "user_id" qp.id texts.parse_uuid [] fe1 id f.id e1 z1 (ap QueryFilter.id same) in
      (f1, f2, f3, f4, f5)),
  λ h.
      rw
        (
          IsField-field "user_id" qp.id texts.parse_uuid [] f.id h.0,
          IsField-field "name" qp.name Name.parse [] f.name h.1,
          IsField-field "email" qp.email texts.parse_address [] f.email h.2,
          IsField-field "start_created_date" qp.start_created_date texts.parse_time []
              f.start_created_at h.3,
          IsField-field "end_created_date" qp.end_created_date texts.parse_time [] f.end_created_at
              h.4,
        )
        refl,
)

clause_of_field :
    (by : By) (given : String)
    → lookup given app_order_by_fields ≡ some by.field
    → IsDirection by.direction
    → (column direction : String) × IsColumn column
      × IsDirection direction
      × (order_by_clause by ≡ ok (" ORDER BY " <> column <> " " <> direction))
unfolding order_by_clause
clause_of_field by given h d =
    let field : (by.field ≡ "a")
        ⊎ (by.field ≡ "b")
        ⊎ (by.field ≡ "c")
        ⊎ (by.field ≡ "d")
        ⊎ (by.field ≡ "e") =
      ground arith in
    elim field [
      | inl e ↦ ("user_id", by.direction, inl refl, d, rw e refl)
      | inr (inl e) ↦ ("name", by.direction, inr (inl refl), d, rw e refl)
      | inr (inr (inl e)) ↦ ("email", by.direction, inr (inr (inl refl)), d, rw e refl)
      | inr (inr (inr (inl e))) ↦ ("role", by.direction, inr (inr (inr (inl refl))), d, rw e refl)
      | inr (inr (inr (inr e))) ↦
          ("enabled", by.direction, inr (inr (inr (inr refl))), d, rw e refl)
    ]

-- Whatever order the URL asks for, once it is parsed the statement is ordered by one of five columns of
-- the rows that it selects (four of the table of users, and "role", as which the statement selects the
-- name of the joined role), in one of the two directions, and nothing else of the text reaches it.
pub order_of_request :
    (order_by : String) (by : By)
    → Order.parse app_order_by_fields order_by default_order_by ≡ ok by
    → (column direction : String) × IsColumn column
      × IsDirection direction
      × (order_by_clause by ≡ ok (" ORDER BY " <> column <> " " <> direction))
unfolding default_order_by new_by order_by_clause
order_of_request order_by by h =
    elim (parse_sound app_order_by_fields order_by default_order_by by h) [
      | inl (empty, e) ↦ rw e ("user_id", "ASC", inl refl, inl refl, refl)
      | inr (given, found, d) ↦ clause_of_field by given found d
    ]
