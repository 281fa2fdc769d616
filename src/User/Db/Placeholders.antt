-- ===== src/User/Db/Placeholders.antt =====
-- The placeholders of the statements of the store.
use spi_exata.Base.{
  ℕ, String, ◌≡◌, refl, sym, ap, ◌∙◌, ◌⊎◌, inl, inr, Bool, ◌&&◌, ◌||◌, Option, none, some, List, [],
  ◌∷◌, ◌++◌, arith, leb, ◌==◌, if◌then◌else◌, lookup, Bool-cases, Option-cases,
}
use spi_exata.Base.Errors.{ok}
use package.text.Mathlib.TextLemmas.{cons-append, nil-append, append_assoc}
use Prim.Native.Char.{Char, code}
use mathlib.Core.List.{reverse}
use spi_exata.Base.Strings.{chars, of_chars, ◌<>◌}
use spi_exata.Sdk.Order.{By}
use spi_exata.Sdk.Order.Laws.{IsDirection}
use spi_exata.User.Db.{order_by_fields, order_by_clause}
use spi_exata.User.Db.Store.{paged}

-- A character of a placeholder's name
is_word : ℕ → Bool
is_word c = leb 97 c && leb c 122 || leb 65 c && leb c 90 || leb 48 c && leb c 57 || c == 95

-- The names of the placeholders `:name` of a text; `inside` holds the name that is being read.
scan : Option (List Char) → List Char → List String
scan none [] = []
scan (some name) [] = of_chars (reverse name) ∷ []
scan none (c ∷ s) = scan (if code c == b':' then some [] else none) s
scan (some name) (c ∷ s) =
    let longer = scan (some (c ∷ name)) s in
    let closed = of_chars (reverse name) ∷ scan none s in
    if is_word (code c) then longer else closed

unfoldable pub placeholders : String → List String
unfolding scan is_word
placeholders s = scan none (chars s)

space : Char
space = " "

-- A space ends a placeholder.
scan-space :
    (name : Option (List Char)) (xs ys : List Char)
    → scan name (xs ++ (space ∷ ys)) ≡ scan name xs ++ scan none ys
unfolding scan is_word space
scan-space none [] ys = refl
scan-space (some name) [] ys = refl
scan-space none (c ∷ xs) ys = scan-space (if code c == b':' then some [] else none) xs ys
scan-space (some name) (c ∷ xs) ys = elim (Bool-cases (is_word (code c))) [
  | inl word ↦ rw (word) (scan-space (some (c ∷ name)) xs ys)
  | inr other ↦ rw (other) (ap (λ ps. of_chars (reverse name) ∷ ps) (scan-space none xs ys))
]

chars-append : (a b : String) → chars (a <> b) ≡ chars a ++ chars b
chars-append String.[] b = ap chars (nil-append b)
chars-append (String.◌∷◌ c a) b = ap chars (cons-append c a b) ∙ ap (λ s. c ∷ s) (chars-append a b)

placeholders-space :
    (buf rest : String)
    → placeholders (buf <> (" " <> rest)) ≡ placeholders buf ++ placeholders rest
unfolding placeholders space
placeholders-space buf rest =
    ap (scan none)
      (chars-append buf (" " <> rest) ∙ ap (λ s. chars buf ++ s) (chars-append " " rest))
    ∙ scan-space none (chars buf) (chars rest)

-- A column that the rows of select_users have: one of the table of users, or the name of the role that
-- is joined to it.
abbrev pub IsColumn : String → Type 0
IsColumn column =
    (column ≡ "user_id")
    ⊎ (column ≡ "name")
    ⊎ (column ≡ "email")
    ⊎ (column ≡ "role")
    ⊎ (column ≡ "enabled")

paged-split :
    (buf clause rest : String)
    → clause <> " OFFSET :offset ROWS FETCH NEXT :rows_per_page ROWS ONLY" ≡ " " <> rest
    → placeholders rest ≡ "offset" ∷ "rows_per_page" ∷ []
    → placeholders (paged buf clause) ≡ placeholders buf ++ ("offset" ∷ "rows_per_page" ∷ [])
paged-split buf clause rest e names =
    ap placeholders (
      append_assoc buf clause " OFFSET :offset ROWS FETCH NEXT :rows_per_page ROWS ONLY"
      ∙ ap (λ s. buf <> s) e)
    ∙ placeholders-space buf rest
    ∙ ap (λ ps. placeholders buf ++ ps) names

-- What follows a column and a direction.
rest_of : String → String → String
rest_of column direction =
    "ORDER BY " <> column <> " " <> direction
    <> " OFFSET :offset ROWS FETCH NEXT :rows_per_page ROWS ONLY"

-- An order by one of the columns has no placeholder.
ordered-placeholders :
    (buf column direction : String)
    → IsColumn column
    → IsDirection direction
    → placeholders (paged buf (" ORDER BY " <> column <> " " <> direction))
      ≡ placeholders buf ++ ("offset" ∷ "rows_per_page" ∷ [])
unfolding rest_of placeholders
ordered-placeholders buf column direction c d = elim c [
  | inl e ↦ rw e (elim d [
    | inl f ↦ rw f (paged-split buf _ (rest_of "user_id" "ASC") refl refl)
    | inr f ↦ rw f (paged-split buf _ (rest_of "user_id" "DESC") refl refl)
  ])
  | inr (inl e) ↦ rw e (elim d [
    | inl f ↦ rw f (paged-split buf _ (rest_of "name" "ASC") refl refl)
    | inr f ↦ rw f (paged-split buf _ (rest_of "name" "DESC") refl refl)
  ])
  | inr (inr (inl e)) ↦ rw e (elim d [
    | inl f ↦ rw f (paged-split buf _ (rest_of "email" "ASC") refl refl)
    | inr f ↦ rw f (paged-split buf _ (rest_of "email" "DESC") refl refl)
  ])
  | inr (inr (inr (inl e))) ↦ rw e (elim d [
    | inl f ↦ rw f (paged-split buf _ (rest_of "role" "ASC") refl refl)
    | inr f ↦ rw f (paged-split buf _ (rest_of "role" "DESC") refl refl)
  ])
  | inr (inr (inr (inr e))) ↦ rw e (elim d [
    | inl f ↦ rw f (paged-split buf _ (rest_of "enabled" "ASC") refl refl)
    | inr f ↦ rw f (paged-split buf _ (rest_of "enabled" "DESC") refl refl)
  ])
]

-- The placeholders of what Query sends are those of the filtered query, the offset and the rows.
pub paged-placeholders :
    (buf clause : String) (by : By)
    → IsDirection by.direction
    → order_by_clause by ≡ ok clause
    → placeholders (paged buf clause) ≡ placeholders buf ++ ("offset" ∷ "rows_per_page" ∷ [])
unfolding order_by_clause
paged-placeholders buf clause by d h = elim (Option-cases (lookup by.field order_by_fields)) [
  | inl e ↦ let k = rw (order_by_clause, e) at h in cc
  | inr (column, e) ↦
      let known : IsColumn column = ground arith in
      let same : " ORDER BY " <> column <> " " <> by.direction ≡ clause = ground arith in
      ap (λ c. placeholders (paged buf c)) (sym same)
      ∙ ordered-placeholders buf column by.direction known d
]
