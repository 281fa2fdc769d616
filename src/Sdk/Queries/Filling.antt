-- ===== src/Sdk/Queries/Filling.antt =====
-- The arguments in the text of a query.
use Prim.Native.String.{String}
use Prim.Native.Char.{Char, code}
use text.Mathlib.TextLemmas.{nil-append, cons-append}
use spi_exata.Base.{
  ◌≡◌, refl, sym, ap, ◌∙◌, inl, inr, Bool, true, false, ◌||◌, List, [], ◌∷◌, ◌==◌, all, not, arith,
  Bool-cases, if◌then◌else◌,
}
use spi_exata.Base.Strings.{◌<>◌}
use spi_exata.Sdk.Queries.{replace_first, fill}

-- The query with each "?" replaced by the next of the values, in one pass; the ones left over stay.
unfoldable pub filled : String → List String → String
filled String.[] values = String.[]
filled (String.◌∷◌ c s) [] = String.◌∷◌ c (filled s [])
filled (String.◌∷◌ c s) (value ∷ values) =
    let next = filled s values in
    let rest = filled s (value ∷ values) in
    if code c == b'?' then value <> next else String.◌∷◌ c rest

abbrev pub has_placeholder : String → Bool
has_placeholder String.[] = false
has_placeholder (String.◌∷◌ c s) = code c == b'?' || has_placeholder s

filled-nil : (s : String) → filled s [] ≡ s
unfolding filled
filled-nil String.[] = refl
filled-nil (String.◌∷◌ c s) = ap (λ t. String.◌∷◌ c t) (filled-nil s)

filled-other :
    (c : Char) (s : String) (values : List String)
    → (code c == b'?') ≡ false
    → filled (String.◌∷◌ c s) values ≡ String.◌∷◌ c (filled s values)
unfolding filled
filled-other c s [] h = refl
filled-other c s (value ∷ values) h = rw h refl

filled-<> :
    (v s : String) (values : List String)
    → has_placeholder v ≡ false
    → filled (v <> s) values ≡ v <> filled s values
unfolding filled
filled-<> String.[] s values h = rw (nil-append s, nil-append (filled s values)) refl
filled-<> (String.◌∷◌ c v) s values h =
    rw (cons-append c v s, cons-append c v (filled s values))
      (filled-other c (v <> s) values (ground arith)
        ∙ ap (λ t. String.◌∷◌ c t) (filled-<> v s values (ground arith)))

filled-replace_first :
    (q v : String) (values : List String)
    → has_placeholder v ≡ false
    → filled (replace_first q v) values ≡ filled q (v ∷ values)
unfolding filled replace_first
filled-replace_first String.[] v values h = refl
filled-replace_first (String.◌∷◌ c q) v values h = elim (Bool-cases (code c == b'?')) [
  | inl mark ↦ rw mark (filled-<> v q values h)
  | inr other ↦ rw other (
      filled-other c (replace_first q v) values other
      ∙ ap (λ t. String.◌∷◌ c t) (filled-replace_first q v values h))
]

-- If no value has a "?" in it, the loop of queryString puts the values in the places of the "?" of the
-- query in their order.
pub fill-filled :
    (query : String) (values : List String)
    → all (λ v. not (has_placeholder v)) values ≡ true
    → fill query values ≡ filled query values
unfolding fill
fill-filled query [] h = sym (filled-nil query)
fill-filled query (value ∷ values) h =
    fill-filled (replace_first query value) values (ground arith)
    ∙ filled-replace_first query value values (ground arith)
