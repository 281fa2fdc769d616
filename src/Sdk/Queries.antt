-- ===== src/Sdk/Queries.antt =====
-- business/sdk/sqldb/sqldb.go: the queries without arguments and those with an IN clause, and the text of
-- a query for the log. Named, In and Rebind of sqlx, and running a query with bound arguments, are
-- parameters.
pub mod Filling
use Prim.Native.String.{String}
use Prim.Native.String
use Prim.Native.Char.{Char, code}
use mathlib.Core.List.{reverse}
use spi_exata.Base.{List, [], ◌∷◌, ◌==◌, map, if◌then◌else◌}
use spi_exata.Base.Errors.{Error, Result, err}
use spi_exata.Base.State.{M}
use spi_exata.Base.Strings.{◌<>◌, chars, of_chars}
use spi_exata.Sdk.Sqldb.{
  Value, Params, Driver, other, Reply, reply, failure, query_error, scan_all, scan_first,
  named_exec, named_query_slice, named_query_struct,
}

module _ {W T : Type 0} (db : Driver W T) where
  -- ExecContext, QuerySlice, QueryStruct: a struct without fields has no arguments
  abbrev pub exec_context : String → M W (Unit {0})
  exec_context query = named_exec db query []

  abbrev pub query_slice : String → M W (List T)
  query_slice query = named_query_slice db query []

  abbrev pub query_struct : String → M W T
  query_struct query = named_query_struct db query []

-- sqlx.Named, sqlx.In, Rebind and QueryxContext
pub record Binder (W T : Type 0) : Type 0 where
  pub named : String → Params → Reply (String × List Value)
  pub expand : String → List Value → Reply (String × List Value)
  pub rebind : String → String
  pub query_x : String → List Value → W → Reply (List (Result T)) × W

module _ {W T : Type 0} (b : Binder W T) where
  abbrev expanded : Reply (String × List Value) → W → Reply (List (Result T)) × W
  expanded (reply (query, args)) w = b.query_x (b.rebind query) args w
  expanded (failure e) w = (failure e, w)

  -- the function of the case `true`
  unfoldable pub query_in : String → Params → W → Reply (List (Result T)) × W
  query_in query params w = elim (b.named query params) [
    | reply (named, args) ↦ expanded (b.expand named args) w
    | failure e ↦ (failure e, w)
  ]

  abbrev scanned : {B : Type 0} → (List (Result T) → Result B) → Reply (List (Result T)) → Result B
  scanned scan (reply rows) = scan rows
  scanned scan (failure e) = err (query_error e)

  -- NamedQuerySliceUsingIn, NamedQueryStructUsingIn
  unfoldable pub named_query_slice_using_in : String → Params → M W (List T)
  unfolding query_in
  named_query_slice_using_in query params w =
      let (r, w') = query_in query params w in (scanned scan_all r, w')

  unfoldable pub named_query_struct_using_in : String → Params → M W T
  unfolding query_in
  named_query_struct_using_in query params w =
      let (r, w') = query_in query params w in (scanned scan_first r, w')

-- the value of an argument in the text; the verb %v of other values is a parameter
abbrev pub printed : (Value → String) → Value → String
printed show (Value.string v) = "'" <> (v <> "'")
printed show (Value.bytes v) = "'" <> (v <> "'")
printed show v = show v

-- strings.Replace(query, "?", value, 1)
unfoldable pub replace_first : String → String → String
replace_first String.[] value = String.[]
replace_first (String.◌∷◌ c s) value =
    let rest = replace_first s value in if code c == b'?' then value <> s else String.◌∷◌ c rest

-- the loop over the arguments
unfoldable pub fill : String → List String → String
fill query [] = query
fill query (value ∷ values) = fill (replace_first query value) values

-- strings.ReplaceAll of "\t" by nothing and of "\n" by a space
unfoldable pub on_one_line : String → String
on_one_line String.[] = String.[]
on_one_line (String.◌∷◌ c s) =
    let rest = on_one_line s in
    if code c == 9 then rest else if code c == 10 then " " <> rest else String.◌∷◌ c rest

unfoldable pub without_spaces : List Char → List Char
without_spaces [] = []
without_spaces (c ∷ s) = let rest = without_spaces s in if code c == 32 then rest else c ∷ s

-- strings.Trim(s, " ")
abbrev pub trim : String → String
trim s = of_chars (reverse (without_spaces (reverse (without_spaces (chars s)))))

-- queryString, of what sqlx.Named gives
unfoldable pub query_string :
    (Value → String) → (Error → String) → Reply (String × List Value) → String
query_string show show_error (reply (query, params)) =
    trim (on_one_line (fill query (map (printed show) params)))
query_string show show_error (failure (other e)) = show_error e
query_string show show_error (failure e) = ""
