-- ===== src/Sdk/Sqldb.antt =====
-- business/sdk/sqldb/sqldb.go: named statements and queries over a driver. The driver (sqlx and pgx)
-- is a parameter: it runs a text with named arguments against the world, and fails with an error of
-- PostgreSQL, which has a code and a column, or with another error. Logging and spans are left out.
use spi_exata.Base.{Option, ℕ, String, Bool, List, [], ◌∷◌, ◌is◌, if◌then◌else◌}
use spi_exata.Base.Errors.{
  db_not_found, undefined_table, Error, sentinel, duplicated_entry, foreign, Result, ok, err,
  panicked,
}
use spi_exata.Base.State.{M}
use spi_exata.Base.Int.{ℤ}
use spi_exata.Types.Phone.{NullString}

-- A value that a placeholder of a statement stands for.
pub data Value : Type 0 where
  uuid time : ℕ → Value
  string bytes : String → Value
  null_string : NullString → Value
  -- bytes, or nil
  null_bytes : Option String → Value
  int : ℤ → Value
  bool : Bool → Value

abbrev pub Params : Type 0
Params = List (String × Value)

pub data DriverError : Type 0 where
  -- pgconn.PgError: its Code and ColumnName
  pg_error : String → String → DriverError
  other : Error → DriverError

pub data Reply {ℓ} (A : Type ℓ) : Type ℓ where
  reply : A → Reply A
  failure : DriverError → Reply A

-- What a driver offers for rows scanned into values of `T`. A row that cannot be scanned is an
-- error in its place.
pub record Driver (W T : Type 0) : Type 0 where
  pub exec : String → Params → W → Reply (Unit {0}) × W
  pub query : String → Params → W → Reply (List (Result T)) × W

abbrev pub unique_violation : String
unique_violation = "23505"

abbrev pub undefined_table_code : String
undefined_table_code = "42P01"

-- the `switch pqerr.Code` of NamedExecContext
unfoldable pub exec_error : DriverError → Error
exec_error (pg_error code column) =
    if code is undefined_table_code
    then sentinel undefined_table
    else if code is unique_violation
    then duplicated_entry column
    else foreign 0
exec_error (other e) = e

-- the test of the two query functions
unfoldable pub query_error : DriverError → Error
query_error (pg_error code column) =
    if code is undefined_table_code then sentinel undefined_table else foreign 0
query_error (other e) = e

-- the loop `for rows.Next()` of namedQuerySlice
unfoldable pub scan_all {ℓ} : {T : Type ℓ} → List (Result T) → Result (List T)
scan_all [] = ok []
scan_all (ok v ∷ rows) = elim (scan_all rows) [
  | ok vs ↦ ok (v ∷ vs)
  | err e ↦ err e
  | panicked m ↦ panicked m
]
scan_all (err e ∷ rows) = err e
scan_all (panicked m ∷ rows) = panicked m

-- rows.Next and rows.StructScan of namedQueryStruct: the first row alone
unfoldable pub scan_first {ℓ} : {T : Type ℓ} → List (Result T) → Result T
scan_first [] = err (sentinel db_not_found)
scan_first (row ∷ rows) = row

module _ {W T : Type 0} (db : Driver W T) where
  abbrev executed : Reply (Unit {0}) → Result (Unit {0})
  executed (reply r) = ok r
  executed (failure e) = err (exec_error e)

  abbrev queried : {B : Type 0} → (List (Result T) → Result B) → Reply (List (Result T)) → Result B
  queried scan (reply rows) = scan rows
  queried scan (failure e) = err (query_error e)

  -- NamedExecContext
  unfoldable pub named_exec : String → Params → M W (Unit {0})
  named_exec query params w = let (r, w') = db.exec query params w in (executed r, w')

  -- namedQuerySlice, NamedQuerySlice
  unfoldable pub named_query_slice : String → Params → M W (List T)
  named_query_slice query params w =
      let (r, w') = db.query query params w in (queried scan_all r, w')

  -- namedQueryStruct, NamedQueryStruct
  unfoldable pub named_query_struct : String → Params → M W T
  named_query_struct query params w =
      let (r, w') = db.query query params w in (queried scan_first r, w')
