-- ===== src/Sdk/Tran.antt =====
-- business/sdk/sqldb/tran.go: beginning a transaction, and the statements' context of one. The library
-- sqlx, which has both, is a parameter.
use spi_exata.Base.Errors.{text, Result, ok, err}
use spi_exata.Base.State.{M, ◌>>=◌, return}

-- CommitRollbacker: a *sqlx.Tx, which statements run on, here by its drivers `D`, or a value of
-- another type
pub data CommitRollbacker (D : Type 0) : Type 0 where
  sqlx_tx : D → CommitRollbacker D
  other_type : CommitRollbacker D

-- DBBeginner, by the Beginx of its database
pub record DbBeginner (W D : Type 0) : Type 0 where
  pub beginx : M W D

-- NewBeginner
abbrev pub new_beginner : {W D : Type 0} → M W D → DbBeginner W D
new_beginner beginx = record { beginx = beginx }

-- Begin
unfoldable pub begin : {W D : Type 0} → DbBeginner W D → M W (CommitRollbacker D)
begin db = do tx ← db.beginx; return (sqlx_tx tx)

-- GetExtContext
abbrev pub get_ext_context : {D : Type 0} → CommitRollbacker D → Result D
get_ext_context (sqlx_tx db) = ok db
get_ext_context other_type = err (text "Transactor not of a type *sql.Tx")

-- The method NewWithTx of a store, which makes a store `S` inside a transaction.
abbrev pub NewWithTx : Type 0 → Type 0 → Type 0
NewWithTx D S = CommitRollbacker D → Result S
