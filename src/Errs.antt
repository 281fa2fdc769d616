-- ===== src/Errs.antt =====
-- app/sdk/errs: the error codes with their names and HTTP statuses, and the errors that handlers
-- return.
pub mod Codes
pub mod Laws
pub mod Checking
use spi_exata.Base.{ℕ, String, List, ◌++◌, [], ◌∷◌}
use spi_exata.Base.Errors.{Error}
use spi_exata.Errs.Codes.{ErrCode, invalid_argument, http_status_of}

-- FieldError: the field, and the error whose text it carries
pub record FieldError : Type 0 where
  pub field : String
  pub error : Error

abbrev pub FieldErrors : Type 0
FieldErrors = List FieldError

-- What the text of an error was made from: one error, a formatted message, or field errors.
pub data Message : Type 0 where
  of_error : Error → Message
  formatted : String → Error → Message
  message : String → Message
  of_fields : FieldErrors → Message

-- Error, without the names of the function and the file for the log
pub record AppError : Type 0 where
  pub code : ErrCode
  pub message : Message

abbrev pub new : ErrCode → Error → AppError
new code e = record { code = code; message = of_error e }

abbrev pub errorf : ErrCode → String → Error → AppError
errorf code prefix e = record { code = code; message = formatted prefix e }

abbrev pub add : FieldErrors → String → Error → FieldErrors
add fe field e = fe ++ record { field = field; error = e } ∷ []

abbrev pub to_error : FieldErrors → AppError
to_error fe = record { code = invalid_argument; message = of_fields fe }

abbrev pub new_field_errors : String → Error → AppError
new_field_errors field e = to_error (record { field = field; error = e } ∷ [])

-- HTTPStatus
abbrev pub http_status : AppError → ℕ
http_status e = http_status_of e.code
