-- ===== src/Errs/Checking.antt =====
-- app/sdk/errs/validate.go, and what errs.go does with errors as texts and documents. The validator,
-- which knows the tags of a model, and json.Marshal are parameters.
use spi_exata.Base.{
  String, Bool, ◌&&◌, ◌⊎◌, inl, inr, Option, none, some, List, [], ◌∷◌, ◌++◌, ◌==◌, ◌is◌,
}
use spi_exata.Base.Errors.{Error, text, Result, ok, err, panicked}
use spi_exata.Errs.{AppError, Message, FieldErrors}
use spi_exata.Errs.Codes.{ErrCode, value, to_string}

-- What validate.Struct gives: nothing, the fields with their translated errors, or another error.
pub data Validation : Type 0 where
  passed : Validation
  failed : List (String × String) → Validation
  broken : Error → Validation

-- the loop of Check, after the fields that it has so far
unfoldable pub fields_from : FieldErrors → List (String × String) → FieldErrors
fields_from fields [] = fields
fields_from fields ((field, translated) ∷ verrors) =
    fields_from (fields ++ (record { field = field; error = text translated } ∷ [])) verrors

-- Check
unfoldable pub check : Validation → Option (FieldErrors ⊎ Error)
check passed = none
check (failed verrors) = some (inl (fields_from [] verrors))
check (broken e) = some (inr e)

-- MarshalText
abbrev pub marshal_text : ErrCode → Result String
marshal_text ec = ok (to_string ec)

-- ErrCode.Equal
abbrev pub same_code : ErrCode → ErrCode → Bool
same_code ec ec2 = value ec == value ec2

module _ (show : Message → String) where
  -- Error
  abbrev pub error_text : AppError → String
  error_text e = show e.message

  -- Error.Equal, on the texts of the messages
  abbrev pub same_error : AppError → AppError → Bool
  same_error e e2 = same_code e.code e2.code && show e.message is show e2.message

-- Encode
abbrev pub encode : (AppError → Result String) → AppError → Result (String × String)
encode marshal e = elim (marshal e) [
  | ok content ↦ ok (content, "application/json")
  | err failure ↦ err failure
  | panicked m ↦ panicked m
]

-- Error of FieldErrors
abbrev pub fields_text : (FieldErrors → Result String) → (Error → String) → FieldErrors → String
fields_text marshal show fe = elim (marshal fe) [ ok d ↦ d | err e ↦ show e | panicked m ↦ m ]
