-- ===== src/Errs/Codes.antt =====
-- app/sdk/errs/codes.go, and the methods of ErrCode in app/sdk/errs/errs.go. A Go map with ErrCode
-- keys is a list of pairs, searched by the code's value.
use spi_exata.Base.{ℕ, String, Option, List, [], ◌∷◌, ◌==◌, lookup, if◌then◌else◌}

-- The values of ErrCode: its field is private, and these are all that the package makes.
pub data ErrCode : Type 0 where
  none' no_content canceled unknown invalid_argument deadline_exceeded : ErrCode
  not_found already_exists permission_denied resource_exhausted failed_precondition : ErrCode
  aborted out_of_range unimplemented internal unavailable data_loss : ErrCode
  unauthenticated too_many_requests internal_only_log : ErrCode

abbrev pub value : ErrCode → ℕ
value none' = 0
value no_content = 1
value canceled = 2
value unknown = 3
value invalid_argument = 4
value deadline_exceeded = 5
value not_found = 6
value already_exists = 7
value permission_denied = 8
value resource_exhausted = 9
value failed_precondition = 10
value aborted = 11
value out_of_range = 12
value unimplemented = 13
value internal = 14
value unavailable = 15
value data_loss = 16
value unauthenticated = 17
value too_many_requests = 18
value internal_only_log = 19

code_numbers : List (String × ErrCode)
code_numbers =
    ("ok", none')
    ∷ ("no_content", no_content)
    ∷ ("canceled", canceled)
    ∷ ("unknown", unknown)
    ∷ ("invalid_argument", invalid_argument)
    ∷ ("deadline_exceeded", deadline_exceeded)
    ∷ ("not_found", not_found)
    ∷ ("already_exists", already_exists)
    ∷ ("permission_denied", permission_denied)
    ∷ ("resource_exhausted", resource_exhausted)
    ∷ ("failed_precondition", failed_precondition)
    ∷ ("aborted", aborted)
    ∷ ("out_of_range", out_of_range)
    ∷ ("unimplemented", unimplemented)
    ∷ ("internal", internal)
    ∷ ("unavailable", unavailable)
    ∷ ("data_loss", data_loss)
    ∷ ("unauthenticated", unauthenticated)
    ∷ ("too_many_requests", too_many_requests)
    ∷ ("internal_only_log", internal_only_log)
    ∷ []

code_names : List (ErrCode × String)
code_names =
    (none', "ok")
    ∷ (no_content, "ok_no_content")
    ∷ (canceled, "canceled")
    ∷ (unknown, "unknown")
    ∷ (invalid_argument, "invalid_argument")
    ∷ (deadline_exceeded, "deadline_exceeded")
    ∷ (not_found, "not_found")
    ∷ (already_exists, "already_exists")
    ∷ (permission_denied, "permission_denied")
    ∷ (resource_exhausted, "resource_exhausted")
    ∷ (failed_precondition, "failed_precondition")
    ∷ (aborted, "aborted")
    ∷ (out_of_range, "out_of_range")
    ∷ (unimplemented, "unimplemented")
    ∷ (internal, "internal")
    ∷ (unavailable, "unavailable")
    ∷ (data_loss, "data_loss")
    ∷ (unauthenticated, "unauthenticated")
    ∷ (too_many_requests, "too_many_requests")
    ∷ (internal_only_log, "internal_only_log")
    ∷ []

http_statuses : List (ErrCode × ℕ)
http_statuses =
    (none', 200)
    ∷ (no_content, 204)
    ∷ (canceled, 504)
    ∷ (unknown, 500)
    ∷ (invalid_argument, 400)
    ∷ (deadline_exceeded, 504)
    ∷ (not_found, 404)
    ∷ (already_exists, 409)
    ∷ (permission_denied, 403)
    ∷ (resource_exhausted, 429)
    ∷ (failed_precondition, 400)
    ∷ (aborted, 409)
    ∷ (out_of_range, 400)
    ∷ (unimplemented, 501)
    ∷ (internal, 500)
    ∷ (unavailable, 503)
    ∷ (data_loss, 500)
    ∷ (unauthenticated, 401)
    ∷ (too_many_requests, 429)
    ∷ (internal_only_log, 500)
    ∷ []

-- A map read gives the zero value for a missing key.
abbrev pub get_or {ℓ} : {A : Type ℓ} → A → ErrCode → List (ErrCode × A) → A
get_or zero_value c [] = zero_value
get_or zero_value c ((k, v) ∷ m) = if value k == value c then v else get_or zero_value c m

-- String, and MarshalText, its bytes
unfoldable pub to_string : ErrCode → String
unfolding code_names
to_string c = get_or "" c code_names

-- UnmarshalText: the code, or none for an error that leaves the receiver alone
unfoldable pub unmarshal_text : String → Option ErrCode
unfolding code_numbers
unmarshal_text name = lookup name code_numbers

unfoldable pub http_status_of : ErrCode → ℕ
unfolding http_statuses
http_status_of c = get_or 0 c http_statuses
