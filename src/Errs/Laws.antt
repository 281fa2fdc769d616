-- ===== src/Errs/Laws.antt =====
-- What the tables of app/sdk/errs/codes.go give: names that can be read back, and statuses that tell
-- errors from successes.
use spi_exata.Base.{◌≡◌, ◌≢◌, ◌↔◌, refl, arith, some, ◌≤◌}
use spi_exata.Errs.Codes.{ErrCode, none', no_content, to_string, unmarshal_text, http_status_of}

-- An error code that is marshalled to text is unmarshalled to itself exactly when it is not
-- NoContent, whose name differs between the tables codeNames and codeNumbers.
pub unmarshal_text-to_string_iff :
    (c : ErrCode) → (unmarshal_text (to_string c) ≡ some c) ↔ (c ≢ no_content)
unfolding unmarshal_text to_string
unmarshal_text-to_string_iff none' = ((λ _ e. cc), λ _. refl)
unmarshal_text-to_string_iff no_content = ((λ h _. cc), λ h. absurd (h refl))
unmarshal_text-to_string_iff c = ((λ _ e. cc), λ _. refl)

-- The status of an error code lies between 400 and 504 exactly when the code is neither None nor
-- NoContent.
pub http_status_of-is_error_iff :
    (c : ErrCode)
    → ((400 ≤ http_status_of c) × (http_status_of c ≤ 504)) ↔ ((c ≢ none') × (c ≢ no_content))
unfolding http_status_of
http_status_of-is_error_iff none' = ((λ h. absurd (omega arith)), λ h. absurd (h.0 refl))
http_status_of-is_error_iff no_content = ((λ h. absurd (omega arith)), λ h. absurd (h.1 refl))
http_status_of-is_error_iff c = ((λ _. ((λ e. cc), λ e. cc)), λ _. (omega arith, omega arith))
