-- ===== src/Web.antt =====
-- business/sdk/web: what handlers are, how middleware wraps them (middleware.go), and how an answer
-- becomes a response (response.go).
pub mod Wrapping
pub mod Decoding
pub mod Server
use spi_exata.Base.{
  ℕ, zero, suc, String, Bool, Option, none, some, List, [], ◌∷◌, ◌is◌, ◌==◌, length, if◌then◌else◌,
}
use spi_exata.Base.Errors.{Error, text, wrap, Result, ok, err, panicked}
use spi_exata.Errs.{AppError, http_status}

-- Encoder: nil, NoResponse, an *errs.Error, a value of another type that is an error, or a value
-- that only encodes itself, for which a text stands.
pub data Encoder : Type 0 where
  nil no_response : Encoder
  app_error : AppError → Encoder
  other_error : Error → Encoder
  document : String → Encoder

-- A handler answers or panics.
pub data Answer : Type 0 where
  answer : Encoder → Answer
  panic : String → Answer

-- HandlerFunc, over contexts `C` and requests `R`
abbrev pub HandlerFunc : Type 0 → Type 0 → Type 0 → Type 0
HandlerFunc W C R = C → R → W → Answer × W

-- MidFunc
abbrev pub MidFunc : Type 0 → Type 0 → Type 0 → Type 0
MidFunc W C R = HandlerFunc W C R → HandlerFunc W C R

-- `mw[i]`
abbrev pub get_elem? {ℓ} : {A : Type ℓ} → List A → ℕ → Option A
get_elem? [] i = none
get_elem? (x ∷ xs) zero = some x
get_elem? (x ∷ xs) (suc i) = get_elem? xs i

module _ {W C R : Type 0} where
  -- the body of the loop: an index out of range does not occur, and a nil middleware is skipped
  abbrev pub wrap_one : Option (Option (MidFunc W C R)) → HandlerFunc W C R → HandlerFunc W C R
  wrap_one (some (some mw_func)) handler = mw_func handler
  wrap_one _ handler = handler

  -- the loop `for i := len(mw) - 1; i >= 0; i--`, with i + 1 as its measure
  pub wrap_from : List (Option (MidFunc W C R)) → ℕ → HandlerFunc W C R → HandlerFunc W C R
  wrap_from mw zero handler = handler
  wrap_from mw (suc i) handler = wrap_from mw i (wrap_one (get_elem? mw i) handler)

  unfoldable pub wrap_middleware :
      List (Option (MidFunc W C R)) → HandlerFunc W C R → HandlerFunc W C R
  unfolding wrap_from
  wrap_middleware mw handler = wrap_from mw (length mw) handler

-- What was done to a ResponseWriter.
pub record Response : Type 0 where
  pub content_type : Option String
  -- the arguments of WriteHeader, in the order of its calls
  pub statuses : List ℕ
  pub body : Option String

abbrev pub no_writes : Response
no_writes = record { content_type = none; statuses = []; body = none }

-- the `switch v := resp.(type)` of Respond
abbrev pub status_code : Encoder → ℕ
status_code (app_error e) = http_status e
status_code (other_error e) = 500
status_code nil = 204
status_code _ = 200

-- What Encode gives, the data and its type, and what Write does, are parameters.
module _ (encode : Encoder → Result (String × String)) (write_error : Option Error) where
  abbrev written : String → ℕ → String → Result (Unit {0}) × Response
  written content_type status content = elim write_error [
    | none ↦ (
      ok tt,
      record { content_type = some content_type; statuses = status ∷ []; body = some content },
    )
    | some e ↦ (
      err (wrap "respond: write" e),
      record { content_type = some content_type; statuses = status ∷ []; body = none },
    )
  ]

  pub send : Encoder → ℕ → Result (Unit {0}) × Response
  send resp status =
      if status == 204
      then (ok tt, record no_writes { statuses = status ∷ [] })
      else elim (encode resp) [
        | ok (content, content_type) ↦ written content_type status content
        | err e ↦ (err (wrap "respond: encode" e), record no_writes { statuses = 500 ∷ [] })
        | panicked m ↦ (panicked m, no_writes)
      ]

  -- Respond, told whether the context was canceled
  unfoldable pub respond : Bool → Encoder → Result (Unit {0}) × Response
  unfolding send
  respond canceled no_response = (ok tt, no_writes)
  respond canceled resp =
      if canceled
      then (err (text "client disconnected, do not send response"), no_writes)
      else send resp (status_code resp)

  -- what HandlerFunc does with the answer of a handler
  abbrev pub replied : Bool → Answer → Result (Unit {0}) × Response
  replied canceled (answer resp) = respond canceled resp
  replied canceled (panic m) = (panicked m, no_writes)

-- The loop of ServeHTTP over the allowed origins: the value of Access-Control-Allow-Origin.
unfoldable pub allow_origin : String → List String → Option String
allow_origin req_origin [] = none
allow_origin req_origin (origin ∷ origins) =
    let rest = allow_origin req_origin origins in
    if origin is "*" then some origin else if origin is req_origin then some origin else rest
