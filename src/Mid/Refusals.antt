-- ===== src/Mid/Refusals.antt =====
-- What Authenticate answers to a request that it refuses, and what the middleware before it lets
-- through.
use spi_exata.Base.{String, ◌≡◌, refl, inl, inr, ◌⊎◌, Bool-cases, ◌is◌, some, List, ◌∷◌, Option}
use spi_exata.Base.Errors.{Error, err, ok}
use spi_exata.Base.Strings.{split}
use spi_exata.Errs.{new}
use spi_exata.Errs.Codes.{unauthenticated}
use spi_exata.Auth
use spi_exata.Auth.{Auth}
use spi_exata.Web.{Encoder, app_error, answer, HandlerFunc, MidFunc, wrap_middleware}
use spi_exata.Web.Wrapping.{wrap_middleware_order}
use spi_exata.Mid.{
  Context, Request, check_header, bearer_and_token, authenticate_context, authenticate, Counted,
  metrics, panics, set, count,
}

-- The check of the header does not panic.
check_header_cases :
    (header : String)
    → (check_header header ≡ ok tt) ⊎ ((e : Error) × (check_header header ≡ err e))
unfolding check_header
check_header_cases header = elim (Bool-cases (header is "")) [
  | inl empty ↦ rw empty (inr (_, refl))
  | inr other ↦ rw other (elim (Bool-cases (bearer_and_token (split header b' '))) [
    | inl two ↦ rw two (inl refl)
    | inr not_two ↦ rw not_two (inr (_, refl))
  ])
]

module _ {W K P : Type 0} (a : Auth W K P) where
  -- A header that auth.Authenticate refuses gives no context.
  refused-context :
      (ctx : Context) (header : String) (w : W) (e : Error)
      → (Auth.authenticate a header w).0 ≡ err e
      → (e' : Error) × ((authenticate_context a ctx header w).0 ≡ err e')
  unfolding authenticate_context
  refused-context ctx header w e h = elim (check_header_cases header) [
    | inl c ↦ rw c (e, rw h refl)
    | inr (e', c) ↦ rw c (e', refl)
  ]

  -- Whatever is behind it, Authenticate answers a request that it refuses as Unauthenticated.
  pub authenticate-refused :
      (mw : List (Option (MidFunc W Context Request))) (next : HandlerFunc W Context Request)
      (ctx : Context) (r : Request) (w : W) (e : Error)
      → (Auth.authenticate a (r.header "authorization") w).0 ≡ err e
      → (e' : Error) × ((wrap_middleware (some (authenticate a) ∷ mw) next ctx r w).0
          ≡ answer (app_error (new unauthenticated e')))
  unfolding authenticate
  authenticate-refused mw next ctx r w e h =
      let (e', p) = refused-context ctx (r.header "authorization") w e h in
      (e', rw (wrap_middleware_order (some (authenticate a) ∷ mw) next, p) refl)

module _ {W : Type 0} (counted : Counted W) where
  -- Metrics over Panics answers what the handler does.
  pub metrics-of_answer :
      (next : HandlerFunc W Context Request) (ctx : Context) (r : Request) (w : W) (resp : Encoder)
      → (next (set counted ctx) r w).0 ≡ answer resp
      → (metrics counted (panics counted next) ctx r w).0 ≡ answer resp
  unfolding metrics panics count
  metrics-of_answer next ctx r w resp h = rw h refl
