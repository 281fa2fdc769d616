-- ===== src/Web/Wrapping.antt =====
-- The order of middleware, and the responses that are sent.
use spi_exata.Base.{
  ℕ, zero, suc, String, ◌≡◌, ◌≢◌, ◌↔◌, refl, ap, ◌∙◌, Bool, true, false, Option, none, some, List,
  [], ◌∷◌, length, arith, is_some,
}
use spi_exata.Base.Errors.{Error, Result, ok}
use spi_exata.Web.{
  Encoder, no_response, HandlerFunc, MidFunc, get_elem?, wrap_one, wrap_from, wrap_middleware,
  status_code, send, respond,
}

module _ {W C R : Type 0} where
  -- The first middleware of the list is the outermost, and nil ones are left out.
  abbrev pub applied : List (Option (MidFunc W C R)) → HandlerFunc W C R → HandlerFunc W C R
  applied [] handler = handler
  applied (none ∷ mw) handler = applied mw handler
  applied (some m ∷ mw) handler = m (applied mw handler)

  -- One more middleware in front: it is wrapped around last.
  wrap_from-cons :
      (m : Option (MidFunc W C R)) (mw : List (Option (MidFunc W C R))) (i : ℕ)
      (handler : HandlerFunc W C R)
      → wrap_from (m ∷ mw) (suc i) handler ≡ wrap_one (some m) (wrap_from mw i handler)
  unfolding wrap_from
  wrap_from-cons m mw zero handler = refl
  wrap_from-cons m mw (suc i) handler = wrap_from-cons m mw i (wrap_one (get_elem? mw i) handler)

  -- The backward loop of wrapMiddleware wraps the handler so that the first middleware that is not
  -- nil is the first to see a request, then the second, and so on.
  pub wrap_middleware_order :
      (mw : List (Option (MidFunc W C R))) (handler : HandlerFunc W C R)
      → wrap_middleware mw handler ≡ applied mw handler
  unfolding wrap_middleware
  wrap_middleware_order [] handler = refl
  wrap_middleware_order (none ∷ mw) handler =
      wrap_from-cons none mw (length mw) handler ∙ wrap_middleware_order mw handler
  wrap_middleware_order (some m ∷ mw) handler =
      wrap_from-cons (some m) mw (length mw) handler ∙ ap m (wrap_middleware_order mw handler)

module _ (encode : Encoder → Result (String × String)) (write_error : Option Error) where
  send_status :
      (resp : Encoder) (status : ℕ)
      → (send encode write_error resp status).0 ≡ ok tt
      → ((send encode write_error resp status).1.statuses ≡ status ∷ [])
        × ((is_some (send encode write_error resp status).1.body ≡ false) ↔ (status ≡ 204))
  unfolding send
  send_status resp status h = ground arith

  -- Where Respond succeeds with something else than NoResponse, the request was not canceled, the
  -- header was written once, with the status of the answer, and there is no body exactly if that
  -- status is 204.
  pub respond_status :
      (canceled : Bool) (resp : Encoder)
      → resp ≢ no_response
      → (respond encode write_error canceled resp).0 ≡ ok tt
      → (canceled ≡ false)
        × ((respond encode write_error canceled resp).1.statuses ≡ status_code resp ∷ [])
        × ((is_some (respond encode write_error canceled resp).1.body ≡ false)
            ↔ (status_code resp ≡ 204))
  unfolding respond
  respond_status canceled no_response other h = absurd (other refl)
  respond_status true resp other h = cc
  respond_status false resp other h =
      let (status, empty) = send_status resp (status_code resp) h in (refl, status, empty)
