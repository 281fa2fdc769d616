-- ===== src/App/Serving/Laws.antt =====
-- Every request is answered, and no panic is shown.
use spi_exata.Base.{String, ◌≡◌, refl, sym, ap, ◌∙◌, Bool, Option, List, arith}
use spi_exata.Base.Errors.{Error, text, Result}
use spi_exata.Errs.{errorf}
use spi_exata.Errs.Codes.{internal_only_log}
use spi_exata.Web.{
  Encoder, app_error, answer, panic, HandlerFunc, MidFunc, wrap_middleware, respond, replied,
}
use spi_exata.Web.Wrapping.{wrap_middleware_order}
use spi_exata.Mid.{
  Context, Request, Counted, errors, metrics, panics, handle_error, internal_error, count, set,
}
use spi_exata.Mid.Logging.{Log, logger, otel}
use spi_exata.Mid.Laws.{IsPublic, metrics-answer, handle_error-IsPublic}
use spi_exata.App.Serving.{web_api, handler_func, serve}

handled-panic :
    (resp : Encoder) (m : String)
    → answer resp ≡ answer (app_error (errorf internal_only_log "PANIC" (text m)))
    → handle_error resp ≡ app_error internal_error
unfolding handle_error
handled-panic resp m h =
    let same : resp ≡ app_error (errorf internal_only_log "PANIC" (text m)) = ground arith in
    rw same refl

module _ {W : Type 0} (inject : Context → Context) (log : Log W) (counted : Counted W) where
  metrics_of_panic :
      (next : HandlerFunc W Context Request) (ctx : Context) (r : Request) (w : W) (m : String)
      → (next (set counted ctx) r w).0 ≡ panic m
      → (metrics counted (panics counted next) ctx r w).0
        ≡ answer (app_error (errorf internal_only_log "PANIC" (text m)))
  unfolding metrics panics count
  metrics_of_panic next ctx r w m h = rw h refl

  -- The answer of a route behind the middleware of WebAPI.
  pub handler_func-answer :
      (mw : List (Option (MidFunc W Context Request))) (handler : HandlerFunc W Context Request)
      (ctx : Context) (r : Request) (w : W) (resp : Encoder)
      → (metrics counted
          (panics counted (wrap_middleware mw handler))
          (inject ctx)
          r
          (log.started r w)).0
        ≡ answer resp
      → (handler_func inject log counted mw handler ctx r w).0 ≡ answer (handle_error resp)
  unfolding handler_func logger otel errors
  handler_func-answer mw handler ctx r w resp h =
      rw (wrap_middleware_order (web_api inject log counted) (wrap_middleware mw handler), h) refl

  module _ (encode : Encoder → Result (String × String)) (write_error : Option Error)
      (canceled : Bool) where
    -- Each request for which the mux has found a route is answered by Respond, with something that is
    -- no error for the log only and no error of another type than *errs.Error; and where the handler
    -- of the route or its own middleware panics, with the error "Internal Server Error".
    pub serve-IsPublic :
        (mw : List (Option (MidFunc W Context Request))) (handler : HandlerFunc W Context Request)
        (ctx : Context) (r : Request) (w : W)
        → (resp : Encoder) × ((serve inject log counted encode write_error canceled mw handler ctx r
              w).0
            ≡ respond encode write_error canceled resp)
          × IsPublic (answer resp)
          × ((m : String)
              → (wrap_middleware mw handler (set counted (inject ctx)) r (log.started r w)).0
                ≡ panic m
              → resp ≡ app_error internal_error)
    unfolding serve
    serve-IsPublic mw handler ctx r w =
        let next = wrap_middleware mw handler in
        let (resp, e) = metrics-answer counted next (inject ctx) r (log.started r w) in
        let x = handler_func-answer mw handler ctx r w resp e in
        (
          handle_error resp,
          ap (replied encode write_error canceled) x,
          handle_error-IsPublic resp,
          λ m h.
              handled-panic resp m
                (sym e ∙ metrics_of_panic next (inject ctx) r (log.started r w) m h),
        )
