-- ===== src/App/Serving.antt =====
-- app/sdk/mux/mux.go and App.HandlerFunc of business/sdk/web/web.go: what is done with a request that
-- the mux has found a route for.
pub mod Laws
use spi_exata.Base.{String, Bool, Option, some, List, [], ◌∷◌}
use spi_exata.Base.Errors.{Error, Result}
use spi_exata.Web.{Encoder, HandlerFunc, MidFunc, wrap_middleware, Response, replied}
use spi_exata.Mid.{Context, Request, Counted, errors, metrics, panics}
use spi_exata.Mid.Logging.{Log, logger, otel}

module _ {W : Type 0} (inject : Context → Context) (log : Log W) (counted : Counted W) where
  -- the middleware of WebAPI
  abbrev pub web_api : List (Option (MidFunc W Context Request))
  web_api =
      some (otel inject)
      ∷ some (logger log)
      ∷ some errors
      ∷ some (metrics counted)
      ∷ some (panics counted)
      ∷ []

  -- the handler that HandlerFunc makes of a route
  unfoldable pub handler_func :
      List (Option (MidFunc W Context Request))
      → HandlerFunc W Context Request
      → HandlerFunc W Context Request
  handler_func mw handler = wrap_middleware web_api (wrap_middleware mw handler)

  module _ (encode : Encoder → Result (String × String)) (write_error : Option Error)
      (canceled : Bool) where
    -- the function that HandlerFunc registers, from a context with the writer on
    pub serve :
        List (Option (MidFunc W Context Request))
        → HandlerFunc W Context Request
        → Context
        → Request
        → W
        → (Result (Unit {0}) × Response) × W
    unfolding handler_func
    serve mw handler ctx r w =
        let (x, w') = handler_func mw handler ctx r w in (replied encode write_error canceled x, w')
