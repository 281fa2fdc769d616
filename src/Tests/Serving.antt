-- ===== src/Tests/Serving.antt =====
-- A handler that panics, behind the middleware of the service.
use spi_exata.Base.{String, ◌≡◌, false, none, []}
use spi_exata.Base.Errors.{Result, ok}
use spi_exata.Web.{Encoder, app_error, answer, panic, wrap_middleware, respond}
use spi_exata.Mid.{Metrics, set, internal_error}
use spi_exata.Mid.Logging.{Log}
use spi_exata.Mid.Laws.{IsPublic}
use spi_exata.App.Serving.{serve}
use spi_exata.App.Serving.Laws.{serve-IsPublic}
use spi_exata.Tests.Requests.{request, counted, failing, no_counts}

abbrev silent : Log Metrics
silent = record { started = λ r w. w; completed = λ r code w. w }

abbrev encode : Encoder → Result (String × String)
encode resp = ok ("{}", "application/json")

serve-IsPublic_example :
    (resp : Encoder) × ((serve
        (λ ctx. ctx)
        silent
        counted
        encode
        none
        false
        []
        failing
        []
        request
        no_counts).0
      ≡ respond encode none false resp)
    × IsPublic (answer resp)
    × ((m : String)
        → (failing (set counted []) request no_counts).0 ≡ panic m
        → resp ≡ app_error internal_error)
unfolding wrap_middleware
serve-IsPublic_example =
    serve-IsPublic (λ ctx. ctx) silent counted encode none false [] failing [] request no_counts
