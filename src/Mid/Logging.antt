-- ===== src/Mid/Logging.antt =====
-- app/sdk/mid/logging.go and app/sdk/mid/otel.go. What a log keeps of a request, and putting a tracer
-- into the context, are parameters.
use spi_exata.Errs.Codes.{ErrCode, none', internal}
use spi_exata.Web.{Encoder, app_error, other_error, Answer, answer, panic, MidFunc}
use spi_exata.Mid.{Context, Request}

-- log.Info for "request started" and "request completed"
pub record Log (W : Type 0) : Type 0 where
  pub started : Request → W → W
  pub completed : Request → ErrCode → W → W

-- the statusCode that is logged
unfoldable pub logged_code : Encoder → ErrCode
logged_code (app_error e) = e.code
logged_code (other_error e) = internal
logged_code _ = none'

module _ {W : Type 0} where
  module _ (log : Log W) where
    -- a panic goes past the second line
    abbrev pub log_completed : Request → Answer × W → Answer × W
    log_completed r (answer resp, w) = (answer resp, log.completed r (logged_code resp) w)
    log_completed r (panic m, w) = (panic m, w)

    -- Logger
    unfoldable pub logger : MidFunc W Context Request
    logger next ctx r w = log_completed r (next ctx r (log.started r w))

  -- Otel
  unfoldable pub otel : (Context → Context) → MidFunc W Context Request
  otel inject next ctx r w = next (inject ctx) r w
