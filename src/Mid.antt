-- ===== src/Mid.antt =====
-- app/sdk/mid and app/sdk/metrics: the middleware. Handlers get a context and a request (Mid/Values).
mod Values
pub mod Laws
pub mod Transactions
pub mod Counting
pub mod Logging
pub mod Refusals
use spi_exata.Base.{
  ℕ, suc, ◌%◌, String, Bool, false, not, Option, some, List, [], ◌∷◌, ◌==◌, ◌is◌, if◌then◌else◌,
}
use spi_exata.Base.Errors.{Error, text, wrap, Result, ok, err, panicked, ◌>>=◌, wrapping}
use spi_exata.Base.Strings.{codes, split, folds_to}
use spi_exata.Base.State
use spi_exata.Base.State.{M, lift}
use spi_exata.Types.Enums.{Role}
use spi_exata.User.{Uuid}
use spi_exata.Auth
use spi_exata.Auth.{Claims, Auth}
use spi_exata.Errs.{AppError, new, errorf, message}
use spi_exata.Errs.Codes
use spi_exata.Errs.Codes.{
  ErrCode, unauthenticated, permission_denied, internal, internal_only_log, value,
}
pub use Values.*
use spi_exata.Web.{Encoder, app_error, other_error, Answer, answer, panic, HandlerFunc, MidFunc}

abbrev refused : ErrCode → Error → Answer
refused code e = answer (app_error (new code e))

-- the test on the parts of the header
abbrev bearer_and_token : List String → Bool
bearer_and_token (scheme ∷ token ∷ []) = folds_to (codes scheme) (codes "bearer")
bearer_and_token _ = false

check_header : String → Result (Unit {0})
check_header auth_str =
    if auth_str is ""
    then err (text "missing authorization header")
    else if not (bearer_and_token (split auth_str b' '))
    then err (text "expected authorization header format: Bearer <token>")
    else ok tt

module _ {W K P : Type 0} (a : Auth W K P) where
  pub tenant_of : Claims → Result Uuid
  tenant_of claims =
      if claims.tenant_id is ""
      then ok 0
      else wrapping "invalid tenant id" (a.parse_uuid claims.tenant_id)

  -- the ids of the claims, and the context that holds them
  unfoldable pub bind_claims : Context → Claims → Result Context
  unfolding tenant_of
  bind_claims ctx claims = do
    user_id ← wrapping "invalid user id" (a.parse_uuid claims.subject)
    dash_id ← wrapping "invalid dashboard id" (a.parse_uuid claims.dashboard_id)
    td_id ← tenant_of claims
    let ctx1 = set_tenant_id (set_user_id ctx user_id) td_id
    ok (set_claims (set_dashboard_id ctx1 dash_id) claims)

  -- the context that Authenticate hands on; each error is answered as Unauthenticated
  unfoldable pub authenticate_context : Context → String → M W Context
  unfolding check_header bind_claims
  authenticate_context ctx auth_str =
      State.◌>>=◌ (lift (check_header auth_str))
        (λ _. State.◌>>=◌ (Auth.authenticate a auth_str) (λ claims. lift (bind_claims ctx claims)))

  abbrev pub proceed : HandlerFunc W Context Request → Request → Result Context → W → Answer × W
  proceed next r (ok ctx) w = next ctx r w
  proceed next r (err e) w = (refused unauthenticated e, w)
  proceed next r (panicked m) w = (panic m, w)

  -- Authenticate
  unfoldable pub authenticate : MidFunc W Context Request
  unfolding authenticate_context
  authenticate next ctx r w =
      let (res, w') = authenticate_context ctx (r.header "authorization") w in proceed next r res w'

  abbrev pub if_allowed :
      HandlerFunc W Context Request → Context → Request → Result (Unit {0}) → W → Answer × W
  if_allowed next ctx r (ok _) w = next ctx r w
  if_allowed next ctx r (err e) w = (refused permission_denied (wrap "authorization failed" e), w)
  if_allowed next ctx r (panicked m) w = (panic m, w)

  -- Authorize
  unfoldable pub authorize : List Role → MidFunc W Context Request
  authorize allowed_roles next ctx r w =
      let claims = get_claims ctx in
      if claims.subject is ""
      then (
        refused unauthenticated
            (text "claims missing from context: authorize called without authenticate?"),
        w,
      )
      else if_allowed next ctx r (Auth.authorize a claims allowed_roles) w

-- Errorf(Internal, "Internal Server Error")
abbrev pub internal_error : AppError
internal_error = record { code = internal; message = message "Internal Server Error" }

-- what Errors makes of an answer
unfoldable pub handle_error : Encoder → Encoder
handle_error (app_error e) =
    app_error (if value e.code == value internal_only_log then internal_error else e)
handle_error (other_error e) = app_error internal_error
handle_error resp = resp

-- metrics, the values of the counters
pub record Metrics : Type 0 where
  pub goroutines : ℕ
  pub requests : ℕ
  pub errors : ℕ
  pub panics : ℕ

-- Where the world has the counters, and how many goroutines the runtime has.
pub record Counted (W : Type 0) : Type 0 where
  pub num_goroutine : W → ℕ
  pub counters : W → Metrics
  pub put : Metrics → W → W

abbrev handled : Answer → Answer
handled (answer resp) = answer (handle_error resp)
handled (panic m) = panic m

module _ {W : Type 0} where
  -- Errors
  unfoldable pub errors : MidFunc W Context Request
  unfolding handle_error
  errors next ctx r w = let (resp, w') = next ctx r w in (handled resp, w')

  module _ (counted : Counted W) where
    -- metrics.Set
    abbrev pub set : Context → Context
    set ctx = (metrics_key, of_metrics) ∷ ctx

    abbrev change : (Metrics → Metrics) → W → W
    change f w = counted.put (f (counted.counters w)) w

    -- a counter changes only where the context has the metrics
    abbrev when : Option Item → (Metrics → Metrics) → W → W
    when (some of_metrics) f w = change f w
    when _ f w = w

    pub add_goroutines : Context → W → W
    add_goroutines ctx w =
        when (find metrics_key ctx) (λ m. record m { goroutines = counted.num_goroutine w }) w

    pub add_requests : Context → W → W
    add_requests ctx w = when (find metrics_key ctx) (λ m. record m { requests = suc m.requests }) w

    pub add_errors : Context → W → W
    add_errors ctx w = when (find metrics_key ctx) (λ m. record m { errors = suc m.errors }) w

    pub add_panics : Context → W → W
    add_panics ctx w = when (find metrics_key ctx) (λ m. record m { panics = suc m.panics }) w

    -- the updates of Metrics after the handler has answered; a panic goes through it
    unfoldable pub count : Context → Answer × W → Answer × W
    unfolding add_goroutines add_requests add_errors
    count ctx (panic m, w) = (panic m, w)
    count ctx (answer resp, w) =
        let w1 = add_requests ctx w in
        let n = (counted.counters w1).requests in
        let w2 = if n % 1000 == 0 then add_goroutines ctx w1 else w1 in
        (answer resp, if is_failure resp then add_errors ctx w2 else w2)

    -- Metrics
    unfoldable pub metrics : MidFunc W Context Request
    unfolding count
    metrics next ctx r w = count (set ctx) (next (set ctx) r w)

    -- Panics
    abbrev recover : Context → Answer × W → Answer × W
    recover ctx (answer resp, w) = (answer resp, w)
    recover ctx (panic m, w) =
        (answer (app_error (errorf internal_only_log "PANIC" (text m))), add_panics ctx w)

    unfoldable pub panics : MidFunc W Context Request
    unfolding add_panics
    panics next ctx r w = recover ctx (next ctx r w)
