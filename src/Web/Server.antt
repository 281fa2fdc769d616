-- ===== src/Web/Server.antt =====
-- business/sdk/web/web.go and business/sdk/web/context.go: the application that routes are registered
-- with, and the serving of requests. The contexts of Go, tracers, the propagation of traces into the
-- headers of a response and the mux that picks a route are parameters.
pub mod Cors
use spi_exata.Base.{ℕ, String, Bool, Option, none, some, List, [], ◌∷◌, ◌++◌, ◌is◌, if◌then◌else◌}
use spi_exata.Base.Strings.{◌<>◌}
use spi_exata.Base.Errors.{Error, Result, ok, panicked}
use spi_exata.Web.{
  Encoder, nil, Answer, answer, panic, HandlerFunc, MidFunc, wrap_middleware, Response, no_writes,
  replied, allow_origin,
}

-- The keys of the package, and the values under them: a tracer or nil, and a writer.
pub data CtxKey : Type 0 where
  tracer_key writer_key : CtxKey

pub data Item : Type 0 where
  of_tracer : Option ℕ → Item
  of_writer : ℕ → Item

-- The contexts of Go: context.WithValue and Value, for the keys of this package.
pub record Contexts (C : Type 0) : Type 0 where
  pub with_value : CtxKey → Item → C → C
  pub value : CtxKey → C → Option Item

-- `ctx.Value(tracerKey).(trace.Tracer)` that is not nil
abbrev pub as_tracer : Option Item → Option ℕ
as_tracer (some (of_tracer t)) = t
as_tracer _ = none

abbrev pub as_writer : Option Item → Option ℕ
as_writer (some (of_writer out)) = some out
as_writer _ = none

module _ {C : Type 0} (contexts : Contexts C) where
  abbrev pub set_tracer : C → Option ℕ → C
  set_tracer ctx tracer = contexts.with_value tracer_key (of_tracer tracer) ctx

  abbrev pub set_writer : C → ℕ → C
  set_writer ctx out = contexts.with_value writer_key (of_writer out) ctx

  -- GetWriter
  abbrev pub get_writer : C → Option ℕ
  get_writer ctx = as_writer (contexts.value writer_key ctx)

  -- addSpan; Start of a tracer with the name, SetAttributes and SpanFromContext are parameters
  unfoldable pub add_span :
      {W : Type 0}
      → (ℕ → C → String → W → (C × ℕ) × W)
      → (ℕ → List (String × String) → W → W)
      → (C → ℕ)
      → C
      → String
      → List (String × String)
      → W
      → (C × ℕ) × W
  add_span start set_attributes span_of ctx span_name key_values w =
      elim (as_tracer (contexts.value tracer_key ctx)) [
        | none ↦ ((ctx, span_of ctx), w)
        | some v ↦
            let ((ctx', span), w') = start v ctx span_name w in
            ((ctx', span), set_attributes span key_values w')
      ]

-- What serving a request comes to: the result of Respond or a panic, and what was written.
abbrev pub Served : Type 0
Served = Result (Unit {0}) × Response

-- a panic goes on, and any answer is dropped
abbrev dropped : Answer → Served
dropped (answer resp) = (ok tt, no_writes)
dropped (panic m) = (panicked m, no_writes)

-- A function of the mux: the writer, the context of the request, and the request
abbrev pub Registered : Type 0 → Type 0 → Type 0 → Type 0
Registered W C R = ℕ → C → R → W → Served × W

-- App; its mux is the list of what was registered
pub record App (W C R : Type 0) : Type 0 where
  pub tracer : Option ℕ
  pub mw : List (Option (MidFunc W C R))
  pub origins : Option (List String)
  pub routes : List (String × Registered W C R)

-- finalPath
abbrev pub final_path : String → String → String → String
final_path method group path =
    method <> (" " <> (if group is "" then path else "/" <> (group <> path)))

module _ {W C R : Type 0} where
  -- NewApp
  abbrev pub new_app : Option ℕ → List (Option (MidFunc W C R)) → App W C R
  new_app tracer mw = record { tracer = tracer; mw = mw; origins = none; routes = [] }

  -- EnableCORS
  abbrev pub enable_cors : App W C R → List String → App W C R
  enable_cors app origins = record app { origins = some origins }

  -- a.mux.HandleFunc
  abbrev pub handle : App W C R → String → Registered W C R → App W C R
  handle app path h = record app { routes = app.routes ++ ((path, h) ∷ []) }

  module _ (contexts : Contexts C) (propagate : C → W → W)
      (encode : Encoder → Result (String × String)) (write_error : Option Error)
      (canceled : Bool) where
    unfoldable pub handler_func_no_mid :
        App W C R → String → String → String → HandlerFunc W C R → App W C R
    handler_func_no_mid app method group path handler =
        handle app (final_path method group path) (λ out ctx r w.
          let (x, w') = handler (set_writer contexts ctx out) r w in
          (replied encode write_error canceled x, w'))

    -- the function that HandlerFunc registers
    unfoldable pub registered :
        App W C R → List (Option (MidFunc W C R)) → HandlerFunc W C R → Registered W C R
    registered app mw handler out ctx r w =
        let ctx' = set_writer contexts (set_tracer contexts ctx app.tracer) out in
        let (x, w') =
          wrap_middleware app.mw (wrap_middleware mw handler) ctx' r (propagate ctx' w) in
        (replied encode write_error canceled x, w')

    -- HandlerFunc
    unfoldable pub handler_func :
        App W C R
        → String
        → String
        → String
        → HandlerFunc W C R
        → List (Option (MidFunc W C R))
        → App W C R
    handler_func app method group path handler mw =
        handle app (final_path method group path) (registered app mw handler)

    -- the handler that RawHandlerFunc makes of a function over a writer, or nil
    abbrev pub raw : (Option ℕ → C → R → W → Result (Unit {0}) × W) → HandlerFunc W C R
    raw f ctx r w =
        let (x, w') = f (get_writer contexts ctx) ctx r w in
        (elim x [ panicked m ↦ panic m | _ ↦ answer nil ], w')

    -- RawHandlerFunc
    unfoldable pub raw_handler_func :
        App W C R
        → String
        → String
        → String
        → (Option ℕ → C → R → W → Result (Unit {0}) × W)
        → List (Option (MidFunc W C R))
        → App W C R
    raw_handler_func app method group path f mw =
        handle app (final_path method group path) (λ out ctx r w.
          let ctx' = set_writer contexts (set_tracer contexts ctx app.tracer) out in
          let (x, w') =
            wrap_middleware app.mw (wrap_middleware mw (raw f)) ctx' r (propagate ctx' w) in
          (dropped x, w'))

-- w.Header().Set
unfoldable pub set_header : String → String → List (String × String) → List (String × String)
set_header key v [] = (key, v) ∷ []
set_header key v ((k, x) ∷ headers) =
    let rest = set_header key v headers in if k is key then (k, v) ∷ headers else (k, x) ∷ rest

abbrev pub Headers : Type 0
Headers = List (String × String)

abbrev pub origin_header : String
origin_header = "Access-Control-Allow-Origin"

-- the loop over the origins: what it sets
abbrev pub with_origin : Option String → Headers → Headers
with_origin none headers = headers
with_origin (some origin) headers = set_header origin_header origin headers

abbrev pub cors_headers : Headers → Headers
cors_headers headers = set_header "Access-Control-Max-Age" "86400" (
    set_header "Access-Control-Allow-Headers"
      "Accept, Content-Type, Content-Length, Accept-Encoding, X-CSRF-Token, Authorization"
      (set_header "Access-Control-Allow-Methods" "POST, PATCH, GET, OPTIONS, PUT, DELETE" headers))

abbrev pub secured : Headers → Headers
secured headers =
    set_header "Strict-Transport-Security" "max-age=63072000; includeSubDomains; preload" headers

-- ServeHTTP, told the method and the header Origin of the request: the headers that are set before
-- `next`, the mux in the handler of otelhttp, which is not asked for a pre-flight
unfoldable pub serve_http :
    {W C R : Type 0} → App W C R → String → String → (W → Served × W) → W → (Headers × Served) × W
serve_http app method req_origin next w =
    let (x, w') = next w in
    elim app.origins [
      | none ↦ ((secured [], x), w')
      | some origins ↦
          let headers = cors_headers (with_origin (allow_origin req_origin origins) []) in
          if method is "OPTIONS"
          then ((headers, (ok tt, record no_writes { statuses = 200 ∷ [] })), w)
          else ((secured headers, x), w')
    ]
