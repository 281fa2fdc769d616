-- ===== src/Tracing.antt =====
-- foundation/otel: the tracer and the trace id in a context, the start of tracing, and which requests
-- are sampled. Spans, samplers, exporters and providers of OpenTelemetry are parameters, and so is the
-- making of UUIDs.
pub mod Sampling
pub mod Laws
use spi_exata.Base.{ℕ, String, Option, none, some, List, [], ◌∷◌, ◌is◌, if◌then◌else◌}

-- A tracer that is not nil.
abbrev pub Tracer : Type 0
Tracer = ℕ

abbrev pub Span : Type 0
Span = ℕ

-- The keys of the package, and whatever the library keeps in a context: the current span.
pub data Item : Type 0 where
  -- of tracerKey, where the tracer may be nil, and of traceIDKey
  of_tracer : Option Tracer → Item
  of_trace_id : String → Item
  of_span : Span → Item

abbrev pub Context : Type 0
Context = List Item

-- ctx.Value(tracerKey).(trace.Tracer)
abbrev pub find_tracer : Context → Option Tracer
find_tracer [] = none
find_tracer (of_tracer t ∷ ctx) = t
find_tracer (_ ∷ ctx) = find_tracer ctx

-- ctx.Value(traceIDKey).(string)
abbrev pub find_trace_id : Context → Option String
find_trace_id [] = none
find_trace_id (of_trace_id id ∷ ctx) = some id
find_trace_id (_ ∷ ctx) = find_trace_id ctx

-- setTracer, setTraceID
abbrev pub set_tracer : Context → Option Tracer → Context
set_tracer ctx t = of_tracer t ∷ ctx

abbrev pub set_trace_id : Context → String → Context
set_trace_id ctx id = of_trace_id id ∷ ctx

abbrev pub default_trace_id : String
default_trace_id = "00000000000000000000000000000000"

-- GetTraceID
unfoldable pub get_trace_id : Context → String
get_trace_id ctx = elim (find_trace_id ctx) [ none ↦ default_trace_id | some id ↦ id ]

-- What is taken from the libraries.
pub record Otel (W : Type 0) : Type 0 where
  -- trace.SpanFromContext, and its trace id as a text
  pub span_of : Context → Span
  pub trace_id_of : Span → String
  -- tracer.Start, with the name, and span.SetAttributes
  pub start : Tracer → Context → String → W → (Context × Span) × W
  pub set_attributes : Span → List (String × String) → W → W
  -- uuid.NewString
  pub new_string : W → String × W

module _ {W : Type 0} (o : Otel W) where
  -- InjectTracing
  unfoldable pub inject_tracing : Context → Option Tracer → W → Context × W
  inject_tracing ctx tracer w =
      let ctx1 = set_tracer ctx tracer in
      let trace_id = o.trace_id_of (o.span_of ctx1) in
      let (fresh, w') = o.new_string w in
      if trace_id is default_trace_id
      then (set_trace_id ctx1 fresh, w')
      else (set_trace_id ctx1 trace_id, w)

  -- AddSpan
  unfoldable pub add_span : Context → String → List (String × String) → W → (Context × Span) × W
  add_span ctx span_name key_values w = elim (find_tracer ctx) [
    | none ↦ ((ctx, o.span_of ctx), w)
    | some tracer ↦
        let ((ctx', span), w') = o.start tracer ctx span_name w in
        ((ctx', span), o.set_attributes span key_values w')
  ]
