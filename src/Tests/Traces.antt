-- ===== src/Tests/Traces.antt =====
-- Trace ids, samples, the texts of queries, and the headers of responses.
use spi_exata.Base.{
  ℕ, String, ◌≡◌, ◌≢◌, refl, ◌⊎◌, true, none, some, List, [], ◌∷◌, lookup, is_some,
}
use spi_exata.Base.Errors.{ok}
use spi_exata.Tracing.{Otel, default_trace_id, get_trace_id, inject_tracing, add_span, of_span}
use spi_exata.Tracing.Laws.{inject_tracing-get_trace_id, should_sample_of_query}
use spi_exata.Tracing.Sampling.{
  Parameters, record_only, should_sample, EndpointExcluder, new_endpoint_excluder, path_and_query,
}
use spi_exata.Sdk.Queries.{replace_first, fill}
use spi_exata.Sdk.Queries.Filling.{filled}
use spi_exata.Web.{no_writes}
use spi_exata.Web.Server.{Served, App, new_app, enable_cors, serve_http, origin_header}
use spi_exata.Web.Server.Cors.{serve_http-origin}

-- Each trace id is made new, and a span is the number of the spans before it.
abbrev otel : Otel ℕ
otel = record {
  span_of = λ ctx. 0;
  trace_id_of = λ s. default_trace_id;
  start = λ t ctx name w. ((of_span w ∷ ctx, w), w);
  set_attributes = λ s kvs w. w;
  new_string = λ w. ("9b2f", w);
}

inject_tracing-get_trace_id_example :
    (get_trace_id (inject_tracing otel [] (some 1) 0).0 ≢ default_trace_id)
    × ((get_trace_id (inject_tracing otel [] (some 1) 0).0 ≡ "9b2f")
        ⊎ (get_trace_id (inject_tracing otel [] (some 1) 0).0 ≡ default_trace_id))
    × ((name : String) (kvs : List (String × String)) (w2 : ℕ)
        → add_span otel (inject_tracing otel [] (some 1) 0).0 name kvs w2
          ≡ ((of_span w2 ∷ (inject_tracing otel [] (some 1) 0).0, w2), w2))
inject_tracing-get_trace_id_example = inject_tracing-get_trace_id otel [] 1 0 (λ e. cc)

abbrev probe : Parameters
probe = ("url.path", "/v1/liveness") ∷ ("url.query", "full=1") ∷ []

probe_parts : path_and_query "" "" probe ≡ ("/v1/liveness", "full=1")
unfolding path_and_query
probe_parts = refl

abbrev excluder : EndpointExcluder ℕ
excluder = new_endpoint_excluder ("/v1/liveness" ∷ []) 5

should_sample_of_query_example : should_sample (λ f ps. record_only) excluder probe ≡ record_only
should_sample_of_query_example =
    should_sample_of_query (λ f ps. record_only) excluder probe "/v1/liveness" "full=1" probe_parts
      (λ e. cc) (λ e. cc) refl

-- A value with a "?" in it is not what the log shows.
fill_of_question :
    (fill "a = ? AND b = ?" ("'x?'" ∷ "7" ∷ []) ≡ "a = 'x7' AND b = ?")
    × (filled "a = ? AND b = ?" ("'x?'" ∷ "7" ∷ []) ≡ "a = 'x?' AND b = 7")
unfolding fill filled replace_first
fill_of_question = (refl, refl)

abbrev site : App ℕ ℕ ℕ
site = enable_cors (new_app none []) ("https://a.example" ∷ [])

abbrev asked : ℕ → Served × ℕ
asked w = ((ok tt, no_writes), 1)

abbrev preflight : Served × ℕ
preflight =
    let ((headers, served), w) = serve_http site "OPTIONS" "https://a.example" asked 0 in
    (served, w)

abbrev refused : Served × ℕ
refused = ((ok tt, record no_writes { statuses = 200 ∷ [] }), 0)

serve_http-origin_example :
    (is_some (lookup origin_header (serve_http site "OPTIONS" "https://a.example" asked 0).0.0)
      ≡ true)
    × ((v : String)
        → lookup origin_header (serve_http site "OPTIONS" "https://a.example" asked 0).0.0 ≡ some v
        → (v ≡ "*") ⊎ (v ≡ "https://a.example"))
    × (preflight ≡ refused)
serve_http-origin_example = serve_http-origin site "OPTIONS" "https://a.example" asked 0
