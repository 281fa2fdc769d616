-- ===== src/Tracing/Sampling.antt =====
-- foundation/otel/sampler.go and InitTracing of foundation/otel/otel.go: which requests are sampled, and
-- the provider of tracers.
use spi_exata.Base.{String, List, [], ◌∷◌, ◌is◌, any, if◌then◌else◌}
use spi_exata.Base.Strings.{◌<>◌}
use spi_exata.Base.State.{M, ◌>>=◌, return, step, wrapping}
use spi_exata.Logger.{Arg}

-- The attributes of trace.SamplingParameters, with texts as values.
abbrev pub Parameters : Type 0
Parameters = List (String × String)

-- trace.SamplingResult, by its decision
pub data Decision : Type 0 where
  drop record_only record_and_sample : Decision

-- endpointExcluder, over the floats `F`; the set of endpoints is a list
pub record EndpointExcluder (F : Type 0) : Type 0 where
  pub endpoints : List String
  pub probability : F

-- newEndpointExcluder
abbrev pub new_endpoint_excluder : {F : Type 0} → List String → F → EndpointExcluder F
new_endpoint_excluder endpoints probability = record {
  endpoints = endpoints;
  probability = probability;
}

-- the loop of endpoint, with `path` and `query` as they are so far
unfoldable pub path_and_query : String → String → Parameters → String × String
path_and_query path query [] = (path, query)
path_and_query path query ((key, value) ∷ attributes) =
    let of_path = path_and_query value query attributes in
    let of_query = path_and_query path value attributes in
    let of_other = path_and_query path query attributes in
    if key is "url.path" then of_path else if key is "url.query" then of_query else of_other

-- the `switch` of endpoint
abbrev pub joined : String × String → String
joined (path, query) =
    if path is "" then "" else if query is "" then path else path <> ("?" <> query)

-- endpoint
unfoldable pub endpoint : Parameters → String
endpoint parameters = joined (path_and_query "" "" parameters)

-- ShouldSample; the sampler of trace.TraceIDRatioBased is a parameter
unfoldable pub should_sample :
    {F : Type 0} → (F → Parameters → Decision) → EndpointExcluder F → Parameters → Decision
should_sample ratio_based ee parameters =
    let ep = endpoint parameters in
    let rest = ratio_based ee.probability parameters in
    if ep is "" then rest else if any (λ e. e is ep) ee.endpoints then drop else rest

-- Config
pub record Config (F : Type 0) : Type 0 where
  pub service_name : String
  pub host : String
  pub excluded_routes : List String
  pub probability : F

-- What is taken from the libraries: the exporter `E` for a host, and the providers `T`, one that does
-- nothing and those that sample, export and name the service, with the propagator set.
pub record Sdk (W F E T : Type 0) : Type 0 where
  pub new_exporter : String → M W E
  pub noop : T
  pub ratio_based : F → Parameters → Decision
  pub parent_based : (Parameters → Decision) → Parameters → Decision
  pub new_provider : (Parameters → Decision) → E → String → W → T × W
  pub shutdown : T → W → W
  pub set_provider : T → W → W
  pub set_propagator : W → W

abbrev done : {W : Type 0} → (W → W) → M W (Unit {0})
done f = step (λ w. (tt, f w))

module _ {W F E T : Type 0} (sdk : Sdk W F E T) (info : String → List Arg → W → W) where
  -- the `switch cfg.Host`: the provider, and the function that takes it down
  unfoldable pub provider_for : Config F → E → M W (T × (W → W))
  provider_for cfg exporter =
      if cfg.host is ""
      then (do
        _ ← done (info "OTEL" (Arg.string "tracer" ∷ Arg.string "NOOP" ∷ []))
        return (sdk.noop, λ w. w))
      else (do
        _ ← done (info "OTEL" (Arg.string "tracer" ∷ Arg.string cfg.host ∷ []))
        tp ← step (
            sdk.new_provider
              (sdk.parent_based (
                should_sample sdk.ratio_based
                  (new_endpoint_excluder cfg.excluded_routes cfg.probability)))
              exporter cfg.service_name)
        return (tp, sdk.shutdown tp))

  -- InitTracing
  unfoldable pub init_tracing : Config F → M W (T × (W → W))
  init_tracing cfg = do
    exporter ← wrapping "creating new exporter" (sdk.new_exporter cfg.host)
    (tp, teardown) ← provider_for cfg exporter
    _ ← done (sdk.set_provider tp)
    _ ← done sdk.set_propagator
    return (tp, teardown)
