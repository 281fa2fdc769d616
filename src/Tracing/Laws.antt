-- ===== src/Tracing/Laws.antt =====
-- The trace id of a request, and which requests are sampled.
use Prim.Native.String.{String}
use Prim.Native.Char.{code}
use spi_exata.Base.{
  ◌≡◌, ◌≢◌, refl, ap, ◌⊎◌, inl, inr, Bool, true, false, ◌||◌, some, List, [], ◌∷◌, ◌==◌, ◌is◌,
  arith, Bool-cases, eq_iff, all, any, not,
}
use spi_exata.Base.Strings.{◌<>◌}
use text.Mathlib.TextLemmas.{nil-append, cons-append}
use spi_exata.Tracing.{
  set_tracer, Tracer, Context, Otel, default_trace_id, get_trace_id, inject_tracing, add_span,
}
use spi_exata.Tracing.Sampling.{
  Parameters, Decision, EndpointExcluder, path_and_query, endpoint, should_sample,
}

-- After InjectTracing the trace id of the context is the one of its span, or a new UUID where that
-- one is all zeros, and so never all zeros, if the text of a UUID is not; and AddSpan starts its spans
-- with the tracer that was given.
pub inject_tracing-get_trace_id :
    {W : Type 0} (o : Otel W) (ctx : Context) (tracer : Tracer) (w : W)
    → (o.new_string w).0 ≢ default_trace_id
    → let (ctx', w') = inject_tracing o ctx (some tracer) w in
      (get_trace_id ctx' ≢ default_trace_id)
      × ((get_trace_id ctx' ≡ (o.new_string w).0)
          ⊎ (get_trace_id ctx' ≡ o.trace_id_of (o.span_of (set_tracer ctx (some tracer)))))
      × ((name : String) (kvs : List (String × String)) (w2 : W)
          → add_span o ctx' name kvs w2 ≡ (
            (o.start tracer ctx' name w2).0,
            o.set_attributes (o.start tracer ctx' name w2).0.1 kvs (o.start tracer ctx' name w2).1,
          ))
unfolding inject_tracing get_trace_id add_span
inject_tracing-get_trace_id o ctx tracer w fresh =
    elim (Bool-cases
      (o.trace_id_of (o.span_of (set_tracer ctx (some tracer))) is default_trace_id)) [
        | inl zeros ↦ rw zeros (fresh, inl refl, λ name kvs w2. refl)
        | inr other ↦ rw other (
          ground (
            arith,
            eq_iff (o.trace_id_of (o.span_of (set_tracer ctx (some tracer)))) default_trace_id,
          ),
          inr refl,
          λ name kvs w2. refl,
        )
      ]

abbrev pub has_question : String → Bool
has_question String.[] = false
has_question (String.◌∷◌ c s) = code c == b'?' || has_question s

has_question-<> : (p q : String) → has_question (p <> ("?" <> q)) ≡ true
has_question-<> String.[] q = rw (nil-append ("?" <> q)) (rw (cons-append "?" "" q) refl)
has_question-<> (String.◌∷◌ c p) q =
    rw (cons-append c p ("?" <> q)) (ground (arith, has_question-<> p q))

none_is :
    (endpoints : List String) (ep : String)
    → all (λ e. not (has_question e)) endpoints ≡ true
    → has_question ep ≡ true
    → any (λ e. e is ep) endpoints ≡ false
none_is [] ep h q = refl
none_is (e ∷ es) ep h q = ground (arith, eq_iff e ep, none_is es ep)

is_of_ne : (s t : String) → s ≢ t → (s is t) ≡ false
is_of_ne s t h = ground (arith, eq_iff s t)

-- A request whose path and query are not empty is never left out: it is sampled as the ratio says, if
-- no endpoint that is excluded has a "?" in it.
pub should_sample_of_query :
    {F : Type 0} (ratio_based : F → Parameters → Decision) (ee : EndpointExcluder F)
    (parameters : Parameters) (path query : String)
    → path_and_query "" "" parameters ≡ (path, query)
    → path ≢ ""
    → query ≢ ""
    → all (λ e. not (has_question e)) ee.endpoints ≡ true
    → should_sample ratio_based ee parameters ≡ ratio_based ee.probability parameters
unfolding should_sample endpoint
should_sample_of_query ratio_based ee parameters path query e p q h =
    let asked = has_question-<> path query in
    let some_path = is_of_ne path "" p in
    let some_query = is_of_ne query "" q in
    let some_ep =
      is_of_ne (path <> ("?" <> query)) "" (λ same. ground (arith, ap has_question same)) in
    rw (e, some_path, some_query, some_ep, none_is ee.endpoints (path <> ("?" <> query)) h asked)
      refl
