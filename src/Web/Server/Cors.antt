-- ===== src/Web/Server/Cors.antt =====
-- The headers of a response, and what happens to a pre-flight.
use spi_exata.Base.{
  String, ◌≡◌, refl, sym, ap, ◌∙◌, ◌⊎◌, inl, inr, false, ◌&&◌, ◌||◌, Option, none, some, List, [],
  ◌∷◌, ◌is◌, any, lookup, is_some, arith, eq_iff, Bool-cases, Option-cases, if◌then◌else◌,
}
use spi_exata.Base.Errors.{ok}
use spi_exata.Web.{no_writes, allow_origin}
use spi_exata.Web.Server.{
  Served, App, Headers, set_header, origin_header, with_origin, cors_headers, secured, serve_http,
}

lookup-set_header :
    (k key v : String) (headers : Headers)
    → lookup k (set_header key v headers) ≡ (if key is k then some v else lookup k headers)
unfolding set_header
lookup-set_header k key v [] = ground arith
lookup-set_header k key v ((j, x) ∷ headers) = elim (Bool-cases (j is key)) [
  | inl same ↦ rw same (rw ((eq_iff j key).0 same) (ground arith))
  | inr other ↦
      rw other
        (ground (arith, lookup-set_header k key v headers, eq_iff j k, eq_iff key k, eq_iff j key))
]

allow_origin-eq-some :
    (req_origin v : String) (origins : List String)
    → allow_origin req_origin origins ≡ some v
    → (v ≡ "*") ⊎ (v ≡ req_origin)
unfolding allow_origin
allow_origin-eq-some req_origin v [] h = cc
allow_origin-eq-some req_origin v (o ∷ origins) h =
    ground (arith, allow_origin-eq-some req_origin v origins, eq_iff o "*", eq_iff o req_origin)

is_some-allow_origin :
    (req_origin : String) (origins : List String)
    → is_some (allow_origin req_origin origins) ≡ any (λ o. o is "*" || o is req_origin) origins
unfolding allow_origin
is_some-allow_origin req_origin [] = refl
is_some-allow_origin req_origin (o ∷ origins) =
    ground (arith, is_some-allow_origin req_origin origins)

-- The headers that are set for a request which CORS is enabled for.
origin_of_cors :
    (o : Option String)
    → (lookup origin_header (cors_headers (with_origin o [])) ≡ o)
      × (lookup origin_header (secured (cors_headers (with_origin o []))) ≡ o)
unfolding set_header
origin_of_cors none = (refl, refl)
origin_of_cors (some o) = (refl, refl)

unset : is_some (lookup origin_header (secured [])) ≡ false
unfolding set_header
unset = refl

-- the origins that are allowed: none, where CORS is not enabled
abbrev pub allowed : {W C R : Type 0} → App W C R → List String
allowed app = elim app.origins [ none ↦ [] | some origins ↦ origins ]

-- Whatever is asked for, the header Access-Control-Allow-Origin is set exactly if CORS is enabled and
-- some allowed origin is "*" or the origin of the request, and then to one of these two. The mux is
-- asked exactly for the requests that are no pre-flights with CORS enabled; those it is not asked for
-- are answered with 200 and change nothing.
pub serve_http-origin :
    {W C R : Type 0} (app : App W C R) (method req_origin : String) (next : W → Served × W) (w : W)
    → let ((headers, served), w') = serve_http app method req_origin next w in
      (is_some (lookup origin_header headers)
        ≡ any (λ o. o is "*" || o is req_origin) (allowed app))
      × ((v : String) → lookup origin_header headers ≡ some v → (v ≡ "*") ⊎ (v ≡ req_origin))
      × ((served, w') ≡ (
          if is_some app.origins && method is "OPTIONS"
          then ((ok tt, record no_writes { statuses = 200 ∷ [] }), w)
          else next w))
unfolding serve_http
serve_http-origin app method req_origin next w = elim (Option-cases app.origins) [
  | inl e ↦ rw e (unset, λ v h. let k = sym unset ∙ ap is_some h in cc, refl)
  | inr (origins, e) ↦
      let (plain, hsts) = origin_of_cors (allow_origin req_origin origins) in
      let some_iff = is_some-allow_origin req_origin origins in
      rw e (elim (Bool-cases (method is "OPTIONS")) [
        | inl preflight ↦ rw preflight (
          ap is_some plain ∙ some_iff,
          λ v h. allow_origin-eq-some req_origin v origins (sym plain ∙ h),
          refl,
        )
        | inr other ↦ rw other (
          ap is_some hsts ∙ some_iff,
          λ v h. allow_origin-eq-some req_origin v origins (sym hsts ∙ h),
          refl,
        )
      ])
]
