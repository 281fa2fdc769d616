-- ===== src/Mid/Laws.antt =====
-- What the middleware guarantees to the handlers behind it and to the server before it.
use spi_exata.Base.{
  ◌∙◌, String, ◌≡◌, ◌≢◌, ◌⊎◌, inl, inr, ◌==◌, Bool-cases, refl, some, List, [], ◌∷◌, arith,
}
use spi_exata.Base.Errors.{Result, err, panicked, text, ok, value_of}
use spi_exata.Types.Enums.{Role}
use spi_exata.User.{Uuid}
use spi_exata.Auth
use spi_exata.Auth.{Claims, Auth}
use spi_exata.Auth.Laws.{IsAuthentic, IsListed, authenticate-IsAuthentic, authorize-eq-ok_iff}
use spi_exata.Errs.{errorf}
use spi_exata.Errs.Codes.{internal_only_log, value}
use spi_exata.Web.{
  Encoder, nil, no_response, app_error, other_error, document, Answer, answer, panic, HandlerFunc,
  wrap_middleware,
}
use spi_exata.Web.Wrapping.{wrap_middleware_order}
use spi_exata.Mid.{
  Context, Request, get_claims, get_user_id, get_tenant_id, get_dashboard_id, tenant_of,
  bind_claims, authenticate_context, proceed, authenticate, authorize, handle_error, errors,
  Counted, metrics, panics, set, count,
}

module _ {W K P : Type 0} (a : Auth W K P) where
  -- What the context holds for the claims.
  pub record IsBound (claims : Claims) (ctx : Context) : Type 0 where
    pub claims_of : get_claims ctx ≡ claims
    pub user : (id : Uuid) × (a.parse_uuid claims.subject ≡ ok id) × (get_user_id ctx ≡ ok id)
    pub dashboard :
        (id : Uuid) × (a.parse_uuid claims.dashboard_id ≡ ok id) × (get_dashboard_id ctx ≡ ok id)
    pub tenant : get_tenant_id ctx ≡ get_dashboard_id ctx

  bind_claims-IsBound :
      (ctx ctx' : Context) (claims : Claims)
      → bind_claims a ctx claims ≡ ok ctx'
      → IsBound claims ctx'
  unfolding bind_claims
  bind_claims-IsBound ctx ctx' claims h =
      let (id, p) = value_of (a.parse_uuid claims.subject) (ground arith) in
      let (dash, q) = value_of (a.parse_uuid claims.dashboard_id) (ground arith) in
      let (td, t) = value_of (tenant_of a claims) (ground arith) in
      record {
        claims_of = ground arith;
        user = (id, p, ground arith);
        dashboard = (dash, q, ground arith);
        tenant = ground arith;
      }

  -- The context that the middleware Authenticate hands on holds the claims of a header that
  -- auth.Authenticate accepted, the user's id and the dashboard's id that the claims name; and what
  -- it holds as the tenant's id is the dashboard's id too, whatever tenant the claims name.
  pub authenticate_context-IsBound :
      (ctx ctx' : Context) (header : String) (w : W)
      → (authenticate_context a ctx header w).0 ≡ ok ctx'
      → (claims : Claims) × ((Auth.authenticate a header w).0 ≡ ok claims) × IsBound claims ctx'
  unfolding authenticate_context
  authenticate_context-IsBound ctx ctx' header w h =
      let (claims, accepted) = value_of (Auth.authenticate a header w).0 (ground arith) in
      (claims, accepted, bind_claims-IsBound ctx ctx' claims (ground arith))

  proceed-answer :
      (next : HandlerFunc W Context Request) (r : Request) (res : Result Context) (w : W)
      (content : String)
      → (proceed a next r res w).0 ≡ answer (document content)
      → (ctx : Context) × (res ≡ ok ctx) × (proceed a next r res w ≡ next ctx r w)
  proceed-answer next r (ok ctx) w content h = (ctx, refl, refl)
  proceed-answer next r (err e) w content h = cc
  proceed-answer next r (panicked m) w content h = cc

  authenticate-answer :
      (next : HandlerFunc W Context Request) (ctx : Context) (r : Request) (w : W)
      (content : String)
      → (authenticate a next ctx r w).0 ≡ answer (document content)
      → (ctx' : Context) × (w' : W) × ((authenticate_context a ctx (r.header "authorization") w).0
          ≡ ok ctx')
        × (authenticate a next ctx r w ≡ next ctx' r w')
  unfolding authenticate
  authenticate-answer next ctx r w content h =
      let (res, w') = authenticate_context a ctx (r.header "authorization") w in
      let (ctx', p, q) = proceed-answer next r res w' content h in (ctx', w', p, q)

  authorize-answer :
      (roles : List Role) (next : HandlerFunc W Context Request) (ctx : Context) (r : Request)
      (w : W) (content : String)
      → (authorize a roles next ctx r w).0 ≡ answer (document content)
      → (Auth.authorize a (get_claims ctx) roles ≡ ok tt)
        × (authorize a roles next ctx r w ≡ next ctx r w)
  unfolding authorize
  authorize-answer roles next ctx r w content h = (ground arith, ground arith)

  -- What the handler behind Authenticate and Authorize runs with, when it answers with a document.
  pub guarded_step :
      (roles : List Role) (next : HandlerFunc W Context Request) (ctx : Context) (r : Request)
      (w : W) (content : String)
      → (wrap_middleware (some (authenticate a) ∷ some (authorize a roles) ∷ []) next ctx r w).0
        ≡ answer (document content)
      → (claims : Claims) × (ctx' : Context) × (w' : W) × IsAuthentic a
          (r.header "authorization")
          claims
          w
        × IsListed a claims roles
        × IsBound claims ctx'
        × (wrap_middleware (some (authenticate a) ∷ some (authorize a roles) ∷ []) next ctx r w
            ≡ next ctx' r w')
  guarded_step roles next ctx r w content h =
      let same =
        wrap_middleware_order (some (authenticate a) ∷ some (authorize a roles) ∷ []) next in
      let h1 : (authenticate a (authorize a roles next) ctx r w).0 ≡ answer (document content) =
        rw (← same) h in
      let (ctx', w', p, q) = authenticate-answer (authorize a roles next) ctx r w content h1 in
      let h2 : (authorize a roles next ctx' r w').0 ≡ answer (document content) = rw (← q) h1 in
      let (claims, accepted, bound) =
        authenticate_context-IsBound ctx ctx' (r.header "authorization") w p in
      let (allowed, last) = authorize-answer roles next ctx' r w' content h2 in
      (
        claims,
        ctx',
        w',
        authenticate-IsAuthentic a (r.header "authorization") claims w accepted,
        (authorize-eq-ok_iff a claims roles).0 (rw (← bound.claims_of) allowed),
        bound,
        rw (same) (q ∙ last),
      )

  -- Behind Authenticate and Authorize, in this order, a request is answered with a document only if
  -- its header carries a token that is authentic, for claims whose role is one of those listed.
  pub guarded_answer :
      (roles : List Role) (next : HandlerFunc W Context Request) (ctx : Context) (r : Request)
      (w : W) (content : String)
      → (wrap_middleware (some (authenticate a) ∷ some (authorize a roles) ∷ []) next ctx r w).0
        ≡ answer (document content)
      → (claims : Claims) × IsAuthentic a (r.header "authorization") claims w
        × IsListed a claims roles
  guarded_answer roles next ctx r w content h =
      let (claims, ctx', w', authentic, listed, bound, same) =
        guarded_step roles next ctx r w content h in
      (claims, authentic, listed)

-- An answer that a client may see: no error for the log only, and none that is not an *errs.Error.
abbrev pub IsPublic : Answer → Type 0
IsPublic (answer (app_error e)) = e.code ≢ internal_only_log
IsPublic (answer (other_error e)) = ⊥
IsPublic (answer _) = Unit {0}
IsPublic (panic m) = ⊥

answer_cases :
    (x : Answer) → ((resp : Encoder) × (x ≡ answer resp)) ⊎ ((m : String) × (x ≡ panic m))
answer_cases (answer resp) = inl (resp, refl)
answer_cases (panic m) = inr (m, refl)

pub handle_error-IsPublic : (resp : Encoder) → IsPublic (answer (handle_error resp))
unfolding handle_error
handle_error-IsPublic nil = tt
handle_error-IsPublic no_response = tt
handle_error-IsPublic (document s) = tt
handle_error-IsPublic (other_error e) = λ h. cc
handle_error-IsPublic (app_error e) = λ h.
    elim (Bool-cases (value e.code == value internal_only_log)) [
      | inl same ↦ let k = rw same at h in cc
      | inr other ↦ let k = rw other at h in let o = rw k at other in cc
    ]

module _ {W : Type 0} (counted : Counted W) where
  abbrev pub stack : HandlerFunc W Context Request → HandlerFunc W Context Request
  stack = wrap_middleware (some errors ∷ some (metrics counted) ∷ some (panics counted) ∷ [])

  panics-answer :
      (next : HandlerFunc W Context Request) (ctx : Context) (r : Request) (w : W)
      → (resp : Encoder) × ((panics counted next ctx r w).0 ≡ answer resp)
  unfolding panics
  panics-answer next ctx r w = elim (answer_cases (next ctx r w).0) [
    | inl (resp, e) ↦ (resp, rw e refl)
    | inr (m, e) ↦ (app_error (errorf internal_only_log "PANIC" (text m)), rw e refl)
  ]

  count-answer :
      (ctx : Context) (p : Answer × W) (resp : Encoder)
      → p.0 ≡ answer resp
      → (count counted ctx p).0 ≡ answer resp
  unfolding count
  count-answer ctx p resp e = rw e refl

  errors-IsPublic :
      (next : HandlerFunc W Context Request) (ctx : Context) (r : Request) (w : W) (resp : Encoder)
      → (next ctx r w).0 ≡ answer resp
      → IsPublic (errors next ctx r w).0
  unfolding errors
  errors-IsPublic next ctx r w resp e = rw e (handle_error-IsPublic resp)

  pub metrics-answer :
      (next : HandlerFunc W Context Request) (ctx : Context) (r : Request) (w : W)
      → (resp : Encoder) × ((metrics counted (panics counted next) ctx r w).0 ≡ answer resp)
  unfolding metrics
  metrics-answer next ctx r w =
      let (resp, e) = panics-answer next (set counted ctx) r w in
      (resp, count-answer (set counted ctx) (panics counted next (set counted ctx) r w) resp e)

  -- Behind Errors, Metrics and Panics, in the order of WebAPI, every request is answered, also where
  -- the handler panics, and the answer is no error for the log only, and no error of another type
  -- than *errs.Error.
  pub stack-IsPublic :
      (next : HandlerFunc W Context Request) (ctx : Context) (r : Request) (w : W)
      → IsPublic (stack next ctx r w).0
  stack-IsPublic next ctx r w =
      let mw = some errors ∷ some (metrics counted) ∷ some (panics counted) ∷ [] in
      let (resp, e) = metrics-answer next ctx r w in
      rw (wrap_middleware_order mw next)
        (errors-IsPublic (metrics counted (panics counted next)) ctx r w resp e)
