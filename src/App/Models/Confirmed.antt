-- ===== src/App/Models/Confirmed.antt =====
-- What a request that creates a user holds, where it is answered with a user.
use spi_exata.Base.{String, ◌≡◌, ◌≢◌, refl, sym, ap, ◌∙◌, true, List, [], ◌∷◌, arith, all, eq_iff}
use spi_exata.Base.Errors.{Error, Result, ok, wrapping, wrapping-eq-ok}
use spi_exata.Base.Errors.{>>=-eq-ok}
use spi_exata.User
use spi_exata.User.Core
use spi_exata.User.Core.{Host, Storer}
use spi_exata.Errs.Checking.{Validation, passed, failed, broken, check}
use spi_exata.Web.{document, Answer, answer}
use spi_exata.Web.Decoding.{IsError, validated, decode, attempt-document}
use spi_exata.Base.State.{lift}
use spi_exata.Types.Enums.{admin}
use spi_exata.Auth.{Claims, Auth}
use spi_exata.Auth.Laws.{IsAuthentic, IsListed}
use spi_exata.Mid.Laws.{guarded_step}
use spi_exata.Mid.{Context, Request}
use spi_exata.App.Users.{Texts, AppNewUser, to_app_user, to_bus_new_user}
use spi_exata.App.Users.Handlers.{Models, create, create_refusal, create_route}
use spi_exata.App.Models.{Field, new_user_fields, codec_of, is_valid, refused}

-- A validator that lets a model pass only if its fields keep the rules.
abbrev pub IsValidator : (List Field → Validation) → Type 0
IsValidator validate_struct =
    (fs : List Field) → validate_struct fs ≡ passed → all (is_valid fs) fs ≡ true

-- What the rules of a new user come to.
kept_new_user :
    (app : AppNewUser)
    → all (is_valid (new_user_fields app)) (new_user_fields app) ≡ true
    → (app.name ≢ "")
      × (app.email ≢ "")
      × (app.role ≢ "")
      × (app.password ≢ "")
      × (app.password_confirm ≡ app.password)
kept_new_user app h = (
  λ e. ground (arith, eq_iff app.name ""),
  λ e. ground (arith, eq_iff app.email ""),
  λ e. ground (arith, eq_iff app.role ""),
  λ e. ground (arith, eq_iff app.password ""),
  ground (arith, eq_iff app.password_confirm app.password),
)

module _ {W : Type 0} (texts : Texts) (models : Models) (host : Host W) (storer : Storer W)
    (validate_struct : List Field → Validation) (unmarshal : String → Result AppNewUser) where
  -- What the request held and made, if it came when the world was `w` and ended as `result`.
  pub record IsConfirmed (r : Request) (w : W) (result : Answer × W) : Type 0 where
    pub content : String
    pub body : r.body ≡ ok content
    pub app : AppNewUser
    pub decoded : unmarshal content ≡ ok app
    pub name : app.name ≢ ""
    pub email : app.email ≢ ""
    pub role : app.role ≢ ""
    pub password : app.password ≢ ""
    pub confirmed : app.password_confirm ≡ app.password
    pub nu : User.NewUser
    pub parsed : to_bus_new_user texts app ≡ ok nu
    pub usr : User.User
    pub created : (Core.create host storer nu w).0 ≡ ok usr
    pub answered : result ≡ (
      answer (document (models.user (to_app_user texts usr))),
      (Core.create host storer nu w).1,
    )

  refused-IsError : (e : Error) → IsError (create_refusal e)
  unfolding create_refusal
  refused-IsError e = ground arith

  -- What Decode gives has passed the validation.
  validated_passed :
      (res : Validation) (v app : AppNewUser)
      → validated (refused (check res)) v ≡ ok app
      → (res ≡ passed) × (v ≡ app)
  unfolding check
  validated_passed passed v app h = (refl, cc)
  validated_passed (failed verrors) v app h = cc
  validated_passed (broken e) v app h = cc

  -- What decoding established.
  decoded_new_user :
      (body : Result String) (app : AppNewUser)
      → IsValidator validate_struct
      → decode (codec_of validate_struct unmarshal new_user_fields) body ≡ ok app
      → (content : String) × (body ≡ ok content)
        × (unmarshal content ≡ ok app)
        × (all (is_valid (new_user_fields app)) (new_user_fields app) ≡ true)
  unfolding decode check
  decoded_new_user body app valid h =
      let (content, h1, e1) = >>=-eq-ok (wrapping "request: unable to read payload" body) h in
      let (v, h2, e2) = >>=-eq-ok (wrapping "request: decode" (unmarshal content)) h1 in
      let (ran, same) = validated_passed (validate_struct (new_user_fields v)) v app h2 in
      (
        content,
        wrapping-eq-ok "request: unable to read payload" body content e1,
        wrapping-eq-ok "request: decode" (unmarshal content) v e2 ∙ ap ok same,
        rw (sym same) (valid (new_user_fields v) ran),
      )

  create-IsConfirmed :
      (ctx : Context) (r : Request) (w : W) (content : String)
      → IsValidator validate_struct
      → models.new_user ≡ codec_of validate_struct unmarshal new_user_fields
      → (create texts models host storer ctx r w).0 ≡ answer (document content)
      → IsConfirmed r w (create texts models host storer ctx r w)
  unfolding create
  create-IsConfirmed ctx r w content valid codec h =
      let result = create texts models host storer ctx r w in
      let (app, e1, h1) =
        attempt-document _ _ (lift (decode models.new_user r.body)) w result (λ e. tt) refl h in
      let (nu, e2, h2) =
        attempt-document _ _ (lift (to_bus_new_user texts app)) w result (λ e. tt) h1 h in
      let (usr, e3, h3) =
        attempt-document _ _ (Core.create host storer nu) w result refused-IsError h2 h in
      let (body, e4, e5, kept) =
        decoded_new_user r.body app valid (sym (ap (λ c. decode c r.body) codec) ∙ e1) in
      let (named, addressed, enrolled, secured, same) = kept_new_user app kept in
      record {
        content = body;
        body = e4;
        app = app;
        decoded = e5;
        name = named;
        email = addressed;
        role = enrolled;
        password = secured;
        confirmed = same;
        nu = nu;
        parsed = e2;
        usr = usr;
        created = e3;
        answered = h3;
      }

  module _ {K P : Type 0} (a : Auth W K P) where
    -- If models are decoded by json.Unmarshal and the tags of NewUser, and the validator lets pass
    -- only what keeps the rules `required` and `eqfield` of its tags, then the route that creates a
    -- user answers with a document only where the token is authentic, for an admin, and the body
    -- holds a new user with a name, an e-mail address, a role and a password, which is confirmed,
    -- that parses, and of whom the business layer made a user; the document is this user, and the
    -- state is the one that the business layer left.
    pub create_route-IsConfirmed :
        (ctx : Context) (r : Request) (w : W) (content : String)
        → IsValidator validate_struct
        → models.new_user ≡ codec_of validate_struct unmarshal new_user_fields
        → (create_route texts models host storer a ctx r w).0 ≡ answer (document content)
        → (claims : Claims) × (w' : W) × IsAuthentic a (r.header "authorization") claims w
          × IsListed a claims (admin ∷ [])
          × IsConfirmed r w' (create_route texts models host storer a ctx r w)
    unfolding create_route
    create_route-IsConfirmed ctx r w content valid codec h =
        let (claims, ctx', w', authentic, listed, bound, same) =
          guarded_step a (admin ∷ []) (create texts models host storer) ctx r w content h in
        let confirmed =
          create-IsConfirmed ctx' r w' content valid codec (sym (ap (λ p. p.0) same) ∙ h) in
        (claims, w', authentic, listed, rw same confirmed)
