-- ===== src/App/Users/Handlers.antt =====
-- app/domain/userapp/userapp.go: the handlers over the users' business layer, and route.go: the
-- middleware before them.
use spi_exata.Base.{String, ◌⊎◌, inl, inr, some, [], ◌∷◌, if◌then◌else◌}
use spi_exata.Base.Errors.{user_not_found, unique_email, unique_phone, Error, sentinel, is_error}
use spi_exata.Base.State.{lift}
use spi_exata.Types.Enums.{admin}
use spi_exata.Sdk.Page
use spi_exata.Sdk.Order
use spi_exata.Sdk.Order.{By}
use spi_exata.User
use spi_exata.User.{QueryFilter, default_order_by}
use spi_exata.User.Core
use spi_exata.User.Core.{Host, Storer}
use spi_exata.Auth.{Auth}
use spi_exata.Errs.{AppError, new, errorf, new_field_errors}
use spi_exata.Errs.Codes.{
  ErrCode, invalid_argument, aborted, internal, internal_only_log, not_found,
}
use spi_exata.Web.{Encoder, nil, app_error, document, Answer, answer, HandlerFunc, wrap_middleware}
use spi_exata.Web.Decoding.{Codec, decode, attempt}
use spi_exata.Mid.{Context, Request, get_user, authenticate, authorize}
use spi_exata.App.Users.{
  Texts, AppUser, AppNewUser, AppUpdateUser, UpdateUserRole, Listing, new_result,
  app_order_by_fields, to_app_user, to_app_users, to_bus_new_user, to_bus_update_user,
  to_bus_update_user_role,
}
use spi_exata.App.Users.Filter.{parse_query_params, parse_filter}

-- json.Marshal of the models, and what decoding them takes
pub record Models : Type 0 where
  pub user : AppUser → String
  pub users : Listing AppUser → String
  pub new_user : Codec AppNewUser
  pub update_user : Codec AppUpdateUser
  pub update_role : Codec UpdateUserRole

-- `return errs.New(code, err)` and `return errs.Errorf(code, "<text>: %s", err)`
abbrev pub refuse : ErrCode → Error → Encoder
refuse code e = app_error (new code e)

abbrev pub refusef : ErrCode → String → Error → Encoder
refusef code prefix e = app_error (errorf code prefix e)

abbrev pub field_error : String → Error → Encoder
field_error field e = app_error (new_field_errors field e)

-- the errors of create
unfoldable pub create_refusal : Error → Encoder
unfolding is_error
create_refusal e =
    if is_error e unique_email
    then refuse aborted (sentinel unique_email)
    else if is_error e unique_phone
    then refuse aborted (sentinel unique_phone)
    else refusef internal_only_log "create" e

-- the errors of finding a user in updateRole
unfoldable pub find_refusal : Error → Encoder
unfolding is_error
find_refusal e =
    if is_error e user_not_found
    then refuse not_found e
    else refusef internal_only_log "query user" e

module _ {W : Type 0} (texts : Texts) (models : Models) (host : Host W) (storer : Storer W) where
  abbrev user_answer : User.User → W → Answer × W
  user_answer usr w = (answer (document (models.user (to_app_user texts usr))), w)

  unfoldable pub create : HandlerFunc W Context Request
  create ctx r = attempt (lift (decode models.new_user r.body)) (refuse invalid_argument) (λ app.
      attempt (lift (to_bus_new_user texts app)) (refuse invalid_argument)
        (λ nc. attempt (Core.create host storer nc) create_refusal user_answer))

  unfoldable pub update : HandlerFunc W Context Request
  update ctx r = attempt (lift (decode models.update_user r.body)) (refuse invalid_argument) (λ app.
      attempt (lift (get_user ctx)) (refusef internal "user missing in context") (λ usr.
        attempt (lift (to_bus_update_user texts app)) (refuse invalid_argument) (λ uu.
          attempt (Core.update host storer usr uu) (refusef internal_only_log "update")
            user_answer)))

  unfoldable pub update_role : HandlerFunc W Context Request
  update_role ctx r =
      attempt (lift (decode models.update_role r.body)) (refuse invalid_argument) (λ app.
        attempt (lift (texts.parse_uuid (r.path_value "user_id"))) (field_error "user_id") (λ id.
          attempt (Core.query_by_id host storer id) find_refusal (λ usr.
            attempt (lift (to_bus_update_user_role texts app)) (refuse invalid_argument) (λ uu.
              attempt (Core.update host storer usr uu) (refusef internal_only_log "updaterole")
                user_answer))))

  unfoldable pub delete : HandlerFunc W Context Request
  delete ctx r =
      attempt (lift (get_user ctx)) (refusef internal "userID missing in context") (λ usr.
        attempt (Core.delete host storer usr) (refusef internal_only_log "delete")
          (λ _ w. (answer nil, w)))

  -- the last part of query, with everything parsed
  pub list : Page.Page → QueryFilter → By → W → Answer × W
  list page filter order_by =
      attempt (Core.query host storer filter order_by page) (refusef internal "query") (λ usrs.
        attempt (Core.count host storer filter) (refusef internal "count") (λ total w.
          (answer (document (models.users (new_result (to_app_users texts usrs) total page))), w)))

  abbrev with_filter : (QueryFilter → W → Answer × W) → QueryFilter ⊎ AppError → W → Answer × W
  with_filter next (inl filter) w = next filter w
  with_filter next (inr e) w = (answer (app_error e), w)

  unfoldable pub query : HandlerFunc W Context Request
  unfolding list
  query ctx r =
      let qp = parse_query_params r in
      attempt (lift (Page.parse qp.page qp.rows)) (field_error "page") (λ page.
        attempt (lift (parse_filter texts qp)) (field_error "filter") (
          with_filter (λ filter.
            attempt (lift (Order.parse app_order_by_fields qp.order_by default_order_by))
              (field_error "order") (list page filter))))

  unfoldable pub query_by_id : HandlerFunc W Context Request
  query_by_id ctx r =
      attempt (lift (get_user ctx)) (refusef internal "user missing in context") user_answer

  -- The handlers behind the middleware of their routes.
  module _ {K P : Type 0} (a : Auth W K P) where
    pub list_route : HandlerFunc W Context Request
    list_route =
        wrap_middleware (some (authenticate a) ∷ some (authorize a (admin ∷ [])) ∷ []) query

    unfoldable pub find_route : HandlerFunc W Context Request
    find_route =
        wrap_middleware (some (authenticate a) ∷ some (authorize a (admin ∷ [])) ∷ []) query_by_id

    unfoldable pub create_route : HandlerFunc W Context Request
    create_route =
        wrap_middleware (some (authenticate a) ∷ some (authorize a (admin ∷ [])) ∷ []) create

    unfoldable pub update_route : HandlerFunc W Context Request
    update_route = wrap_middleware (some (authenticate a) ∷ []) update

    unfoldable pub delete_route : HandlerFunc W Context Request
    delete_route = wrap_middleware (some (authenticate a) ∷ []) delete
