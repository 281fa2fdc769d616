-- ===== src/Mid/Values.antt =====
-- app/sdk/mid/mid.go: the context, a list of keys and values with the newest in front, and the requests.
use spi_exata.Base.{
  ℕ, String, Bool, true, false, Option, none, some, List, [], ◌∷◌, ◌==◌, if◌then◌else◌,
}
use spi_exata.Base.Errors.{text, Result, ok, err}
use spi_exata.User.{Uuid, User}
use spi_exata.Auth.{Claims}
use spi_exata.Web.{Encoder, app_error, other_error}

-- The keys of mid.go, and the one of the package metrics.
pub data CtxKey : Type 0 where
  claim_key user_id_key user_key tr_key key_tenant_id dashboard_id metrics_key : CtxKey

abbrev pub index : CtxKey → ℕ
index claim_key = 1
index user_id_key = 2
index user_key = 3
index tr_key = 4
index key_tenant_id = 5
index dashboard_id = 6
index metrics_key = 7

-- A transaction, by a number.
abbrev pub Tran : Type 0
Tran = ℕ

pub data Item : Type 0 where
  of_claims : Claims → Item
  of_uuid : Uuid → Item
  of_user : User → Item
  of_tran : Tran → Item
  of_metrics : Item

abbrev pub Context : Type 0
Context = List (CtxKey × Item)

-- ctx.Value
abbrev pub find : CtxKey → Context → Option Item
find key [] = none
find key ((k, v) ∷ ctx) = let rest = find key ctx in if index k == index key then some v else rest

-- `ctx.Value(key).(uuid.UUID)`, and so on: the value, if it has that type
abbrev pub as_uuid : Option Item → Option Uuid
as_uuid (some (of_uuid id)) = some id
as_uuid _ = none

abbrev pub as_claims : Option Item → Option Claims
as_claims (some (of_claims c)) = some c
as_claims _ = none

abbrev pub as_user : Option Item → Option User
as_user (some (of_user u)) = some u
as_user _ = none

abbrev pub as_tran : Option Item → Option Tran
as_tran (some (of_tran tx)) = some tx
as_tran _ = none

abbrev found {ℓ} : {A : Type ℓ} → String → Option A → Result A
found missing none = err (text missing)
found missing (some x) = ok x

abbrev pub set_tenant_id : Context → Uuid → Context
set_tenant_id ctx id = (key_tenant_id, of_uuid id) ∷ ctx

abbrev pub get_tenant_id : Context → Result Uuid
get_tenant_id ctx = found "tenant id not found in context" (as_uuid (find key_tenant_id ctx))

-- under the key of the tenant, as in the source
abbrev pub set_dashboard_id : Context → Uuid → Context
set_dashboard_id ctx id = (key_tenant_id, of_uuid id) ∷ ctx

abbrev pub get_dashboard_id : Context → Result Uuid
get_dashboard_id ctx = found "tenant id not found in context" (as_uuid (find key_tenant_id ctx))

abbrev pub set_claims : Context → Claims → Context
set_claims ctx claims = (claim_key, of_claims claims) ∷ ctx

abbrev pub no_claims : Claims
no_claims = record {
  subject = "";
  issuer = "";
  expires_at = 0;
  issued_at = 0;
  tenant_id = "";
  dashboard_id = "";
  role = "";
}

abbrev pub get_claims : Context → Claims
get_claims ctx = elim (as_claims (find claim_key ctx)) [ none ↦ no_claims | some c ↦ c ]

abbrev pub get_subject_id : (String → Result Uuid) → Context → Uuid
get_subject_id parse_uuid ctx = elim (parse_uuid (get_claims ctx).subject) [ ok id ↦ id | _ ↦ 0 ]

abbrev pub set_user_id : Context → Uuid → Context
set_user_id ctx id = (user_id_key, of_uuid id) ∷ ctx

abbrev pub get_user_id : Context → Result Uuid
get_user_id ctx = found "user id not found in context" (as_uuid (find user_id_key ctx))

abbrev pub set_user : Context → User → Context
set_user ctx usr = (user_key, of_user usr) ∷ ctx

abbrev pub get_user : Context → Result User
get_user ctx = found "user not found in context" (as_user (find user_key ctx))

abbrev pub set_tran : Context → Tran → Context
set_tran ctx tx = (tr_key, of_tran tx) ∷ ctx

abbrev pub get_tran : Context → Result Tran
get_tran ctx = found "transaction not found in context" (as_tran (find tr_key ctx))

-- checkIsError
abbrev pub is_failure : Encoder → Bool
is_failure (app_error e) = true
is_failure (other_error e) = true
is_failure _ = false

-- http.Request: its headers, the host, what reading the body gives, the parameters of the URL, and the
-- values of the path
pub record Request : Type 0 where
  pub header : String → String
  pub host : String
  pub body : Result String
  pub query : String → String
  pub path_value : String → String
