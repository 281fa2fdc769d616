-- ===== src/Auth.antt =====
-- app/sdk/auth/auth.go. The JWT library, the text of UUIDs and the clock are parameters; so is the
-- users' business layer, a function that finds a user, or nil.
pub mod Laws
pub mod Tokens
use spi_exata.Base.{
  ℕ, ◌+◌, String, Bool, false, not, ◌||◌, Option, none, some, List, [], ◌∷◌, ◌==◌, ◌is◌,
  if◌then◌else◌,
}
use spi_exata.Base.Errors.{
  forbidden, kid_missing, kid_malformed, user_disabled, invalid_role, sentinel, text, wrap, Result,
  ok, err, panicked,
}
use spi_exata.Base.State.{M, ◌>>=◌, ◌>>◌, return, step, fail, lift, wrapping}
use spi_exata.Base.Strings.{drop, has_prefix}
use spi_exata.Types.Enums.{Role, parse_role}
use spi_exata.User.{Uuid, Time, Address, User}

-- Claims, with the registered claims that the source sets or reads
pub record Claims : Type 0 where
  pub subject : String
  pub issuer : String
  pub expires_at : Time
  pub issued_at : Time
  pub tenant_id : String
  pub dashboard_id : String
  pub role : String

-- token.Header["kid"]: missing, a string, or a value of another type
pub data Kid : Type 0 where
  missing malformed : Kid
  kid : String → Kid

-- KeyLookup
pub record KeyLookup (W : Type 0) : Type 0 where
  pub private_key : String → M W String
  pub public_key : String → M W String

-- github.com/golang-jwt/jwt with RS256 as the only method; `K` are RSA private keys, `P` public
-- ones. ParseWithClaims asks a function for the key, which is told whether the method of the token
-- is RSA, and looks at the clock; it gives the token's validity and the claims. NewNumericDate rounds
-- a time.
pub record Jwt (W K P : Type 0) : Type 0 where
  pub parse_unverified : String → Result (Kid × Claims)
  pub parse_with_claims : String → (Bool → Result P) → M W (Bool × Claims)
  pub parse_private_key : String → Result K
  pub parse_public_key : String → Result P
  pub signed_string : Kid → Claims → K → Result String
  pub numeric_date : Time → Time

-- Auth
pub record Auth (W K P : Type 0) : Type 0 where
  pub jwt : Jwt W K P
  pub key_lookup : KeyLookup W
  -- userBus.QueryByID, or nil
  pub user_bus : Option (Uuid → M W User)
  -- userBus.Authenticate
  pub check_user : Address → String → M W User
  pub issuer : String
  pub active_kid : String
  pub now : W → Time × W
  pub parse_uuid : String → Result Uuid
  pub show_uuid : Uuid → String

-- Config, where the users' core is what Auth takes of it
pub record Config (W : Type 0) : Type 0 where
  pub user_bus : Option (Uuid → M W User)
  pub check_user : Address → String → M W User
  pub key_lookup : KeyLookup W
  pub issuer : String
  pub active_kid : String

-- New, over the JWT library, the clock and the texts of UUIDs
abbrev pub new :
    {W K P : Type 0}
    → Jwt W K P
    → (W → Time × W)
    → (String → Result Uuid)
    → (Uuid → String)
    → Config W
    → Auth W K P
new jwt now parse_uuid show_uuid cfg = record {
  jwt = jwt;
  key_lookup = cfg.key_lookup;
  user_bus = cfg.user_bus;
  check_user = cfg.check_user;
  issuer = cfg.issuer;
  active_kid = cfg.active_kid;
  now = now;
  parse_uuid = parse_uuid;
  show_uuid = show_uuid;
}

-- 24 * time.Hour, in nanoseconds
abbrev pub token_life : ℕ
token_life = 86_400_000_000_000

module _ {W K P : Type 0} (a : Auth W K P) where
  abbrev pub tenant_text : Uuid → String
  tenant_text id = if id == 0 then "" else a.show_uuid id

  -- the claims that GenerateToken makes, from two readings of the clock
  abbrev pub new_claims : Uuid → Uuid → Uuid → Role → Time → Time → Claims
  new_claims tenant_id user_id dashboard_id r expiry issued = record {
    subject = a.show_uuid user_id;
    issuer = a.issuer;
    expires_at = a.jwt.numeric_date (expiry + token_life);
    issued_at = a.jwt.numeric_date issued;
    tenant_id = tenant_text tenant_id;
    dashboard_id = a.show_uuid dashboard_id;
    role = r.value;
  }

  unfoldable pub generate_token : Uuid → Uuid → Uuid → Role → M W String
  generate_token tenant_id user_id dashboard_id r = do
    expiry ← step a.now
    issued ← step a.now
    let claims = new_claims tenant_id user_id dashboard_id r expiry issued
    pem ← wrapping "private key lookup" (a.key_lookup.private_key a.active_kid)
    key ← wrapping "parsing private key" (lift (a.jwt.parse_private_key pem))
    wrapping "signing token" (lift (a.jwt.signed_string (kid a.active_kid) claims key))

  -- the function that verifySignatureAndClaims hands to the parser
  abbrev pub key_func : P → Bool → Result P
  key_func key is_rsa = if is_rsa then ok key else err (text "unexpected signing method")

  -- the checks after the parsing
  abbrev check_claims : Bool × Claims → Result (Unit {0})
  check_claims (valid, claims) =
      if not valid
      then err (text "token is invalid")
      else if not (claims.issuer is a.issuer)
      then err (text "invalid issuer")
      else ok tt

  unfoldable pub verify_signature_and_claims : String → String → M W (Unit {0})
  verify_signature_and_claims token pem = do
    key ← wrapping "parsing public key" (lift (a.jwt.parse_public_key pem))
    parsed ← wrapping "validating token signature" (a.jwt.parse_with_claims token (key_func key))
    lift (check_claims parsed)

  abbrev check_enabled : User → Result (Unit {0})
  check_enabled usr = if not usr.enabled then err (sentinel user_disabled) else ok tt

  pub enabled_in : Option (Uuid → M W User) → Claims → M W (Unit {0})
  enabled_in none claims = return tt
  enabled_in (some find) claims = do
    user_id ← wrapping "parsing user ID" (lift (a.parse_uuid claims.subject))
    usr ← wrapping "query user" (find user_id)
    lift (check_enabled usr)

  unfoldable pub is_user_enabled : Claims → M W (Unit {0})
  unfolding enabled_in
  is_user_enabled claims = enabled_in a.user_bus claims

  abbrev pub kid_of : Kid → Result String
  kid_of missing = err (sentinel kid_missing)
  kid_of malformed = err (sentinel kid_malformed)
  kid_of (kid k) = ok k

  abbrev pub known_role : Claims → Result Role
  known_role claims = elim (parse_role claims.role) [
    | ok r ↦ ok r
    | err e ↦ err (sentinel invalid_role)
    | panicked m ↦ panicked m
  ]

  -- The token is `bearerToken[7:]`.
  unfoldable pub authenticate_token : String → M W Claims
  authenticate_token token = do
    (header, claims) ← wrapping "error parsing token" (lift (a.jwt.parse_unverified token))
    k ← lift (kid_of header)
    pem ← wrapping "fetching public key" (a.key_lookup.public_key k)
    _ ← wrapping "authentication failed" (verify_signature_and_claims token pem)
    _ ← lift (known_role claims)
    _ ← wrapping "user not enabled" (is_user_enabled claims)
    return claims

  unfoldable pub authenticate : String → M W Claims
  authenticate bearer =
      if not (has_prefix bearer "Bearer ")
      then fail (text "expected authorization header format: Bearer <token>")
      else authenticate_token (drop 7 bearer)

  -- the loop of Authorize
  pub allows : Claims → List Role → Bool
  allows claims [] = false
  allows claims (r ∷ rs) = claims.role is r.value || allows claims rs

  unfoldable pub authorize : Claims → List Role → Result (Unit {0})
  unfolding allows
  authorize claims [] = err (wrap "no roles authorized for this endpoint" (sentinel forbidden))
  authorize claims (r ∷ rs) =
      if allows claims (r ∷ rs)
      then ok tt
      else err (wrap "user role is not in the allowed list" (sentinel forbidden))

  -- Login uses the users' layer without asking whether there is one.
  unfoldable pub login : Address → String → M W User
  login email password = elim a.user_bus [
    | none ↦ λ w. (panicked "nil pointer dereference", w)
    | some _ ↦ wrapping "invalid credentials" (a.check_user email password)
  ]

-- net.SplitHostPort is a parameter.
unfoldable pub extract_domain : (String → Result (String × String)) → String → String
extract_domain split_host_port host = elim (split_host_port host) [ ok (name, _) ↦ name | _ ↦ host ]
