-- ===== src/Auth/Tokens.antt =====
-- A token that GenerateToken makes is one that Authenticate accepts, under what the JWT library
-- documents of signing and verifying.
use spi_exata.Base.{◌+◌, ◌<◌, ◌≤◌, String, ◌≡◌, Bool, true, some}
use spi_exata.Base.Errors.{text, Result, ok}
use spi_exata.Base.State.{M}
use spi_exata.User.{Uuid, Time, User}
use Prim.Native.String
use spi_exata.Auth.{Claims, Kid, Auth}

-- The header that carries a token.
abbrev pub bearer : String → String
bearer token = String.◌++◌ "Bearer " token

module _ {W K P : Type 0} (a : Auth W K P) where
  -- What the library documents of dates, which it cuts to whole seconds, and of a pair of keys: a token
  -- of claims with such dates that is signed with the private one parses to its kid and claims, and
  -- until it expires it is verified with the public one, with a look at the clock and nothing else.
  pub record IsKeyPair (secret : K) (public : P) : Type 0 where
    pub cuts : (t : Time) → (a.jwt.numeric_date t ≤ t) × (t < a.jwt.numeric_date t + 1_000_000_000)
    pub parses :
        (h : Kid) (claims : Claims) (token : String) (e i : Time)
        → claims.expires_at ≡ a.jwt.numeric_date e
        → claims.issued_at ≡ a.jwt.numeric_date i
        → a.jwt.signed_string h claims secret ≡ ok token
        → a.jwt.parse_unverified token ≡ ok (h, claims)
    pub verifies :
        (h : Kid) (claims : Claims) (token : String) (f : Bool → Result P) (e i : Time) (w : W)
        → claims.expires_at ≡ a.jwt.numeric_date e
        → claims.issued_at ≡ a.jwt.numeric_date i
        → a.jwt.signed_string h claims secret ≡ ok token
        → f true ≡ ok public
        → (a.now w).0 < claims.expires_at
        → a.jwt.parse_with_claims token f w ≡ (ok (true, claims), (a.now w).1)

  -- The key lookup holds the pair under the active kid, and does not change.
  pub record HoldsPair (secret : K) (public : P) : Type 0 where
    pub secret_pem : String
    pub public_pem : String
    pub private_key : (w : W) → a.key_lookup.private_key a.active_kid w ≡ (ok secret_pem, w)
    pub public_key : (w : W) → a.key_lookup.public_key a.active_kid w ≡ (ok public_pem, w)
    pub parse_private : a.jwt.parse_private_key secret_pem ≡ ok secret
    pub parse_public : a.jwt.parse_public_key public_pem ≡ ok public

  -- The users' layer finds an enabled user under the id in the world `w`.
  pub record IsActive (user_id : Uuid) (w : W) : Type 0 where
    pub find : Uuid → M W User
    pub bus : a.user_bus ≡ some find
    pub parse_show : a.parse_uuid (a.show_uuid user_id) ≡ ok user_id
    pub user : User
    pub found : (find user_id w).0 ≡ ok user
    pub enabled : user.enabled ≡ true
