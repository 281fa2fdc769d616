-- ===== src/Auth/Laws.antt =====
-- What authentication and authorization guarantee, whatever the JWT library answers.
use spi_exata.Base.{
  String, ◌≡◌, refl, ap, ◌∙◌, ◌↔◌, ◌⊎◌, inl, inr, true, Option, none, some, List, [], ◌∷◌, arith,
  eq_iff, ◌is◌, Bool-cases,
}
use spi_exata.Base.Errors.{kid_missing, kid_malformed, Error, sentinel, ok, err, is_ok, value_of}
use spi_exata.Base.State.{M}
use spi_exata.Base.Strings.{drop, has_prefix}
use mathlib.Core.List.{Memᴰ}
use spi_exata.Types.Enums.{Role, parse_role}
use spi_exata.User.{Uuid, User}
use spi_exata.Auth.{
  Claims, Kid, kid, missing, malformed, kid_of, enabled_in, Auth, key_func,
  verify_signature_and_claims, is_user_enabled, authenticate_token, authenticate, allows, authorize,
}

module _ {W K P : Type 0} (a : Auth W K P) where
  -- The token was verified with the public key that the key lookup gives for its kid, and the
  -- verified claims name the configured issuer.
  pub record IsVerified (token : String) (k : String) (u : W) : Type 0 where
    pub pem : String
    pub found : (a.key_lookup.public_key k u).0 ≡ ok pem
    pub key : P
    pub parsed : a.jwt.parse_public_key pem ≡ ok key
    pub claims : Claims
    pub verified :
        (a.jwt.parse_with_claims token (key_func a key) (a.key_lookup.public_key k u).1).0
        ≡ ok (true, claims)
    pub issuer : claims.issuer ≡ a.issuer

  verify-IsVerified :
      (token pem : String) (w : W)
      → (verify_signature_and_claims a token pem w).0 ≡ ok tt
      → (key : P) × (a.jwt.parse_public_key pem ≡ ok key)
        × (claims : Claims) × ((a.jwt.parse_with_claims token (key_func a key) w).0
            ≡ ok (true, claims))
        × (claims.issuer ≡ a.issuer)
  unfolding verify_signature_and_claims
  verify-IsVerified token pem w h =
      let (key, e) = value_of (a.jwt.parse_public_key pem) (ground arith) in
      let ((valid, claims), f) =
        value_of (a.jwt.parse_with_claims token (key_func a key) w).0 (ground arith) in
      (
        key,
        e,
        claims,
        ground (arith, eq_iff claims.issuer a.issuer),
        ground (arith, eq_iff claims.issuer a.issuer),
      )

  -- The users' layer, where there is one, found the subject of the claims enabled.
  abbrev pub IsEnabledIn : Option (Uuid → M W User) → Claims → Type 0
  IsEnabledIn none claims = Unit {0}
  IsEnabledIn (some find) claims =
      (id : Uuid) × (u : W) × (usr : User) × (a.parse_uuid claims.subject ≡ ok id)
      × ((find id u).0 ≡ ok usr)
      × (usr.enabled ≡ true)

  -- What a successful authentication has established.
  pub record IsAuthentic (bearer : String) (claims : Claims) (w : W) : Type 0 where
    pub prefix : has_prefix bearer "Bearer " ≡ true
    pub k : String
    pub parsed : a.jwt.parse_unverified (drop 7 bearer) ≡ ok (kid k, claims)
    pub verified : IsVerified (drop 7 bearer) k w
    pub role : (r : Role) × (parse_role claims.role ≡ ok r)
    pub enabled : IsEnabledIn a.user_bus claims

  enabled_in-IsEnabledIn :
      (bus : Option (Uuid → M W User)) (claims : Claims) (w : W)
      → (enabled_in a bus claims w).0 ≡ ok tt
      → IsEnabledIn bus claims
  unfolding enabled_in
  enabled_in-IsEnabledIn none claims w h = tt
  enabled_in-IsEnabledIn (some find) claims w h =
      let (id, p) = value_of (a.parse_uuid claims.subject) (ground arith) in
      let (usr, q) = value_of (find id w).0 (ground arith) in (id, w, usr, p, q, ground arith)

  is_user_enabled-IsEnabledIn :
      (claims : Claims) (w : W)
      → (is_user_enabled a claims w).0 ≡ ok tt
      → IsEnabledIn a.user_bus claims
  unfolding is_user_enabled
  is_user_enabled-IsEnabledIn claims w h = enabled_in-IsEnabledIn a.user_bus claims w h

  kid-of_ok : (h : Kid) → is_ok (kid_of a h) ≡ true → (k : String) × (h ≡ kid k)
  kid-of_ok missing h = cc
  kid-of_ok malformed h = cc
  kid-of_ok (kid k) h = (k, refl)

  -- The steps of a successful authentication, one after the other.
  record Steps (token : String) (claims : Claims) (w : W) : Type 0 where
    k : String
    parsed : a.jwt.parse_unverified token ≡ ok (kid k, claims)
    pem : String
    found : (a.key_lookup.public_key k w).0 ≡ ok pem
    verified : (verify_signature_and_claims a token pem (a.key_lookup.public_key k w).1).0 ≡ ok tt
    role : (r : Role) × (parse_role claims.role ≡ ok r)
    enabled : (u : W) × ((is_user_enabled a claims u).0 ≡ ok tt)

  kid-parsed :
      (token : String) (claims : Claims) (w : W)
      → (authenticate_token a token w).0 ≡ ok claims
      → (k : String) × (a.jwt.parse_unverified token ≡ ok (kid k, claims))
  unfolding authenticate_token
  kid-parsed token claims w h =
      let ((header, cl), parsed) = value_of (a.jwt.parse_unverified token) (ground arith) in
      let (k, e) = kid-of_ok header (ground arith) in (k, ground arith)

  later-Steps :
      (token k : String) (claims : Claims) (w : W)
      → a.jwt.parse_unverified token ≡ ok (kid k, claims)
      → (authenticate_token a token w).0 ≡ ok claims
      → Steps token claims w
  unfolding authenticate_token
  later-Steps token k claims w parsed h =
      let (pem, found) = value_of (a.key_lookup.public_key k w).0 (ground arith) in
      let (r, role) = value_of (parse_role claims.role) (ground arith) in
      let w1 = (a.key_lookup.public_key k w).1 in
      record {
        k = k;
        parsed = parsed;
        pem = pem;
        found = found;
        verified = ground arith;
        role = (r, role);
        enabled = ((verify_signature_and_claims a token pem w1).1, ground arith);
      }

  -- If Authenticate accepts a header, it begins with "Bearer ", the rest parses as a token that names
  -- a key, with the claims that are returned; the token was verified with the public key that the
  -- key lookup has for that name and its verified claims name the configured issuer; the role is a
  -- known one; and where there is a users' layer, it found the subject enabled.
  pub authenticate-IsAuthentic :
      (bearer : String) (claims : Claims) (w : W)
      → (authenticate a bearer w).0 ≡ ok claims
      → IsAuthentic bearer claims w
  unfolding authenticate
  authenticate-IsAuthentic bearer claims w h =
      let token = drop 7 bearer in
      let pre : has_prefix bearer "Bearer " ≡ true = ground arith in
      let h1 : (authenticate_token a token w).0 ≡ ok claims = ground arith in
      let (k, parsed) = kid-parsed token claims w h1 in
      let s = later-Steps token k claims w parsed h1 in
      let (key, e, cl, v, issuer) =
        verify-IsVerified token s.pem (a.key_lookup.public_key s.k w).1 s.verified in
      record {
        prefix = pre;
        k = s.k;
        parsed = s.parsed;
        verified = record {
          pem = s.pem;
          found = s.found;
          key = key;
          parsed = e;
          claims = cl;
          verified = v;
          issuer = issuer;
        };
        role = s.role;
        enabled = is_user_enabled-IsEnabledIn claims s.enabled.0 s.enabled.1;
      }

  -- A token whose header names no key, or names it by something else than a string, is refused
  -- with the error variable for it, before any key is looked up: the world is as it was.
  pub authenticate_of_bad_kid :
      (bearer : String) (header : Kid) (claims : Claims) (e : Error) (w : W)
      → has_prefix bearer "Bearer " ≡ true
      → a.jwt.parse_unverified (drop 7 bearer) ≡ ok (header, claims)
      → kid_of a header ≡ err e
      → (authenticate a bearer w ≡ (err e, w))
        × ((e ≡ sentinel kid_missing) ⊎ (e ≡ sentinel kid_malformed))
  unfolding authenticate authenticate_token
  authenticate_of_bad_kid bearer missing claims e w h p k = (ground arith, inl (ground arith))
  authenticate_of_bad_kid bearer malformed claims e w h p k = (ground arith, inr (ground arith))
  authenticate_of_bad_kid bearer (kid k') claims e w h p k = cc

  -- Some role of the list has the name that the claims carry.
  abbrev pub IsListed : Claims → List Role → Type 0
  IsListed claims roles = (r : Role) × Memᴰ r roles × (claims.role ≡ r.value)

  allows-IsListed :
      (claims : Claims) (roles : List Role) → allows a claims roles ≡ true → IsListed claims roles
  unfolding allows
  allows-IsListed claims [] h = cc
  allows-IsListed claims (r ∷ rs) h = elim (Bool-cases (claims.role is r.value)) [
    | inl same ↦ (r, Memᴰ.head refl, (eq_iff claims.role r.value).0 same)
    | inr other ↦ let (x, m, e) = allows-IsListed claims rs (ground arith) in (x, Memᴰ.tail m, e)
  ]

  IsListed-allows :
      (claims : Claims) (r : Role) (roles : List Role)
      → Memᴰ r roles
      → claims.role ≡ r.value
      → allows a claims roles ≡ true
  unfolding allows
  IsListed-allows claims r [] m h = elim m [ ]
  IsListed-allows claims r (x ∷ rs) (Memᴰ.head e) h =
      let same : claims.role ≡ x.value = h ∙ ap Role.value e in
      ground (arith, eq_iff claims.role x.value)
  IsListed-allows claims r (x ∷ rs) (Memᴰ.tail m) h =
      ground (arith, IsListed-allows claims r rs m h)

  authorize-allows :
      (claims : Claims) (roles : List Role)
      → (authorize a claims roles ≡ ok tt) ↔ (allows a claims roles ≡ true)
  unfolding authorize allows
  authorize-allows claims [] = ground arith
  authorize-allows claims (r ∷ rs) = ground arith

  -- Authorize succeeds exactly when some role of the list has the name that the claims carry, so for
  -- an empty list never.
  pub authorize-eq-ok_iff :
      (claims : Claims) (roles : List Role)
      → (authorize a claims roles ≡ ok tt) ↔ IsListed claims roles
  authorize-eq-ok_iff claims roles =
      let (to, from) = authorize-allows claims roles in
      (
        (λ h. allows-IsListed claims roles (to h)),
        λ h. from (IsListed-allows claims h.0 roles h.1 h.2),
      )
