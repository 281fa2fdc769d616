-- ===== src/Tests/Tokens.antt =====
-- Authentication with a JWT library that signs by writing the claims beside the key.
use spi_exata.Base.{
  ℕ, ◌-◌, ◌%◌, String, ◌≡◌, refl, Bool, true, false, ◌==◌, ◌&&◌, ◌is◌, if◌then◌else◌, some,
}
use spi_exata.Base.Errors.{sentinel, user_not_found, text, Result, ok, err, ◌>>=◌}
use spi_exata.Base.Strings.{drop}
use spi_exata.Types.Enums.{parse_role}
use spi_exata.User.{Uuid}
use spi_exata.Auth.{
  Claims, Kid, kid, missing, Jwt, Auth, authenticate, verify_signature_and_claims, is_user_enabled,
  authenticate_token,
}
use spi_exata.Auth.Laws.{IsAuthentic, authenticate-IsAuthentic}
use spi_exata.Tests.Values.{bill_user}

-- The claims that bill gets at the time 3.
abbrev pub bills : Claims
bills = record {
  subject = "7";
  issuer = "service";
  expires_at = 86_400_000_000_000;
  issued_at = 0;
  tenant_id = "";
  dashboard_id = "9";
  role = "ADMIN";
}

abbrev show : Uuid → String
show i = if i == 7 then "7" else "9"

-- One token is known: "t" stands for bill's claims under the kid "k".
abbrev parse : String → Result (Kid × Claims)
parse s =
    if s is "t"
    then ok (kid "k", bills)
    else if s is "n"
    then ok (missing, bills)
    else err (text "malformed")

abbrev is_k : Kid → Bool
is_k (kid k) = k is "k"
is_k _ = false

abbrev is_bills : Kid → Claims → Bool
is_bills h c =
    is_k h
    && c.subject is "7"
    && c.issuer is "service"
    && c.expires_at == 86_400_000_000_000
    && c.issued_at == 0
    && c.tenant_id is ""
    && c.dashboard_id is "9"
    && c.role is "ADMIN"

abbrev jwt : Jwt ℕ String String
jwt = record {
  parse_unverified = parse;
  parse_with_claims =
      λ s f w. ((do key ← f true; (h, claims) ← parse s; ok (key is "key", claims)), w);
  parse_private_key = λ pem. ok pem;
  parse_public_key = λ pem. ok pem;
  signed_string = λ h claims key. if is_bills h claims then ok "t" else err (text "signing");
  numeric_date = λ t. t - t % 1_000_000_000;
}

abbrev pub auth : Auth ℕ String String
auth = record {
  jwt = jwt;
  key_lookup = record {
    private_key = λ k w. if k is "k" then (ok "key", w) else (err (text "no key"), w);
    public_key = λ k w. if k is "k" then (ok "key", w) else (err (text "no key"), w);
  };
  user_bus = some (λ i w. if i == 7 then (ok bill_user, w) else (err (sentinel user_not_found), w));
  check_user = λ email password w. (ok bill_user, w);
  issuer = "service";
  active_kid = "k";
  now = λ w. (w, w);
  parse_uuid = λ s. if s is "7" then ok 7 else if s is "9" then ok 9 else err (text "invalid UUID");
  show_uuid = show;
}

accepted : (authenticate auth "Bearer t" 3).0 ≡ ok bills
unfolding authenticate authenticate_token verify_signature_and_claims is_user_enabled parse_role
    drop
accepted = refl

authenticate-IsAuthentic_example : IsAuthentic auth "Bearer t" bills 3
authenticate-IsAuthentic_example = authenticate-IsAuthentic auth "Bearer t" bills 3 accepted
