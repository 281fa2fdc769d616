-- ===== src/Tests/Requests.antt =====
-- Handlers behind middleware.
use spi_exata.Base.{ℕ, suc, String, ◌≡◌, inr, refl, some, [], ◌∷◌}
use spi_exata.Base.Errors.{Result, ok}
use spi_exata.Base.Strings.{split, folds_to, drop}
use spi_exata.Types.Enums.{admin, parse_role}
use spi_exata.Auth
use spi_exata.Auth.{Claims}
use spi_exata.Auth.Laws.{IsAuthentic, IsListed}
use spi_exata.Web.{Encoder, document, answer, panic, HandlerFunc, MidFunc, wrap_middleware}
use spi_exata.Mid
use spi_exata.Mid.{
  Context, Request, Tran, Metrics, Counted, set_tran, authenticate_context, authenticate, authorize,
}
use spi_exata.Mid.Laws.{IsBound, authenticate_context-IsBound, guarded_answer}
use spi_exata.Mid.{metrics, panics}
use spi_exata.Mid.Transactions.{
  Beginner, begin_commit_rollback, IsCommitted, begin_commit_rollback-IsCommitted,
  begin_commit_rollback_of_failure,
}
use spi_exata.Tests.Tokens.{auth, bills}

-- A middleware that counts the calls that go through it.
abbrev tick : MidFunc ℕ Context Request
tick next ctx r w = next ctx r (suc w)

abbrev hello : HandlerFunc ℕ Context Request
hello ctx r w = (answer (document "hello"), w)

abbrev encode : Encoder → Result (String × String)
encode (document content) = ok (content, "text/plain")
encode _ = ok ("", "application/json")

abbrev pub request : Request
request = record {
  header = λ name. "Bearer t";
  host = "example.com";
  body = ok "";
  query = λ name. "";
  path_value = λ name. "";
}

abbrev bills_context : Context
bills_context =
    ((Mid.claim_key, Mid.of_claims bills)
      ∷ (Mid.key_tenant_id, Mid.of_uuid 9)
      ∷ (Mid.key_tenant_id, Mid.of_uuid 0)
      ∷ (Mid.user_id_key, Mid.of_uuid 7)
      ∷ [])

let_in : (authenticate_context auth [] "Bearer t" 3).0 ≡ ok bills_context
unfolding authenticate_context Auth.authenticate Auth.authenticate_token
    Auth.verify_signature_and_claims Auth.is_user_enabled parse_role drop split folds_to
let_in = refl

authenticate_context-IsBound_example :
    (claims : Claims) × ((Auth.authenticate auth "Bearer t" 3).0 ≡ ok claims)
    × IsBound auth claims bills_context
authenticate_context-IsBound_example =
    authenticate_context-IsBound auth [] bills_context "Bearer t" 3 let_in

answered :
    (wrap_middleware
      (some (authenticate auth) ∷ some (authorize auth (admin ∷ [])) ∷ [])
      hello
      []
      request
      3).0
    ≡ answer (document "hello")
unfolding wrap_middleware authenticate authorize Auth.authenticate Auth.authenticate_token
    Auth.verify_signature_and_claims Auth.is_user_enabled parse_role drop split folds_to
    Auth.authorize
answered = refl

guarded_answer_example :
    (claims : Claims) × IsAuthentic auth "Bearer t" claims 3 × IsListed auth claims (admin ∷ [])
guarded_answer_example = guarded_answer auth (admin ∷ []) hello [] request 3 "hello" answered

abbrev pub counted : Counted Metrics
counted = record { num_goroutine = λ w. 5; counters = λ w. w; put = λ m w. m }

abbrev pub failing : HandlerFunc Metrics Context Request
failing ctx r w = (panic "index out of range", w)

abbrev pub no_counts : Metrics
no_counts = record { goroutines = 0; requests = 0; errors = 0; panics = 0 }

-- The world counts what was done to the one transaction.
abbrev bgn : Beginner ℕ
bgn = record {
  begin = λ w. (ok 1, suc w);
  commit = λ tx w. (ok tt, suc w);
  rollback = λ tx w. (ok tt, w);
}

in_transaction : (begin_commit_rollback bgn hello [] request 0).0 ≡ answer (document "hello")
unfolding begin_commit_rollback
in_transaction = refl

begin_commit_rollback-IsCommitted_example :
    IsCommitted bgn hello [] request
      (document "hello")
      0
      (begin_commit_rollback bgn hello [] request 0).1
begin_commit_rollback-IsCommitted_example =
    begin_commit_rollback-IsCommitted bgn hello [] request 0 (document "hello") refl in_transaction

abbrev broken : HandlerFunc ℕ Context Request
broken ctx r w = (panic "broken", w)

begin_commit_rollback_of_failure_example :
    begin_commit_rollback bgn broken [] request 0 ≡ (panic "broken", 1)
begin_commit_rollback_of_failure_example =
    begin_commit_rollback_of_failure bgn broken [] request 0 1 1 1 1 (panic "broken") (ok tt) refl
      refl (inr ("broken", refl)) refl (λ m e. cc)

abbrev greeting : HandlerFunc Metrics Context Request
greeting ctx r w = (answer (document "hello"), w)
