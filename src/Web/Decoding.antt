-- ===== src/Web/Decoding.antt =====
-- business/sdk/web/request.go: the value in the body of a request; and the way in which a handler
-- goes through its calls.
use spi_exata.Base.{String, ◌≡◌, refl, sym, ap, ◌∙◌, ◌≢◌, Option, none, some}
use spi_exata.Base.Errors.{Error, text, Result, ok, err, panicked}
use spi_exata.Base.Errors.{◌>>=◌, wrapping}
use spi_exata.Base.State.{M}
use spi_exata.Web.{
  Encoder, nil, no_response, app_error, other_error, document, Answer, answer, panic,
}

-- A model of the application layer: json.Unmarshal into it, and errs.Check of its tags.
pub record Codec (A : Type 0) : Type 0 where
  pub unmarshal : String → Result A
  pub check : A → Option Error

-- Validate: the error is an *errs.Error, which keeps the text of its cause only.
abbrev pub validated : {A : Type 0} → Option Error → A → Result A
validated none v = ok v
validated (some e) v = err (text "validate")

-- Decode, of what reading the body gives
unfoldable pub decode : {A : Type 0} → Codec A → Result String → Result A
decode codec body = do
  content ← wrapping "request: unable to read payload" body
  v ← wrapping "request: decode" (codec.unmarshal content)
  validated (codec.check v) v

module _ {W : Type 0} {A : Type 0} where
  abbrev pub go_on : (Error → Encoder) → (A → W → Answer × W) → Result A → W → Answer × W
  go_on refuse next (ok a) w = next a w
  go_on refuse next (err e) w = (answer (refuse e), w)
  go_on refuse next (panicked m) w = (panic m, w)

  -- `a, err := m; if err != nil { return refuse(err) }`, and what follows
  abbrev pub attempt : M W A → (Error → Encoder) → (A → W → Answer × W) → W → Answer × W
  attempt m refuse next w = let (r, w') = m w in go_on refuse next r w'

-- An answer that is an error of the application.
abbrev pub IsError : Encoder → Type 0
IsError (app_error e) = Unit {0}
IsError _ = ⊥

IsError-ne-document :
    (resp : Encoder) {content : String} → IsError resp → answer resp ≢ answer (document content)
IsError-ne-document (app_error e) u h = cc
IsError-ne-document nil u h = absurd u
IsError-ne-document no_response u h = absurd u
IsError-ne-document (other_error e) u h = absurd u
IsError-ne-document (document s) u h = absurd u

module _ {W A : Type 0} (refuse : Error → Encoder) (next : A → W → Answer × W)
    {content : String} where
  go_on-document :
      (res : Result A) (w : W)
      → ((e : Error) → IsError (refuse e))
      → (go_on refuse next res w).0 ≡ answer (document content)
      → (a : A) × (res ≡ ok a) × (go_on refuse next res w ≡ next a w)
  go_on-document (ok a) w u h = (a, refl, refl)
  go_on-document (err e) w u h = absurd (IsError-ne-document (refuse e) (u e) h)
  go_on-document (panicked m) w u h = cc

  -- A call that a handler survives, since it answers with a document, gave a value, and the handler
  -- went on with it.
  pub attempt-document :
      (m : M W A) (w : W) (result : Answer × W)
      → ((e : Error) → IsError (refuse e))
      → result ≡ attempt m refuse next w
      → result.0 ≡ answer (document content)
      → (a : A) × ((m w).0 ≡ ok a) × (result ≡ next a (m w).1)
  attempt-document m w result u e h =
      let (a, p, q) = go_on-document (m w).0 (m w).1 u (sym (ap (λ x. x.0) e) ∙ h) in (a, p, e ∙ q)
