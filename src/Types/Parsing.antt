-- ===== src/Types/Parsing.antt =====
-- What the parsers of business/types accept, in terms of lengths and characters.
use spi_exata.Base.{
  refl, inl, inr, ◌||◌, ◌==◌, ◌&&◌, ℕ, zero, suc, String, Bool, true, false, List, [], ◌∷◌, ◌+◌,
  ◌≤◌, ◌≡◌, ◌≢◌, ◌↔◌, ◌⊎◌, arith, length, all, eq_iff,
}
use spi_exata.Base.Strings.{codes}
use spi_exata.Base.Errors.{ok}
use spi_exata.Types.Regex.{optional, repeated, matches}
use spi_exata.Types.Name
use spi_exata.Types.Name.{Name, is_letter, is_name_char, name_regex}
use spi_exata.Types.Phone
use spi_exata.Types.Phone.{Phone, is_phone_char, phone_regex}
use spi_exata.Types.Password
use spi_exata.Types.Password.{Password, is_password_char, password_regex}
use spi_exata.Types.Enums.{Role, parse_role}

module _ (class : ℕ → Bool) where
  -- `least` to `most` characters, all of the class
  abbrev pub Within : ℕ → ℕ → List ℕ → Type 0
  Within least most s = (least ≤ length s) × (length s ≤ most) × (all class s ≡ true)

  optional-matches_iff :
      (n : ℕ) (s : List ℕ) → (optional class (matches []) n s ≡ true) ↔ Within 0 n s
  unfolding optional matches
  optional-matches_iff zero [] = ground arith
  optional-matches_iff zero (c ∷ s) = ground arith
  optional-matches_iff (suc n) [] = ground arith
  optional-matches_iff (suc n) (c ∷ s) = ground (arith, optional-matches_iff n s)

  pub repeated-matches_iff :
      (k n : ℕ) (s : List ℕ) → (repeated class (matches []) k n s ≡ true) ↔ Within k (k + n) s
  unfolding repeated
  repeated-matches_iff zero n s = ground (arith, optional-matches_iff n s)
  repeated-matches_iff (suc k) n [] = ground arith
  repeated-matches_iff (suc k) n (c ∷ s) = ground (arith, repeated-matches_iff k n s)

-- A letter, then 2 to 19 letters, digits, quotes, spaces or dashes.
abbrev pub IsName : List ℕ → Type 0
IsName [] = ⊥
IsName (c ∷ s) = (is_letter c ≡ true) × Within is_name_char 2 19 s

matches-name_regex_iff : (s : List ℕ) → (matches name_regex s ≡ true) ↔ IsName s
unfolding matches
matches-name_regex_iff [] = ground arith
matches-name_regex_iff (c ∷ s) = ground (arith, repeated-matches_iff is_name_char 2 17 s)

-- An optional plus sign, then 3 to 20 digits, white space characters or dashes.
abbrev pub IsPhone : List ℕ → Type 0
IsPhone [] = ⊥
IsPhone (c ∷ s) = ((c ≡ b'+') × Within is_phone_char 3 20 s) ⊎ Within is_phone_char 3 20 (c ∷ s)

module _ (sign class : ℕ → Bool) where
  matches-signed :
      (c : ℕ) (s : List ℕ)
      → matches
          (record { class = sign; least = 0; extra = 1 }
            ∷ record { class = class; least = 3; extra = 17 }
            ∷ [])
          (c ∷ s)
        ≡ (repeated class (matches []) 3 17 (c ∷ s) || sign c && repeated class (matches []) 3 17 s)
  unfolding matches
  matches-signed c s = refl

  matches-signed_iff :
      (c : ℕ) (s : List ℕ)
      → (matches
            (record { class = sign; least = 0; extra = 1 }
              ∷ record { class = class; least = 3; extra = 17 }
              ∷ [])
            (c ∷ s)
          ≡ true)
        ↔ (((sign c ≡ true) × Within class 3 20 s) ⊎ Within class 3 20 (c ∷ s))
  matches-signed_iff c s =
      rw matches-signed
        (ground (arith, repeated-matches_iff class 3 17 s, repeated-matches_iff class 3 17 (c ∷ s)))

equal_iff : (a b : ℕ) → ((a == b) ≡ true) ↔ (a ≡ b)
equal_iff a b = ground arith

empty-not_phone : matches phone_regex [] ≢ true
unfolding matches
empty-not_phone = cc

matches-phone_regex_iff : (s : List ℕ) → (matches phone_regex s ≡ true) ↔ IsPhone s
matches-phone_regex_iff [] = ((λ h. absurd (empty-not_phone h)), λ h. absurd h)
matches-phone_regex_iff (c ∷ s) =
    let (to, from) = matches-signed_iff (λ c. c == b'+') is_phone_char c s in
    (
      (λ h. elim (to h) [ inl p ↦ inl ((equal_iff c b'+').0 p.0, p.1) | inr q ↦ inr q ]),
      λ h. from (elim h [ inl p ↦ inl ((equal_iff c b'+').1 p.0, p.1) | inr q ↦ inr q ]),
    )

-- name.Parse gives a name exactly for a text that is a letter followed by 2 to 19 letters, digits,
-- quotes, spaces or dashes, and the name is that text.
pub parse_name_iff :
    (v : String) (n : Name) → (Name.parse v ≡ ok n) ↔ ((n.value ≡ v) × IsName (codes v))
unfolding Name.parse
parse_name_iff v n = ground (arith, matches-name_regex_iff (codes v))

-- phone.ParseNull gives the invalid null phone for the empty text, a valid phone that is the text
-- for one to three: a plus sign, at most, and 3 to 20 digits, white space characters or dashes;
-- and nothing else.
pub parse_null_iff :
    (v : String) (p : Phone.Null)
    → (Phone.parse_null v ≡ ok p) ↔ (
        ((v ≡ "") × (p.value ≡ "") × (p.valid ≡ false))
        ⊎ ((v ≢ "") × IsPhone (codes v) × (p.value ≡ v) × (p.valid ≡ true)))
unfolding Phone.parse_null
parse_null_iff v p = ground (arith, matches-phone_regex_iff (codes v), eq_iff v "")

-- password.ParseConfirm gives a password exactly when both texts are the same 3 to 19 letters,
-- digits or characters of "#@!-", and the password is that text.
pub parse_confirm_iff :
    (pass confirm : String) (p : Password)
    → (Password.parse_confirm pass confirm ≡ ok p)
      ↔ ((p.value ≡ pass) × (confirm ≡ pass) × Within is_password_char 3 19 (codes pass))
unfolding Password.parse_confirm Password.parse matches
parse_confirm_iff pass confirm p =
    ground (arith, repeated-matches_iff is_password_char 3 16 (codes pass), eq_iff pass confirm)

-- role.Parse gives a role exactly for the three registered names, and the role is its name.
pub parse_role_iff :
    (v : String) (r : Role)
    → (parse_role v ≡ ok r) ↔ ((r.value ≡ v) × ((v ≡ "ANALYST") ⊎ ((v ≡ "ADMIN") ⊎ (v ≡ "USER"))))
unfolding parse_role
parse_role_iff v r = ground (arith, eq_iff "ANALYST" v, eq_iff "ADMIN" v, eq_iff "USER" v)
