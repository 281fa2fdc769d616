-- ===== src/Base/Errors.antt =====
-- Go errors as values: the sentinels that the source declares, the wrapping by fmt.Errorf with %w,
-- and errors.Is over the chain of wrappings.
use Prim.Native.Nat.{ℕ}
use Prim.Native.String.{String}
use mathlib.Core.Path.{◌≡◌, refl}
use mathlib.Core.Bool.{Bool, true, false}
use mathlib.Core.Logic.{◌⊎◌, inl, inr}
use mathlib.Core.Option.{Option, none, some}
use spi_exata.Base.Tests.{◌==◌}

-- The error variables of userbus, tenantbus, dashboardbus, sqldb, auth and keystore.
pub data Sentinel : Type 0 where
  user_not_found unique_email unique_phone authentication_failure : Sentinel
  tenant_not_found domain_not_found access_denied unique_slug : Sentinel
  dashboard_not_found : Sentinel
  db_not_found undefined_table : Sentinel
  forbidden kid_missing kid_malformed user_disabled invalid_role : Sentinel
  key_not_found : Sentinel

abbrev pub index : Sentinel → ℕ
index user_not_found = 0
index unique_email = 1
index unique_phone = 2
index authentication_failure = 3
index tenant_not_found = 4
index domain_not_found = 5
index access_denied = 6
index unique_slug = 7
index dashboard_not_found = 8
index db_not_found = 9
index undefined_table = 10
index forbidden = 11
index kid_missing = 12
index kid_malformed = 13
index user_disabled = 14
index invalid_role = 15
index key_not_found = 16

pub data Error : Type 0 where
  -- one of the error variables
  sentinel : Sentinel → Error
  -- errors.New, or fmt.Errorf that wraps nothing: its text, without the values printed in it
  text : String → Error
  -- fmt.Errorf("invalid <kind> %q", value) of the parsers
  invalid : String → String → Error
  -- fmt.Errorf("<prefix>: %w", err)
  wrap : String → Error → Error
  -- sqldb.ErrDBDuplicatedEntry{Column}
  duplicated_entry : String → Error
  -- an error made outside the repository
  foreign : ℕ → Error

-- errors.Is(err, target) for a sentinel target
unfoldable pub is_error : Error → Sentinel → Bool
is_error (sentinel s) t = index s == index t
is_error (wrap _ e) t = is_error e t
is_error _ t = false

-- errors.As(err, &dupErr): the column of the first duplicated entry of the chain
unfoldable pub as_duplicate : Error → Option String
as_duplicate (duplicated_entry column) = some column
as_duplicate (wrap _ e) = as_duplicate e
as_duplicate _ = none

-- A Go function's result: a value, an error, or a panic.
pub data Result {ℓ} (A : Type ℓ) : Type ℓ where
  ok : A → Result A
  err : Error → Result A
  panicked : String → Result A

abbrev pub is_ok {ℓ} : {A : Type ℓ} → Result A → Bool
is_ok (ok a) = true
is_ok (err e) = false
is_ok (panicked m) = false

pub Result-cases {ℓ} :
    {A : Type ℓ} (r : Result A)
    → ((a : A) × (r ≡ ok a)) ⊎ (((e : Error) × (r ≡ err e)) ⊎ ((m : String) × (r ≡ panicked m)))
Result-cases (ok a) = inl (a, refl)
Result-cases (err e) = inr (inl (e, refl))
Result-cases (panicked m) = inr (inr (m, refl))

-- The value of a result that has one.
pub value_of {ℓ} : {A : Type ℓ} (r : Result A) → is_ok r ≡ true → (a : A) × (r ≡ ok a)
value_of (ok a) h = (a, refl)
value_of (err e) h = cc
value_of (panicked m) h = cc

abbrev pub map_error {ℓ} : {A : Type ℓ} → (Error → Error) → Result A → Result A
map_error f (ok a) = ok a
map_error f (err e) = err (f e)
map_error f (panicked m) = panicked m

-- What a caller writes as `if err != nil { return ..., err }`.
infixl 5 ◌>>=◌
abbrev pub ◌>>=◌ {ℓ κ} : {A : Type ℓ} {B : Type κ} → Result A → (A → Result B) → Result B
ok a >>= f = f a
err e >>= f = err e
panicked m >>= f = panicked m

-- `if err != nil { return ..., fmt.Errorf("<prefix>: %w", err) }`
abbrev pub wrapping {ℓ} : {A : Type ℓ} → String → Result A → Result A
wrapping prefix (ok a) = ok a
wrapping prefix (err e) = err (wrap prefix e)
wrapping prefix (panicked m) = panicked m

pub wrapping-eq-ok {ℓ} :
    {A : Type ℓ} (prefix : String) (res : Result A) (a : A)
    → wrapping prefix res ≡ ok a
    → res ≡ ok a
wrapping-eq-ok prefix (ok x) a h = h
wrapping-eq-ok prefix (err e) a h = cc
wrapping-eq-ok prefix (panicked m) a h = cc

-- A successful chain: its first step succeeded.
pub >>=-eq-ok :
    {A B : Type 0} {g : A → Result B} {z : B} (r : Result A)
    → r >>= g ≡ ok z
    → (x : A) × (g x ≡ ok z) × (r ≡ ok x)
>>=-eq-ok (err _) e = cc
>>=-eq-ok (panicked _) e = cc
>>=-eq-ok (ok x) e = (x, e, refl)
