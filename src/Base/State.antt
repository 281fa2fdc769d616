-- ===== src/Base/State.antt =====
-- Computations that read and write a state of the world and end as a Go function does. The state
-- after an error or a panic is kept: Go undoes nothing.
use Prim.Native.String.{String}
use spi_exata.Base.Errors.{Error, Result, ok, err, panicked}
use spi_exata.Base.Errors

abbrev pub M : Type 0 → Type 0 → Type 0
M W A = W → Result A × W

module _ {W : Type 0} {A B : Type 0} where
  -- the rest of a computation, after its first step
  abbrev pub continue : Result A → W → (A → M W B) → Result B × W
  continue (ok a) w f = f a w
  continue (err e) w f = (err e, w)
  continue (panicked m) w f = (panicked m, w)

  infixl 5 ◌>>=◌
  abbrev pub ◌>>=◌ : M W A → (A → M W B) → M W B
  ◌>>=◌ m f w = let (r, w') = m w in continue r w' f

module _ {W : Type 0} {A : Type 0} where
  infixl 5 ◌>>◌
  abbrev pub ◌>>◌ : M W (Unit {0}) → M W A → M W A
  m >> k = m >>= λ _. k

  abbrev pub return : A → M W A
  return a w = (ok a, w)

  abbrev pub fail : Error → M W A
  fail e w = (err e, w)

  -- a step that cannot fail
  abbrev pub step : (W → A × W) → M W A
  step f w = let (a, w') = f w in (ok a, w')

  -- a computation that does not touch the world
  abbrev pub lift : Result A → M W A
  lift r w = (r, w)

  -- `if err != nil { return ..., fmt.Errorf("<prefix>: %w", err) }`
  abbrev pub wrapping : String → M W A → M W A
  wrapping prefix m w = let (r, w') = m w in (Errors.wrapping prefix r, w')

  -- an error that is turned into another one
  abbrev pub replacing : (Error → Error) → M W A → M W A
  replacing f m w = let (r, w') = m w in (Errors.map_error f r, w')

  -- `defer f()`, and what follows it: `f` is called however that ends
  abbrev pub deferring : (W → W) → M W A → M W A
  deferring f m w = let (r, w') = m w in (r, f w')

  -- the same for a call that may panic too; another error of it is dropped
  abbrev pub deferring_call : M W (Unit {0}) → M W A → M W A
  deferring_call f m w =
      let (r, w') = m w in
      let (d, w2) = f w' in (elim d [ ok _ ↦ r | err _ ↦ r | panicked p ↦ panicked p ], w2)
