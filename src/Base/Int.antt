-- ===== src/Base/Int.antt =====
-- Go's int, 64 bits wide: integers over the native numbers, and strconv.Atoi.
use spi_exata.Base.Errors.{text, Result, ok, err}
use spi_exata.Base.Strings.{codes}
use spi_exata.Base.Tests.{◌==◌, ltb, leb, if◌then◌else◌}
use Prim.Native.Nat.{ℕ, zero, suc, ◌+◌, ◌-◌, ◌*◌, ◌%◌, ◌^◌}
use Prim.Native.String.{String}
use mathlib.Core.Bool.{Bool, true, ◌&&◌}
use mathlib.Core.Option.{Option, none, some}
use mathlib.Core.List.{List, [], ◌∷◌}

-- `negsuc n` is -(n + 1).
pub data ℤ : Type 0 where
  pos : ℕ → ℤ
  negsuc : ℕ → ℤ

-- -n, for a natural number
abbrev pub neg : ℕ → ℤ
neg zero = pos 0
neg (suc n) = negsuc n

-- The 64-bit pattern of an integer, and the int that a pattern stands for.
abbrev pub to_word : ℤ → ℕ
to_word (pos n) = n % 2 ^ 64
to_word (negsuc n) = 2 ^ 64 - 1 - n % 2 ^ 64

abbrev pub of_word : ℕ → ℤ
of_word u = if ltb u (2 ^ 63) then pos u else negsuc (2 ^ 64 - 1 - u)

-- `a - 1` and `a * b` on int wrap around.
unfoldable pub sub_one : ℤ → ℤ
sub_one a = of_word ((to_word a + (2 ^ 64 - 1)) % 2 ^ 64)

infixl 70 ◌*ℤ◌
unfoldable pub ◌*ℤ◌ : ℤ → ℤ → ℤ
◌*ℤ◌ a b = of_word (to_word a * to_word b % 2 ^ 64)

abbrev pub is_le_zero : ℤ → Bool
is_le_zero (pos n) = leb n 0
is_le_zero (negsuc n) = true

-- the value of a row of digits after those read before, if all are digits
digits_from : ℕ → List ℕ → Option ℕ
digits_from acc [] = some acc
digits_from acc (c ∷ s) =
    let rest = digits_from (acc * 10 + (c - 48)) s in if leb 48 c && leb c 57 then rest else none

abbrev digits : List ℕ → Option ℕ
digits [] = none
digits (c ∷ s) = digits_from 0 (c ∷ s)

abbrev positive : Option ℕ → Option ℤ
positive none = none
positive (some n) = if ltb n (2 ^ 63) then some (pos n) else none

abbrev negative : Option ℕ → Option ℤ
negative none = none
negative (some n) = if leb n (2 ^ 63) then some (neg n) else none

abbrev signed : List ℕ → Option ℤ
signed [] = none
signed (c ∷ s) =
    if c == b'+'
    then positive (digits s)
    else if c == b'-'
    then negative (digits s)
    else positive (digits (c ∷ s))

-- strconv.Atoi: an optional sign and decimal digits, in the range of int
unfoldable pub atoi : String → Result ℤ
unfolding digits_from
atoi s = elim (signed (codes s)) [ none ↦ err (text "strconv.Atoi") | some z ↦ ok z ]
