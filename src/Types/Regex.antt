-- ===== src/Types/Regex.antt =====
-- The regular expressions of business/types: `^`, a row of character classes with bounds on how
-- often each repeats, `$`. Go's MatchString asks whether the whole text is in the language.
use spi_exata.Base.{ℕ, zero, suc, Bool, true, false, List, [], ◌∷◌, ◌&&◌, ◌||◌}

-- A class of code points, repeated between `least` and `least + extra` times.
pub record Item : Type 0 where
  pub class : ℕ → Bool
  pub least : ℕ
  pub extra : ℕ

abbrev pub Regex : Type 0
Regex = List Item

-- One class at its bounds, then the rest of the expression.
module _ (class : ℕ → Bool) (rest : List ℕ → Bool) where
  -- up to `extra` more characters of the class
  unfoldable pub optional : ℕ → List ℕ → Bool
  optional zero s = rest s
  optional (suc n) [] = rest []
  optional (suc n) (c ∷ s) = let later = optional n s in rest (c ∷ s) || class c && later

  unfoldable pub repeated : ℕ → ℕ → List ℕ → Bool
  repeated zero extra s = optional extra s
  repeated (suc n) extra [] = false
  repeated (suc n) extra (c ∷ s) = class c && repeated n extra s

abbrev ends : List ℕ → Bool
ends [] = true
ends (_ ∷ _) = false

unfoldable pub matches : Regex → List ℕ → Bool
unfolding optional repeated
matches [] s = ends s
matches (item ∷ items) s = repeated item.class (matches items) item.least item.extra s
