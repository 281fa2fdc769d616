-- ===== src/Base/Strings.antt =====
-- The functions of Go's package strings that the program calls, over code points. A Go string is
-- taken as valid UTF-8, so cutting it at ASCII separators cuts it between code points.
use Prim.Native.Char.{Char, code}
use Prim.Native.Nat.{ℕ, zero, suc, ◌+◌}
use Prim.Native.String.{String}
use Prim.Native.String
use text.Mathlib.Text
use mathlib.Core.Bool.{Bool, true, false, ◌&&◌, ◌||◌}
use mathlib.Core.Path.{◌≡◌, refl}
use mathlib.Core.Logic.{◌≢◌}
use native.Mathlib.Omega.{arith}
use mathlib.Core.List.{List, [], ◌∷◌, reverse}
use spi_exata.Base.Tests.{◌==◌, ◌is◌, leb, if◌then◌else◌}

-- The code points of a text: its bytes, if it is ASCII.
abbrev pub codes : String → List ℕ
codes String.[] = []
codes (String.◌∷◌ c s) = code c ∷ codes s

abbrev pub chars : String → List Char
chars String.[] = []
chars (String.◌∷◌ c s) = c ∷ chars s

abbrev pub of_chars : List Char → String
of_chars [] = String.[]
of_chars (c ∷ cs) = String.◌∷◌ c (of_chars cs)

infixl 65 ◌<>◌
abbrev pub ◌<>◌ : String → String → String
◌<>◌ = String.◌++◌

-- strings.Split(s, sep) for a separator of one character: the pieces between the separators.
split_from : List Char → ℕ → List Char → List String
split_from cur sep [] = of_chars (reverse cur) ∷ []
split_from cur sep (c ∷ s) =
    let closed = of_chars (reverse cur) ∷ split_from [] sep s in
    let longer = split_from (c ∷ cur) sep s in if code c == sep then closed else longer

unfoldable pub split : String → ℕ → List String
unfolding split_from
split s sep = split_from [] sep (chars s)

split_from-ne-nil : (cur : List Char) (sep : ℕ) (s : List Char) → split_from cur sep s ≢ []
unfolding split_from
split_from-ne-nil cur sep [] = cc
split_from-ne-nil cur sep (c ∷ s) = ground (arith, split_from-ne-nil (c ∷ cur) sep s)

pub split-ne-nil : (s : String) (sep : ℕ) → split s sep ≢ []
unfolding split
split-ne-nil s sep = split_from-ne-nil [] sep (chars s)

-- unicode.IsSpace
abbrev pub is_space : ℕ → Bool
is_space c =
    leb 9 c && leb c 13
    || c == 32
    || c == 0x85
    || c == 0xa0
    || c == 0x1680
    || leb 0x2000 c && leb c 0x200a
    || c == 0x2028
    || c == 0x2029
    || c == 0x202f
    || c == 0x205f
    || c == 0x3000

trim_left : List Char → List Char
trim_left [] = []
trim_left (c ∷ s) = let rest = trim_left s in if is_space (code c) then rest else c ∷ s

-- strings.TrimSpace
unfoldable pub trim_space : String → String
unfolding trim_left
trim_space s = of_chars (reverse (trim_left (reverse (trim_left (chars s)))))

-- The text is the lower-case ASCII word, up to the case of ASCII letters: what comparing
-- strings.ToLower(s) with such a word comes to.
abbrev pub lower : ℕ → ℕ
lower c = if leb 65 c && leb c 90 then c + 32 else c

unfoldable pub folds_to : List ℕ → List ℕ → Bool
folds_to [] [] = true
folds_to (c ∷ s) (d ∷ w) = lower c == d && folds_to s w
folds_to _ _ = false

-- strings.HasPrefix
abbrev pub has_prefix : String → String → Bool
has_prefix = Text.starts_with

-- s[n:], for a text that begins with n ASCII characters
unfoldable pub drop : ℕ → String → String
drop zero s = s
drop (suc n) String.[] = String.[]
drop (suc n) (String.◌∷◌ c s) = drop n s

-- path.Ext: the end of the text from the last dot after the last slash, or nothing
unfoldable pub ext_from : String → String → String
ext_from best String.[] = best
ext_from best (String.◌∷◌ c s) =
    let best' = if code c == b'/' then "" else if code c == b'.' then String.◌∷◌ c s else best in
    ext_from best' s

abbrev pub ext : String → String
ext s = ext_from "" s

-- strings.TrimSuffix
unfoldable pub trim_suffix : String → String → String
trim_suffix String.[] suffix = String.[]
trim_suffix (String.◌∷◌ c s) suffix =
    let rest = trim_suffix s suffix in
    if String.◌∷◌ c s is suffix then String.[] else String.◌∷◌ c rest

ext_test : (ext "keys/a.b.pem" ≡ ".pem") × (ext "a.pem/b" ≡ "")
unfolding ext_from
ext_test = (refl, refl)

trim_suffix_test : (trim_suffix "a.pem" ".pem" ≡ "a") × (trim_suffix ".pem.x" ".pem" ≡ ".pem.x")
unfolding trim_suffix
trim_suffix_test = (refl, refl)

split_test : split "user_id, ASC" b',' ≡ "user_id" ∷ " ASC" ∷ []
unfolding split
split_test = refl

trim_test : trim_space " a b\t " ≡ "a b"
unfolding trim_space
trim_test = refl
