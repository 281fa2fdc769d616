-- ===== src/Logger/BuildInfo.antt =====
-- foundation/logger/debug.go: what the binary tells of how it was built. Reading that and strconv.Quote
-- are parameters.
use spi_exata.Base.{
  ℕ, String, Bool, ◌==◌, ◌||◌, ◌is◌, any, Option, none, some, List, [], ◌∷◌, ◌++◌, if◌then◌else◌,
}
use spi_exata.Base.Strings.{codes}
use spi_exata.Logger.{Arg, Slog}
use spi_exata.Logger.Writing.{Logger, info, warn}

-- debug.BuildInfo: its settings, the version of Go, and that of the main module
pub record Info : Type 0 where
  pub settings : List (String × String)
  pub go_version : String
  pub version : String

-- strings.ContainsAny, over code points
abbrev pub contains_any : String → List ℕ → Bool
contains_any s cs = any (λ c. any (λ d. c == d) cs) (codes s)

-- the characters " \t\r\n\"`"
abbrev pub special : List ℕ
special = 32 ∷ 9 ∷ 13 ∷ 10 ∷ 34 ∷ 96 ∷ []

unfoldable pub quote_key : String → Bool
quote_key key = key is "" || contains_any key (b'=' ∷ special)

unfoldable pub quote_value : String → Bool
quote_value value = contains_any value special

module _ (quote : String → String) where
  -- the loop over the settings
  unfoldable pub setting_args : List (String × String) → List Arg
  setting_args [] = []
  setting_args ((key, value) ∷ settings) =
      Arg.string (if quote_key key then quote key else key)
      ∷ Arg.string (if quote_value value then quote value else value)
      ∷ setting_args settings

  abbrev pub info_args : Info → List Arg
  info_args i =
      setting_args i.settings
      ++ (Arg.string "goversion"
          ∷ Arg.string i.go_version
          ∷ Arg.string "modversion"
          ∷ Arg.string i.version
          ∷ [])

  -- BuildInfo, told what debug.ReadBuildInfo gives
  unfoldable pub build_info :
      {W C H O : Type 0} → Slog W C H O → Option Info → Logger W C H → C → W → W
  build_info s none log ctx w = warn s log ctx "build info not available" [] w
  build_info s (some i) log ctx w = info s log ctx "build info" (info_args i) w
