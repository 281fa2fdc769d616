-- ===== src/Tests/Keys.antt =====
-- A key store with a library whose keys are their own PEM texts.
use spi_exata.Base.{
  String, ◌≡◌, refl, Bool, true, false, none, some, List, [], ◌∷◌, ◌is◌, if◌then◌else◌, length,
}
use spi_exata.Base.Errors.{text, Result, ok, err}
use spi_exata.Keystore.{
  Crypto, Document, Visit, to_public_pem, load_by_json, load_by_file_system, put,
}
use spi_exata.Base.Strings.{ext_from, trim_suffix}
use spi_exata.Keystore.Laws.{IsSound}
use spi_exata.Keystore.Loading.{loads-IsSound}
use spi_exata.Keystore.Walking.{IsLatest, load_by_file_system-IsLatest}

abbrev crypto : Crypto String String String
crypto = record {
  decode = λ s. if s is "" then none else some s;
  parse_pkcs1 = λ b. err (text "not PKCS1");
  parse_pkcs8 = λ b. ok b;
  as_rsa = λ k. some k;
  marshal_public = λ r. ok r;
  encode = λ kind b. ok b;
}

abbrev unmarshal : String → Result Document
unmarshal s = ok (record { key = "k"; pem = s })

loaded : (load_by_json crypto unmarshal "pem" []).0 ≡ ok (1, none)
unfolding load_by_json to_public_pem put
loaded = refl

abbrev file : String → String → Bool → Visit
file path base is_dir = record {
  file_name = path;
  walk_error = none;
  entry_name = base;
  is_dir = is_dir;
  opened = ok (λ n. ok path);
}

-- A directory with a key, a note and another key of the same kid.
abbrev walk : List Visit
walk =
    file "." "." true
    ∷ file "a.pem" "a.pem" false
    ∷ file "note.txt" "note.txt" false
    ∷ file "old/a.pem" "a.pem" false
    ∷ []

walked : (load_by_file_system crypto walk []).0 ≡ ok (1, none)
unfolding load_by_file_system ext_from to_public_pem put trim_suffix
walked = refl

load_by_file_system-IsLatest_example :
    ((kid : String) → IsLatest crypto kid walk [] (load_by_file_system crypto walk []).1)
    × (1 ≡ length (load_by_file_system crypto walk []).1)
load_by_file_system-IsLatest_example = load_by_file_system-IsLatest crypto walk [] 1 walked

loads-IsSound_example :
    IsSound crypto (load_by_json crypto unmarshal "pem" []).1
    × IsSound crypto (load_by_file_system crypto walk []).1
loads-IsSound_example = loads-IsSound crypto unmarshal "pem" walk [] (tt, λ kid key h. cc)
