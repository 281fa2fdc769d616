-- ===== src/Keystore.antt =====
-- foundation/keystore/keystore.go. Decoding PEM and keys, JSON and the file system are parameters; the
-- lock of the store, which each operation holds while it reads or writes the map, is not modelled.
pub mod Laws
pub mod Loading
pub mod Walking
use spi_exata.Base.{
  ℕ, ◌*◌, String, Bool, not, ◌&&◌, Option, none, some, List, [], ◌∷◌, ◌is◌, if◌then◌else◌, length,
  lookup,
}
use spi_exata.Base.Errors.{key_not_found, Error, sentinel, text, wrap, Result, ok, err, panicked}
use spi_exata.Base.Errors.{◌>>=◌, wrapping}
use spi_exata.Base.State.{M}
use spi_exata.Base.State
use spi_exata.Base.Strings.{ext, trim_suffix}
use spi_exata.Auth.{KeyLookup}

pub record Key : Type 0 where
  pub private_pem : String
  pub public_pem : String

-- KeyStore: the map, with each kid once
abbrev pub KeyStore : Type 0
KeyStore = List (String × Key)

-- New
abbrev pub new : KeyStore
new = []

-- `ks.store[kid] = key`
unfoldable pub put : String → Key → KeyStore → KeyStore
put kid key [] = (kid, key) ∷ []
put kid key ((k, old) ∷ ks) =
    let rest = put kid key ks in if k is kid then (k, key) ∷ ks else (k, old) ∷ rest

-- encoding/pem, crypto/x509 and crypto/rsa: `B` are bytes, `K` the keys in PKCS8, `R` RSA private keys
pub record Crypto (B K R : Type 0) : Type 0 where
  pub decode : String → Option B
  pub parse_pkcs1 : B → Result R
  pub parse_pkcs8 : B → Result K
  pub as_rsa : K → Option R
  pub marshal_public : R → Result B
  pub encode : String → B → Result String

-- what json.Unmarshal makes of a document: the kid and the PEM
pub record Document : Type 0 where
  pub key : String
  pub pem : String

-- One call that fs.WalkDir makes, and what opening the file and reading a number of bytes give.
pub record Visit : Type 0 where
  pub file_name : String
  pub walk_error : Option Error
  pub entry_name : String
  pub is_dir : Bool
  pub opened : Result (ℕ → Result String)

abbrev pub max_pem_file_size : ℕ
max_pem_file_size = 1024 * 1024

module _ {B K R : Type 0} (crypto : Crypto B K R) where
  -- an RSA key, or the result of an assertion on another one
  abbrev parse_key : B → Result (Option R)
  parse_key block = elim (crypto.parse_pkcs1 block) [
    | ok r ↦ ok (some r)
    | panicked m ↦ panicked m
    | err _ ↦ do
      k ← wrapping "failed to parse private key as PKCS1 or PKCS8" (crypto.parse_pkcs8 block)
      ok (crypto.as_rsa k)
  ]

  abbrev require {ℓ} : {A : Type ℓ} → String → Option A → Result A
  require missing none = err (text missing)
  require missing (some a) = ok a

  -- toPublicPEM
  unfoldable pub to_public_pem : String → Result String
  to_public_pem private_pem = do
    block ←
        require "invalid key: Key must be a PEM encoded PKCS1 or PKCS8 key"
          (crypto.decode private_pem)
    parsed ← parse_key block
    pk ← require "key is not a valid RSA private key" parsed
    asn1 ← wrapping "marshaling public key" (crypto.marshal_public pk)
    wrapping "encoding to public PEM" (crypto.encode "PUBLIC KEY" asn1)

  abbrev pub convert : String → Result Key
  convert pem = do
    public_pem ← wrapping "converting private PEM to public" (to_public_pem pem)
    ok (record { private_pem = pem; public_pem = public_pem })

  abbrev pub store_key : String → Result Key → M KeyStore (Unit {0})
  store_key kid (ok key) ks = (ok tt, put kid key ks)
  store_key kid (err e) ks = (err e, ks)
  store_key kid (panicked m) ks = (panicked m, ks)

  -- the number that a load returns, and its error
  abbrev pub counted : ℕ → Result (Unit {0}) × KeyStore → Result (ℕ × Option Error) × KeyStore
  counted failed (ok _, ks) = (ok (length ks, none), ks)
  counted failed (err e, ks) = (ok (failed, some e), ks)
  counted failed (panicked m, ks) = (panicked m, ks)

  -- LoadByJSON, after the document was found not to be empty
  abbrev pub load_document : Result Document → M KeyStore (ℕ × Option Error)
  load_document (ok d) ks = counted 0 (store_key d.key (convert d.pem) ks)
  load_document (err e) ks = (ok (length ks, some (wrap "unable to marshal document" e)), ks)
  load_document (panicked m) ks = (panicked m, ks)

  unfoldable pub load_by_json : (String → Result Document) → String → M KeyStore (ℕ × Option Error)
  load_by_json unmarshal document ks =
      if document is "" then (ok (0, none), ks) else load_document (unmarshal document) ks

  -- the file's content, up to the limit, and its key
  abbrev pub read_key : Visit → Result Key
  read_key visit = do
    read ← wrapping "opening key file" visit.opened
    pem ← wrapping "reading auth private key" (read max_pem_file_size)
    convert pem

  abbrev pub kid_of : Visit → String
  kid_of visit = trim_suffix visit.entry_name ".pem"

  abbrev pub is_pem : Visit → Bool
  is_pem visit = not visit.is_dir && (ext visit.file_name is ".pem")

  -- the function that walks, without the error it is called with
  pub visit_entry : Visit → M KeyStore (Unit {0})
  visit_entry visit ks =
      if visit.is_dir
      then (ok tt, ks)
      else if not (ext visit.file_name is ".pem")
      then (ok tt, ks)
      else store_key (kid_of visit) (read_key visit) ks

  pub visit_file : Visit → M KeyStore (Unit {0})
  unfolding visit_entry
  visit_file visit ks = elim visit.walk_error [
    | some e ↦ (err (wrap "walkdir failure" e), ks)
    | none ↦ visit_entry visit ks
  ]

  -- fs.WalkDir, which stops at the first error
  pub walk_dir : List Visit → M KeyStore (Unit {0})
  unfolding visit_file
  walk_dir [] = State.return tt
  walk_dir (visit ∷ visits) = State.◌>>◌ (visit_file visit) (walk_dir visits)

  -- LoadByFileSystem
  unfoldable pub load_by_file_system : List Visit → M KeyStore (ℕ × Option Error)
  unfolding walk_dir
  load_by_file_system visits ks =
      counted 0 (State.wrapping "walking directory" (walk_dir visits) ks)

-- PrivateKey and PublicKey
pub private_key : String → KeyStore → Result String
private_key kid ks = elim (lookup kid ks) [
  | none ↦ err (sentinel key_not_found)
  | some key ↦ ok key.private_pem
]

pub public_key : String → KeyStore → Result String
public_key kid ks = elim (lookup kid ks) [
  | none ↦ err (sentinel key_not_found)
  | some key ↦ ok key.public_pem
]

-- The store as the key lookup of the authentication, where the world holds it.
abbrev pub key_lookup : {W : Type 0} → (W → KeyStore) → KeyLookup W
key_lookup keys = record {
  private_key = λ kid w. (private_key kid (keys w), w);
  public_key = λ kid w. (public_key kid (keys w), w);
}
