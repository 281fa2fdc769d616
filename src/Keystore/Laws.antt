-- ===== src/Keystore/Laws.antt =====
-- The map of the key store: what putting a key changes, and what every store that is loaded keeps.
use spi_exata.Base.{
  String, ◌≡◌, refl, sym, ap, ◌∙◌, ◌≢◌, ◌⊎◌, inl, inr, Option, none, some, [], ◌∷◌, arith, eq_iff,
  eq_refl, ◌is◌, Bool-cases, lookup,
}
use spi_exata.Base.Errors.{Error, Result, ok, err, panicked}
use spi_exata.Base.Errors.{Result-cases, >>=-eq-ok, wrapping, wrapping-eq-ok}
use spi_exata.Keystore.{
  Key, KeyStore, put, Crypto, to_public_pem, store_key, parse_key, require, convert, private_key,
  public_key,
}

pub lookup-put : (kid : String) (key : Key) (ks : KeyStore) → lookup kid (put kid key ks) ≡ some key
unfolding put
lookup-put kid key [] = ground (arith, eq_refl kid)
lookup-put kid key ((k, old) ∷ ks) = elim (Bool-cases (k is kid)) [
  | inl same ↦ rw (same, same) refl
  | inr differ ↦ rw (differ, differ) (lookup-put kid key ks)
]

pub lookup-put_other :
    (kid other : String) (key : Key) (ks : KeyStore)
    → other ≢ kid
    → lookup other (put kid key ks) ≡ lookup other ks
unfolding put
lookup-put_other kid other key [] h = elim (Bool-cases (kid is other)) [
  | inl same ↦ absurd (h (sym ((eq_iff kid other).0 same)))
  | inr differ ↦ rw differ refl
]
lookup-put_other kid other key ((k, old) ∷ ks) h = elim (Bool-cases (k is kid)) [
  | inl same ↦ rw same (elim (Bool-cases (k is other)) [
    | inl equal ↦ absurd (h (sym ((eq_iff k other).0 equal) ∙ (eq_iff k kid).0 same))
    | inr differ ↦ rw differ refl
  ])
  | inr differ ↦ rw differ (elim (Bool-cases (k is other)) [
    | inl equal ↦ rw equal refl
    | inr differs ↦ rw differs (lookup-put_other kid other key ks h)
  ])
]

-- Each kid stands in the map once.
abbrev IsOnce : KeyStore → Type 0
IsOnce [] = Unit {0}
IsOnce ((kid, key) ∷ ks) = (lookup kid ks ≡ none) × IsOnce ks

put-IsOnce : (kid : String) (key : Key) (ks : KeyStore) → IsOnce ks → IsOnce (put kid key ks)
unfolding put
put-IsOnce kid key [] once = (refl, tt)
put-IsOnce kid key ((k, old) ∷ ks) once = elim (Bool-cases (k is kid)) [
  | inl same ↦ rw same once
  | inr differ ↦
      let ne : k ≢ kid = λ e. ground (arith, eq_iff k kid) in
      rw differ (lookup-put_other kid k key ks ne ∙ once.0, put-IsOnce kid key ks once.1)
]

-- A private PEM and the public one of its key: the block of the first holds an RSA key, in PKCS1 or else
-- in PKCS8, and the second is the encoding of its public half.
pub record IsPair {B K R : Type 0} (crypto : Crypto B K R) (private_pem public_pem : String)
    : Type 0 where
  pub block : B
  pub decoded : crypto.decode private_pem ≡ some block
  pub key : R
  pub parsed :
      (crypto.parse_pkcs1 block ≡ ok key)
      ⊎ ((e : Error) × (k : K) × (crypto.parse_pkcs1 block ≡ err e)
          × (crypto.parse_pkcs8 block ≡ ok k)
          × (crypto.as_rsa k ≡ some key))
  pub asn1 : B
  pub marshalled : crypto.marshal_public key ≡ ok asn1
  pub encoded : crypto.encode "PUBLIC KEY" asn1 ≡ ok public_pem

-- Each public key of the store is the one of the private key beside it.
abbrev IsMatched : {B K R : Type 0} → Crypto B K R → KeyStore → Type 0
IsMatched crypto ks =
    (kid : String) (key : Key)
    → lookup kid ks ≡ some key
    → IsPair crypto key.private_pem key.public_pem

-- What loading keeps of a store.
abbrev pub IsSound : {B K R : Type 0} → Crypto B K R → KeyStore → Type 0
IsSound crypto ks = IsOnce ks × IsMatched crypto ks

module _ {B K R : Type 0} (crypto : Crypto B K R) where
  -- The key that convert makes.
  pub convert-eq-ok :
      (pem : String) (key : Key)
      → convert crypto pem ≡ ok key
      → (key.private_pem ≡ pem) × (to_public_pem crypto pem ≡ ok key.public_pem)
  convert-eq-ok pem key h = elim (Result-cases (to_public_pem crypto pem)) [
    | inl (p, e) ↦ let k = rw e at h in (ground arith, rw e (ground arith))
    | inr (inl (x, e)) ↦ let k = rw e at h in cc
    | inr (inr (m, e)) ↦ let k = rw e at h in cc
  ]

  require-eq-ok :
      {X : Type 0} (missing : String) (o : Option X) (x : X)
      → require crypto missing o ≡ ok x
      → o ≡ some x
  require-eq-ok missing none x h = cc
  require-eq-ok missing (some y) x h = ground arith

  parse_key-eq-ok :
      (block : B) (key : R)
      → parse_key crypto block ≡ ok (some key)
      → (crypto.parse_pkcs1 block ≡ ok key)
        ⊎ ((e : Error) × (k : K) × (crypto.parse_pkcs1 block ≡ err e)
            × (crypto.parse_pkcs8 block ≡ ok k)
            × (crypto.as_rsa k ≡ some key))
  parse_key-eq-ok block key h = elim (Result-cases (crypto.parse_pkcs1 block)) [
    | inl (r, e) ↦ inl (ground arith)
    | inr (inl (x, e)) ↦
        let (k, h', e') =
          >>=-eq-ok
            (wrapping "failed to parse private key as PKCS1 or PKCS8" (crypto.parse_pkcs8 block))
            (rw (parse_key, e) at h) in
        inr (x, k, e, wrapping-eq-ok _ _ k e', ground arith)
    | inr (inr (m, e)) ↦ let k = rw (parse_key, e) at h in cc
  ]

  -- What toPublicPEM gives is the other half.
  to_public_pem-IsPair :
      (private_pem public_pem : String)
      → to_public_pem crypto private_pem ≡ ok public_pem
      → IsPair crypto private_pem public_pem
  unfolding to_public_pem
  to_public_pem-IsPair private_pem public_pem h =
      let (block, h1, e1) = >>=-eq-ok (require crypto _ (crypto.decode private_pem)) h in
      let (parsed, h2, e2) = >>=-eq-ok (parse_key crypto block) h1 in
      let (pk, h3, e3) = >>=-eq-ok (require crypto _ parsed) h2 in
      let (asn1, h4, e4) =
        >>=-eq-ok (wrapping "marshaling public key" (crypto.marshal_public pk)) h3 in
      let found = require-eq-ok _ parsed pk e3 in
      record {
        block = block;
        decoded = require-eq-ok _ (crypto.decode private_pem) block e1;
        key = pk;
        parsed = parse_key-eq-ok block pk (e2 ∙ ap ok found);
        asn1 = asn1;
        marshalled = wrapping-eq-ok _ _ asn1 e4;
        encoded = wrapping-eq-ok _ _ public_pem h4;
      }

  put-IsSound :
      (kid : String) (key : Key) (ks : KeyStore)
      → to_public_pem crypto key.private_pem ≡ ok key.public_pem
      → IsSound crypto ks
      → IsSound crypto (put kid key ks)
  put-IsSound kid key ks e (once, matched) = (
    put-IsOnce kid key ks once,
    λ other k found. elim (Bool-cases (other is kid)) [
      | inl same ↦
          let is_kid = (eq_iff other kid).0 same in
          let found' : lookup kid (put kid key ks) ≡ some k = rw is_kid at found in
          let given : key ≡ k = ground (arith, lookup-put kid key ks) in
          rw (← given) (to_public_pem-IsPair key.private_pem key.public_pem e)
      | inr differ ↦
          let ne : other ≢ kid = λ q. ground (arith, eq_iff other kid) in
          matched other k (sym (lookup-put_other kid other key ks ne) ∙ found)
    ],
  )

  -- Storing a key, or failing to, keeps the store sound where the key is converted.
  pub store_key-IsSound :
      (kid : String) (r : Result Key) (ks : KeyStore)
      → ((key : Key) → r ≡ ok key → to_public_pem crypto key.private_pem ≡ ok key.public_pem)
      → IsSound crypto ks
      → IsSound crypto (store_key crypto kid r ks).1
  store_key-IsSound kid (ok key) ks e sound = put-IsSound kid key ks (e key refl) sound
  store_key-IsSound kid (err x) ks e sound = sound
  store_key-IsSound kid (panicked m) ks e sound = sound

pub private_key-found :
    (kid : String) (key : Key) (ks : KeyStore)
    → lookup kid ks ≡ some key
    → private_key kid ks ≡ ok key.private_pem
unfolding private_key
private_key-found kid key ks h = rw (private_key, h) refl

pub public_key-found :
    (kid : String) (key : Key) (ks : KeyStore)
    → lookup kid ks ≡ some key
    → public_key kid ks ≡ ok key.public_pem
unfolding public_key
public_key-found kid key ks h = rw (public_key, h) refl
