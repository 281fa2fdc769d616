-- ===== src/Keystore/Loading.antt =====
-- What loading keys from a document or from a file system comes to.
use spi_exata.Base.{
  ℕ, String, ◌≡◌, refl, ap, ◌∙◌, ◌≢◌, ◌⊎◌, inl, inr, true, false, none, some, List, [], ◌∷◌, arith,
  eq_iff, ◌is◌, Bool-cases, Option-cases, length, lookup,
}
use spi_exata.Base.Errors.{Error, Result, ok, err, panicked, is_ok}
use spi_exata.Base.Errors.{Result-cases, >>=-eq-ok, wrapping}
use spi_exata.Base.Strings.{ext}
use spi_exata.Base.State
use spi_exata.Base.State.{M}
use spi_exata.Keystore.{
  Key, KeyStore, put, Crypto, Document, Visit, to_public_pem, store_key, convert, counted,
  load_document, load_by_json, read_key, kid_of, visit_entry, visit_file, walk_dir,
  load_by_file_system, private_key, public_key, max_pem_file_size,
}
use spi_exata.Keystore.Laws.{
  lookup-put, lookup-put_other, IsSound, convert-eq-ok, private_key-found, public_key-found,
  store_key-IsSound,
}

module _ {B K R : Type 0} (crypto : Crypto B K R) where
  pub counted-store : (n : ℕ) (r : Result (Unit {0}) × KeyStore) → (counted crypto n r).1 ≡ r.1
  counted-store n (ok _, ks) = refl
  counted-store n (err e, ks) = refl
  counted-store n (panicked m, ks) = refl

  read_key-matched :
      (visit : Visit) (key : Key)
      → read_key crypto visit ≡ ok key
      → to_public_pem crypto key.private_pem ≡ ok key.public_pem
  read_key-matched visit key h =
      let (read, h1, e1) = >>=-eq-ok (wrapping "opening key file" visit.opened) h in
      let (pem, h2, e2) =
        >>=-eq-ok (wrapping "reading auth private key" (read max_pem_file_size)) h1 in
      let (same, e) = convert-eq-ok crypto pem key h2 in rw same e

  visit_file-IsSound :
      (visit : Visit) (ks : KeyStore)
      → IsSound crypto ks
      → IsSound crypto (visit_file crypto visit ks).1
  unfolding visit_file visit_entry
  visit_file-IsSound visit ks sound = elim (Option-cases visit.walk_error) [
    | inr (e, p) ↦ rw p sound
    | inl p ↦ rw p (elim (Bool-cases visit.is_dir) [
      | inl q ↦ rw q sound
      | inr q ↦ rw q (elim (Bool-cases (ext visit.file_name is ".pem")) [
        | inr s ↦ rw s sound
        | inl s ↦ rw s (
            store_key-IsSound crypto (kid_of crypto visit) (read_key crypto visit) ks
              (read_key-matched visit) sound)
      ])
    ])
  ]

  walk_dir-IsSound :
      (visits : List Visit) (ks : KeyStore)
      → IsSound crypto ks
      → IsSound crypto (walk_dir crypto visits ks).1
  unfolding walk_dir
  walk_dir-IsSound [] ks sound = sound
  walk_dir-IsSound (visit ∷ visits) ks sound =
      let first = visit_file-IsSound visit ks sound in
      let rest = walk_dir-IsSound visits (visit_file crypto visit ks).1 first in
      elim (Result-cases (visit_file crypto visit ks).0) [
        | inl (u, e) ↦ rw e rest
        | inr (inl (x, e)) ↦ rw e first
        | inr (inr (m, e)) ↦ rw e first
      ]

  load_document-IsSound :
      (r : Result Document) (ks : KeyStore)
      → IsSound crypto ks
      → IsSound crypto (load_document crypto r ks).1
  load_document-IsSound (ok d) ks sound =
      rw (counted-store 0 (store_key crypto d.key (convert crypto d.pem) ks)) (
        store_key-IsSound crypto d.key (convert crypto d.pem) ks
          (λ key h. let (same, e) = convert-eq-ok crypto d.pem key h in rw same e) sound)
  load_document-IsSound (err e) ks sound = sound
  load_document-IsSound (panicked m) ks sound = sound

  -- However loading from a document or from a file system ends, in an error or a panic too, the store
  -- that it leaves has each kid once in the list that models the map, and beside each private PEM, which
  -- holds an RSA key in PKCS1 or else in PKCS8, the encoding of the public half of that key, if the
  -- store was so before.
  pub loads-IsSound :
      (unmarshal : String → Result Document) (document : String) (visits : List Visit)
      (ks : KeyStore)
      → IsSound crypto ks
      → IsSound crypto (load_by_json crypto unmarshal document ks).1
        × IsSound crypto (load_by_file_system crypto visits ks).1
  unfolding load_by_json load_by_file_system
  loads-IsSound unmarshal document visits ks sound = (
    elim (Bool-cases (document is "")) [
      | inl empty ↦ rw empty sound
      | inr given ↦ rw given (load_document-IsSound (unmarshal document) ks sound)
    ],
    rw (counted-store 0 (State.wrapping "walking directory" (walk_dir crypto visits) ks))
        (walk_dir-IsSound visits ks sound),
  )

-- What a document that was loaded leaves in the store.
pub record IsLoaded {B K R : Type 0} (crypto : Crypto B K R) (d : Document) (ks ks' : KeyStore)
    : Type 0 where
  pub public_pem : String
  pub converted : to_public_pem crypto d.pem ≡ ok public_pem
  pub private_found : private_key d.key ks' ≡ ok d.pem
  pub public_found : public_key d.key ks' ≡ ok public_pem
  pub others : (kid : String) → kid ≢ d.key → lookup kid ks' ≡ lookup kid ks

module _ {B K R : Type 0} (crypto : Crypto B K R) where
  stored-IsLoaded :
      (d : Document) (r : Result Key) (ks : KeyStore) (n : ℕ)
      → convert crypto d.pem ≡ r
      → (counted crypto 0 (store_key crypto d.key r ks)).0 ≡ ok (n, none)
      → IsLoaded crypto d ks (counted crypto 0 (store_key crypto d.key r ks)).1
        × (n ≡ length (counted crypto 0 (store_key crypto d.key r ks)).1)
  stored-IsLoaded d (ok key) ks n e h =
      let (same, made) = convert-eq-ok crypto d.pem key e in
      (
        record {
          public_pem = key.public_pem;
          converted = made;
          private_found =
              private_key-found d.key key (put d.key key ks) (lookup-put d.key key ks) ∙ ap ok same;
          public_found = public_key-found d.key key (put d.key key ks) (lookup-put d.key key ks);
          others = λ kid ne. lookup-put_other d.key kid key ks ne;
        },
        ground arith,
      )
  stored-IsLoaded d (err x) ks n e h = cc
  stored-IsLoaded d (panicked m) ks n e h = cc

  document-IsLoaded :
      (r : Result Document) (ks : KeyStore) (n : ℕ)
      → (load_document crypto r ks).0 ≡ ok (n, none)
      → (d : Document) × (r ≡ ok d)
        × IsLoaded crypto d ks (load_document crypto r ks).1
        × (n ≡ length (load_document crypto r ks).1)
  document-IsLoaded (ok d) ks n h =
      let (loaded, e) = stored-IsLoaded d (convert crypto d.pem) ks n refl h in (d, refl, loaded, e)
  document-IsLoaded (err e) ks n h = cc
  document-IsLoaded (panicked m) ks n h = cc

  -- LoadByJSON of a document that is not empty ends without an error only if the document
  -- unmarshals and its PEM holds an RSA key; and then the store finds the PEM and the public key
  -- made of it under the document's kid, every other kid is as before, and the number is how many
  -- keys the store has.
  pub load_by_json-IsLoaded :
      (unmarshal : String → Result Document) (document : String) (ks : KeyStore) (n : ℕ)
      → document ≢ ""
      → (load_by_json crypto unmarshal document ks).0 ≡ ok (n, none)
      → (d : Document) × (unmarshal document ≡ ok d)
        × IsLoaded crypto d ks (load_by_json crypto unmarshal document ks).1
        × (n ≡ length (load_by_json crypto unmarshal document ks).1)
  unfolding load_by_json
  load_by_json-IsLoaded unmarshal document ks n ne h = elim (Bool-cases (document is "")) [
    | inl empty ↦ absurd (ne ((eq_iff document "").0 empty))
    | inr given ↦ rw given (document-IsLoaded (unmarshal document) ks n (rw given at h))
  ]

  stored_error :
      (kid : String) (r : Result Key) (ks : KeyStore) (n : ℕ) (e : Error)
      → (counted crypto 0 (store_key crypto kid r ks)).0 ≡ ok (n, some e)
      → ((counted crypto 0 (store_key crypto kid r ks)).1 ≡ ks) × (n ≡ 0)
  stored_error kid (ok key) ks n e h = absurd (ground arith)
  stored_error kid (err x) ks n e h = (refl, ground arith)
  stored_error kid (panicked m) ks n e h = cc

  document_error :
      (r : Result Document) (ks : KeyStore) (n : ℕ) (e : Error)
      → (load_document crypto r ks).0 ≡ ok (n, some e)
      → ((load_document crypto r ks).1 ≡ ks)
        × (((is_ok r ≡ true) × (n ≡ 0)) ⊎ ((is_ok r ≡ false) × (n ≡ length ks)))
  document_error (ok d) ks n e h =
      let (same, z) = stored_error d.key (convert crypto d.pem) ks n e h in (same, inl (refl, z))
  document_error (err x) ks n e h = (refl, inr (refl, ground arith))
  document_error (panicked m) ks n e h = cc

  -- LoadByJSON that ends with an error leaves the store as it was; and the number beside the error is
  -- 0 where the document unmarshals, and how many keys the store has where it does not.
  load_by_json-error :
      (unmarshal : String → Result Document) (document : String) (ks : KeyStore) (n : ℕ) (e : Error)
      → (load_by_json crypto unmarshal document ks).0 ≡ ok (n, some e)
      → ((load_by_json crypto unmarshal document ks).1 ≡ ks)
        × (((is_ok (unmarshal document) ≡ true) × (n ≡ 0))
            ⊎ ((is_ok (unmarshal document) ≡ false) × (n ≡ length ks)))
  unfolding load_by_json
  load_by_json-error unmarshal document ks n e h = elim (Bool-cases (document is "")) [
    | inl empty ↦ absurd (let k = rw empty at h in ground arith)
    | inr given ↦ rw given (document_error (unmarshal document) ks n e (rw given at h))
  ]
