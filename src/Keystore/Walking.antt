-- ===== src/Keystore/Walking.antt =====
-- What a walk of a file system that ends well leaves in the key store.
use spi_exata.Base.{
  ℕ, String, ◌≡◌, refl, sym, ap, ◌∙◌, ◌≢◌, ◌⊎◌, inl, inr, true, false, none, some, List, [], ◌∷◌,
  ◌++◌, arith, eq_iff, ◌is◌, Bool-cases, Option-cases, length, lookup, All,
}
use spi_exata.Base.Errors.{Result, ok, err, panicked}
use spi_exata.Base.Errors.{Result-cases}
use spi_exata.Base.State
use spi_exata.Base.State.{M}
use spi_exata.Base.Strings.{ext}
use spi_exata.Keystore.{
  Key, KeyStore, put, Crypto, Visit, store_key, counted, read_key, kid_of, is_pem, visit_entry,
  visit_file, walk_dir, load_by_file_system,
}
use spi_exata.Keystore.Loading.{counted-store}
use spi_exata.Keystore.Laws.{lookup-put, lookup-put_other}

module _ {B K R : Type 0} (crypto : Crypto B K R) where
  -- The file is a key's, and the key's kid is this one.
  abbrev IsNamed : String → Visit → Type 0
  IsNamed kid visit = (is_pem crypto visit ≡ true) × (kid_of crypto visit ≡ kid)

  -- The kid has the key of the last file with its name, or what it had before if no file has it.
  abbrev pub IsLatest : String → List Visit → KeyStore → KeyStore → Type 0
  IsLatest kid visits ks ks' =
      ((before after : List Visit) × (visit : Visit) × (key : Key) × (visits
          ≡ before ++ (visit ∷ after))
        × IsNamed kid visit
        × All (λ v. ¬ (IsNamed kid v)) after
        × (read_key crypto visit ≡ ok key)
        × (lookup kid ks' ≡ some key))
      ⊎ (All (λ v. ¬ (IsNamed kid v)) visits × (lookup kid ks' ≡ lookup kid ks))

  stored-key :
      (kid name : String) (r : Result Key) (ks : KeyStore)
      → (store_key crypto name r ks).0 ≡ ok tt
      → (key : Key) × (r ≡ ok key) × ((store_key crypto name r ks).1 ≡ put name key ks)
  stored-key kid name (ok key) ks h = (key, refl, refl)
  stored-key kid name (err e) ks h = cc
  stored-key kid name (panicked m) ks h = cc

  -- A file that was visited without an error: its key is stored, or it is no file of a key.
  visited :
      (visit : Visit) (ks : KeyStore)
      → (visit_file crypto visit ks).0 ≡ ok tt
      → ((is_pem crypto visit ≡ true)
          × (key : Key) × (read_key crypto visit ≡ ok key)
          × ((visit_file crypto visit ks).1 ≡ put (kid_of crypto visit) key ks))
        ⊎ ((is_pem crypto visit ≡ false) × ((visit_file crypto visit ks).1 ≡ ks))
  unfolding visit_file visit_entry
  visited visit ks h = elim (Option-cases visit.walk_error) [
    | inr (e, p) ↦ absurd (let k = rw p at h in ground arith)
    | inl p ↦
        let h1 = rw p at h in
        rw p (elim (Bool-cases visit.is_dir) [
          | inl q ↦ inr (rw q refl, rw q refl)
          | inr q ↦
              let h2 = rw q at h1 in
              rw q (elim (Bool-cases (ext visit.file_name is ".pem")) [
                | inr s ↦ inr (s, rw s refl)
                | inl s ↦
                    let (key, read, same) =
                      stored-key "" (kid_of crypto visit) (read_key crypto visit) ks (rw s at h2) in
                    inl (s, key, read, rw s same)
              ])
        ])
  ]

  -- One more file in front of a walk.
  cons-IsLatest :
      (kid : String) (visit : Visit) (visits : List Visit) (ks ks1 ks' : KeyStore)
      → ((is_pem crypto visit ≡ true)
          × (key : Key) × (read_key crypto visit ≡ ok key)
          × (ks1 ≡ put (kid_of crypto visit) key ks))
        ⊎ ((is_pem crypto visit ≡ false) × (ks1 ≡ ks))
      → IsLatest kid visits ks1 ks'
      → IsLatest kid (visit ∷ visits) ks ks'
  cons-IsLatest kid visit visits ks ks1 ks' first
        (inl (before, after, v, key, e, named, last, read, found)) =
      inl (visit ∷ before, after, v, key, ap (λ l. visit ∷ l) e, named, last, read, found)
  cons-IsLatest kid visit visits ks ks1 ks' (inr (p, same)) (inr (unnamed, found)) =
      inr (((λ (q, r). ground arith), unnamed), rw same at found)
  cons-IsLatest kid visit visits ks ks1 ks' (inl (p, key, read, same)) (inr (unnamed, found)) =
      elim (Bool-cases (kid is kid_of crypto visit)) [
        | inl q ↦
            let named = (eq_iff kid (kid_of crypto visit)).0 q in
            inl (
              [],
              visits,
              visit,
              key,
              refl,
              (p, sym named),
              unnamed,
              read,
              found
                  ∙ ap (lookup kid) same
                  ∙ ap (λ k. lookup k (put (kid_of crypto visit) key ks)) named
                  ∙ lookup-put (kid_of crypto visit) key ks,
            )
        | inr q ↦
            let ne : kid ≢ kid_of crypto visit =
              λ e. ground (arith, eq_iff kid (kid_of crypto visit)) in
            inr (
              ((λ (_, e). ne (sym e)), unnamed),
              found ∙ ap (lookup kid) same ∙ lookup-put_other (kid_of crypto visit) kid key ks ne,
            )
      ]

  walk_dir-IsLatest :
      (kid : String) (visits : List Visit) (ks : KeyStore)
      → (walk_dir crypto visits ks).0 ≡ ok tt
      → IsLatest kid visits ks (walk_dir crypto visits ks).1
  unfolding walk_dir
  walk_dir-IsLatest kid [] ks h = inr (tt, refl)
  walk_dir-IsLatest kid (visit ∷ visits) ks h = elim (Result-cases (visit_file crypto visit ks).0) [
    | inl (u, e) ↦
        let rest = walk_dir-IsLatest kid visits (visit_file crypto visit ks).1 (rw e at h) in
        rw e (cons-IsLatest kid visit visits ks _ _ (visited visit ks e) rest)
    | inr (inl (x, e)) ↦ absurd (let k = rw e at h in ground arith)
    | inr (inr (m, e)) ↦ absurd (let k = rw e at h in ground arith)
  ]

  counted-walk :
      (n : ℕ) (r : Result (Unit {0}) × KeyStore)
      → (counted crypto 0 (State.wrapping "walking directory" (λ _. r) [])).0 ≡ ok (n, none)
      → (r.0 ≡ ok tt) × (n ≡ length r.1)
  counted-walk n (ok _, ks) h = (refl, ground arith)
  counted-walk n (err e, ks) h = absurd (ground arith)
  counted-walk n (panicked m, ks) h = cc

  -- LoadByFileSystem that ends without an error has given every kid the key of the last PEM file
  -- that is named after it, and left each kid that no such file is named after as it was; the number
  -- is how many keys the store has.
  pub load_by_file_system-IsLatest :
      (visits : List Visit) (ks : KeyStore) (n : ℕ)
      → (load_by_file_system crypto visits ks).0 ≡ ok (n, none)
      → ((kid : String) → IsLatest kid visits ks (load_by_file_system crypto visits ks).1)
        × (n ≡ length (load_by_file_system crypto visits ks).1)
  unfolding load_by_file_system
  load_by_file_system-IsLatest visits ks n h =
      let (walked, e) = counted-walk n (walk_dir crypto visits ks) h in
      rw (counted-store crypto 0 (State.wrapping "walking directory" (walk_dir crypto visits) ks))
        ((λ kid. walk_dir-IsLatest kid visits ks walked), e)
