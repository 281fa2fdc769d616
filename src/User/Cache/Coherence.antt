-- ===== src/User/Cache/Coherence.antt =====
-- The cached store against the store behind it: what is cached under the id of a user is what the
-- store holds, as long as e-mail addresses are not the texts of ids and what is updated exists.
use spi_exata.Base.{String, ◌≡◌, refl, sym, ap, ◌∙◌, ◌≢◌, ◌⊎◌, inl, inr, Option, some}
use spi_exata.Base.Errors.{Result, ok, err, panicked}
use spi_exata.Base.State.{M, continue}
use spi_exata.User.{Uuid, Address, User}
use spi_exata.User.Core.{Storer}
use spi_exata.User.Cache.{Client, create, update, delete}

-- How a world is looked at: the cache's entries, the store's users, and what of a user the store
-- keeps (a store may forget the display name of an e-mail address).
pub record Views (W : Type 0) : Type 0 where
  pub peek : W → String → Option User
  pub row : W → Uuid → Option User
  pub kept : User → User

-- The cache answers with what was set last, or forgets; it never makes an entry up.
pub record IsClient {W : Type 0} (v : Views W) (cache : Client W) : Type 0 where
  pub get_hit : (k : String) (w : W) (u : User) → (cache.get k w).0 ≡ some u → v.peek w k ≡ some u
  pub get_keeps :
      (k : String) (w : W) (j : String) (u : User)
      → v.peek (cache.get k w).1 j ≡ some u
      → v.peek w j ≡ some u
  pub get_row : (k : String) (w : W) (i : Uuid) → v.row (cache.get k w).1 i ≡ v.row w i
  pub set_peek :
      (k : String) (u : User) (w : W) (j : String) (x : User)
      → v.peek (cache.set k u w) j ≡ some x
      → ((j ≡ k) × (x ≡ u)) ⊎ ((j ≢ k) × (v.peek w j ≡ some x))
  pub set_row : (k : String) (u : User) (w : W) (i : Uuid) → v.row (cache.set k u w) i ≡ v.row w i
  pub delete_peek :
      (k : String) (w : W) (j : String) (x : User)
      → v.peek (cache.delete k w) j ≡ some x
      → (j ≢ k) × (v.peek w j ≡ some x)
  pub delete_row : (k : String) (w : W) (i : Uuid) → v.row (cache.delete k w) i ≡ v.row w i

-- The store: its operations leave the cache alone; a failed one and a query change no user; a
-- successful one inserts, replaces or removes the user with the id. An update of a user that is not
-- there succeeds and does nothing, and an update keeps the time of the creation.
pub record IsStorer {W : Type 0} (v : Views W) (storer : Storer W) : Type 0 where
  pub create_peek : (u : User) (w : W) (j : String) → v.peek (storer.create u w).1 j ≡ v.peek w j
  pub update_peek : (u : User) (w : W) (j : String) → v.peek (storer.update u w).1 j ≡ v.peek w j
  pub delete_peek : (u : User) (w : W) (j : String) → v.peek (storer.delete u w).1 j ≡ v.peek w j
  pub by_id_peek :
      (i : Uuid) (w : W) (j : String) → v.peek (storer.query_by_id i w).1 j ≡ v.peek w j
  pub by_email_peek :
      (a : Address) (w : W) (j : String) → v.peek (storer.query_by_email a w).1 j ≡ v.peek w j
  pub by_id_row : (i : Uuid) (w : W) (j : Uuid) → v.row (storer.query_by_id i w).1 j ≡ v.row w j
  pub by_email_row :
      (a : Address) (w : W) (j : Uuid) → v.row (storer.query_by_email a w).1 j ≡ v.row w j
  pub create_row :
      (u : User) (w : W)
      → (storer.create u w).0 ≡ ok tt
      → v.row (storer.create u w).1 u.id ≡ some (v.kept u)
  pub update_row :
      (u old : User) (w : W)
      → (storer.update u w).0 ≡ ok tt
      → v.row w u.id ≡ some old
      → old.created_at ≡ u.created_at
      → v.row (storer.update u w).1 u.id ≡ some (v.kept u)
  pub create_other :
      (u : User) (w : W) (i : Uuid)
      → ((storer.create u w).0 ≢ ok tt) ⊎ (i ≢ u.id)
      → v.row (storer.create u w).1 i ≡ v.row w i
  pub update_other :
      (u : User) (w : W) (i : Uuid)
      → ((storer.update u w).0 ≢ ok tt) ⊎ (i ≢ u.id)
      → v.row (storer.update u w).1 i ≡ v.row w i
  pub delete_other :
      (u : User) (w : W) (i : Uuid)
      → ((storer.delete u w).0 ≢ ok tt) ⊎ (i ≢ u.id)
      → v.row (storer.delete u w).1 i ≡ v.row w i
  pub by_id_found :
      (i : Uuid) (w : W) (u : User)
      → (storer.query_by_id i w).0 ≡ ok u
      → (v.row w i ≡ some u) × (u.id ≡ i) × (v.kept u ≡ u)
  pub by_email_found :
      (a : Address) (w : W) (u : User)
      → (storer.query_by_email a w).0 ≡ ok u
      → (v.row w u.id ≡ some u) × (u.email.address ≡ a.address) × (v.kept u ≡ u)

-- What is cached under an id is what the store holds under it.
abbrev pub IsCoherent : {W : Type 0} → Views W → (Uuid → String) → W → Type 0
IsCoherent v show w =
    (i : Uuid) (u : User) → v.peek w (show i) ≡ some u → v.row w i ≡ some (v.kept u)

-- An address is not the text of an id.
abbrev pub IsApart : (Uuid → String) → User → Type 0
IsApart show u = (i : Uuid) → u.email.address ≢ show i

module _ {W : Type 0} (v : Views W) (cache : Client W) (show : Uuid → String) (storer : Storer W)
    (c : IsClient v cache) (s : IsStorer v storer)
    (show_inj : (i j : Uuid) → show i ≡ show j → i ≡ j) where
  pub write-IsCoherent :
      (u : User) (w : W)
      → IsApart show u
      → v.row w u.id ≡ some (v.kept u)
      → ((i : Uuid) (x : User)
          → i ≢ u.id
          → v.peek w (show i) ≡ some x
          → v.row w i ≡ some (v.kept x))
      → IsCoherent v show (cache.set u.email.address u (cache.set (show u.id) u w))
  write-IsCoherent u w apart here others i x h =
      let w1 = cache.set (show u.id) u w in
      elim (c.set_peek u.email.address u w1 (show i) x h) [
        | inl (e, _) ↦ absurd (apart i (sym e))
        | inr (_, h1) ↦ elim (c.set_peek (show u.id) u w (show i) x h1) [
          | inl (e, same) ↦
              c.set_row _ u w1 i
              ∙ c.set_row _ u w i
              ∙ ap (v.row w) (show_inj i u.id e)
              ∙ here
              ∙ ap (λ y. some (v.kept y)) (sym same)
          | inr (other, h2) ↦
              c.set_row _ u w1 i ∙ c.set_row _ u w i ∙ others i x (λ e. other (ap show e)) h2
        ]
      ]

  pub unchanged-IsCoherent :
      (w w' : W)
      → ((j : String) (x : User) → v.peek w' j ≡ some x → v.peek w j ≡ some x)
      → ((i : Uuid) → v.row w' i ≡ v.row w i)
      → IsCoherent v show w
      → IsCoherent v show w'
  unchanged-IsCoherent w w' peeks rows h i x e = rows i ∙ h i x (peeks (show i) x e)

  -- A step that did not succeed is the last one.
  failed_world :
      (r : Result (Unit {0})) (w : W) (f : Unit {0} → M W (Unit {0}))
      → r ≢ ok tt
      → (continue r w f).1 ≡ w
  failed_world (ok t) w f h = absurd (h refl)
  failed_world (err e) w f h = refl
  failed_world (panicked m) w f h = refl

  done_or_not : (r : Result (Unit {0})) → (r ≡ ok tt) ⊎ (r ≢ ok tt)
  done_or_not (ok t) = inl refl
  done_or_not (err e) = inr (λ p. cc)
  done_or_not (panicked m) = inr (λ p. cc)

  pub create-IsCoherent :
      (u : User) (w : W)
      → IsApart show u
      → IsCoherent v show w
      → IsCoherent v show (create cache show storer u w).1
  unfolding create
  create-IsCoherent u w apart h = elim (done_or_not (storer.create u w).0) [
    | inl done ↦ rw done (
        write-IsCoherent u (storer.create u w).1 apart (s.create_row u w done) (λ i x other e.
          s.create_other u w i (inr other) ∙ h i x (sym (s.create_peek u w (show i)) ∙ e)))
    | inr failed ↦ rw (failed_world _ _ _ failed) (
        unchanged-IsCoherent w (storer.create u w).1 (λ j x e. sym (s.create_peek u w j) ∙ e)
          (λ i. s.create_other u w i (inl failed)) h)
  ]

  pub update-IsCoherent :
      (u old : User) (w : W)
      → IsApart show u
      → v.row w u.id ≡ some old
      → old.created_at ≡ u.created_at
      → IsCoherent v show w
      → IsCoherent v show (update cache show storer u w).1
  unfolding update
  update-IsCoherent u old w apart there times h = elim (done_or_not (storer.update u w).0) [
    | inl done ↦ rw done (
        write-IsCoherent u (storer.update u w).1 apart (s.update_row u old w done there times)
          (λ i x other e.
            s.update_other u w i (inr other) ∙ h i x (sym (s.update_peek u w (show i)) ∙ e)))
    | inr failed ↦ rw (failed_world _ _ _ failed) (
        unchanged-IsCoherent w (storer.update u w).1 (λ j x e. sym (s.update_peek u w j) ∙ e)
          (λ i. s.update_other u w i (inl failed)) h)
  ]

  pub delete-IsCoherent :
      (u : User) (w : W) → IsCoherent v show w → IsCoherent v show (delete cache show storer u w).1
  unfolding delete
  delete-IsCoherent u w h = elim (done_or_not (storer.delete u w).0) [
    | inl done ↦ rw done (λ i x e.
        let w1 = (storer.delete u w).1 in
        let w2 = cache.delete (show u.id) w1 in
        let (_, e1) = c.delete_peek u.email.address w2 (show i) x e in
        let (other, e2) = c.delete_peek (show u.id) w1 (show i) x e1 in
        c.delete_row u.email.address w2 i
        ∙ c.delete_row (show u.id) w1 i
        ∙ s.delete_other u w i (inr (λ p. other (ap show p)))
        ∙ h i x (sym (s.delete_peek u w (show i)) ∙ e2))
    | inr failed ↦ rw (failed_world _ _ _ failed) (
        unchanged-IsCoherent w (storer.delete u w).1 (λ j x e. sym (s.delete_peek u w j) ∙ e)
          (λ i. s.delete_other u w i (inl failed)) h)
  ]
