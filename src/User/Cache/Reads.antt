-- ===== src/User/Cache/Reads.antt =====
-- Reading through the cache, and every run of the cached store from a coherent world.
use spi_exata.Base.{String, ◌≡◌, refl, sym, ap, ◌∙◌, ◌≢◌, ◌⊎◌, inl, inr, Option, none, some, arith}
use spi_exata.Base.Errors.{Result, ok, err, panicked}
use spi_exata.Base.State.{M, continue}
use spi_exata.User.{Uuid, Address, User}
use spi_exata.User.Core.{Storer}
use spi_exata.User.Cache.{Client, or_fetch, create, update, delete, query_by_id, query_by_email}
use spi_exata.User.Cache.Coherence.{
  Views, IsClient, IsStorer, IsCoherent, IsApart, write-IsCoherent, unchanged-IsCoherent,
  create-IsCoherent, update-IsCoherent, delete-IsCoherent,
}

module _ {W : Type 0} (v : Views W) (cache : Client W) (show : Uuid → String) (storer : Storer W)
    (c : IsClient v cache) (s : IsStorer v storer)
    (show_inj : (i j : Uuid) → show i ≡ show j → i ≡ j) where
  abbrev pub Coherent : W → Type 0
  Coherent = IsCoherent v show

  -- No stored user has an address that is the text of an id.
  abbrev pub RowsApart : W → Type 0
  RowsApart w = (i : Uuid) (u : User) → v.row w i ≡ some u → (j : Uuid) → u.email.address ≢ show j

  -- A fetch that finds only users that the store holds, and changes nothing.
  record IsFetch (fetch : M W User) (w : W) : Type 0 where
    found : (u : User) → (fetch w).0 ≡ ok u → (v.row w u.id ≡ some u) × (v.kept u ≡ u)
    peeks : (j : String) → v.peek (fetch w).1 j ≡ v.peek w j
    rows : (i : Uuid) → v.row (fetch w).1 i ≡ v.row w i

  result-cases :
      (r : Result User) (w : W)
      → ((u : User) × (r ≡ ok u)) ⊎ ((f : User → M W User) → (continue r w f).1 ≡ w)
  result-cases (ok u) w = inl (u, refl)
  result-cases (err e) w = inr (λ f. refl)
  result-cases (panicked m) w = inr (λ f. refl)

  or_fetch-Coherent :
      (fetch : M W User) (o : Option User) (w : W)
      → IsFetch fetch w
      → RowsApart w
      → Coherent w
      → Coherent (or_fetch cache show storer fetch o w).1
  unfolding or_fetch
  or_fetch-Coherent fetch (some u) w f apart h = h
  or_fetch-Coherent fetch none w f apart h =
      let w1 = (fetch w).1 in
      let kept : Coherent w1 =
        unchanged-IsCoherent v cache show storer c s show_inj w w1 (λ j x e. sym (f.peeks j) ∙ e)
          f.rows h in
      elim (result-cases (fetch w).0 w1) [
        | inl (u, e) ↦
            let (there, normal) = f.found u e in
            rw e (
              write-IsCoherent v cache show storer c s show_inj u w1 (apart u.id u there)
                (f.rows u.id ∙ there ∙ ap some (sym normal)) (λ i x _ e. kept i x e))
        | inr failed ↦ rw failed kept
      ]

  -- The moves of the cached store. The user that is created or updated has an address that is no
  -- id, and one that is updated is there and was created when the update says.
  pub data Move (w : W) (w' : W) : Type 0 where
    created : (u : User) → IsApart show u → w' ≡ (create cache show storer u w).1 → Move w w'
    updated :
        (u old : User)
        → IsApart show u
        → v.row w u.id ≡ some old
        → old.created_at ≡ u.created_at
        → w' ≡ (update cache show storer u w).1
        → Move w w'
    deleted : (u : User) → w' ≡ (delete cache show storer u w).1 → Move w w'
    by_id : (i : Uuid) → RowsApart w → w' ≡ (query_by_id cache show storer i w).1 → Move w w'
    by_email :
        (a : Address) → RowsApart w → w' ≡ (query_by_email cache show storer a w).1 → Move w w'

  got-Coherent : (k : String) (w : W) → Coherent w → Coherent (cache.get k w).1
  got-Coherent k w h =
      unchanged-IsCoherent v cache show storer c s show_inj w (cache.get k w).1
        (λ j x e. c.get_keeps k w j x e) (c.get_row k w) h

  query_by_id-Coherent :
      (i : Uuid) (w : W) → RowsApart w → Coherent w → Coherent (query_by_id cache show storer i w).1
  unfolding query_by_id
  query_by_id-Coherent i w apart h =
      let w1 = (cache.get (show i) w).1 in
      or_fetch-Coherent (storer.query_by_id i) (cache.get (show i) w).0 w1
        (record {
          found = λ u e.
              let (there, same, normal) = s.by_id_found i w1 u e in
              (ap (v.row w1) same ∙ there, normal);
          peeks = s.by_id_peek i w1;
          rows = s.by_id_row i w1;
        })
        (λ j u e. apart j u (sym (c.get_row (show i) w j) ∙ e)) (got-Coherent (show i) w h)

  query_by_email-Coherent :
      (a : Address) (w : W)
      → RowsApart w
      → Coherent w
      → Coherent (query_by_email cache show storer a w).1
  unfolding query_by_email
  query_by_email-Coherent a w apart h =
      let w1 = (cache.get a.address w).1 in
      or_fetch-Coherent (storer.query_by_email a) (cache.get a.address w).0 w1
        (record {
          found = λ u e. let (there, _, normal) = s.by_email_found a w1 u e in (there, normal);
          peeks = s.by_email_peek a w1;
          rows = s.by_email_row a w1;
        })
        (λ j u e. apart j u (sym (c.get_row a.address w j) ∙ e)) (got-Coherent a.address w h)

  Move-Coherent : (w w' : W) → Move w w' → Coherent w → Coherent w'
  Move-Coherent w w' (created u apart e) h =
      rw e (create-IsCoherent v cache show storer c s show_inj u w apart h)
  Move-Coherent w w' (updated u old apart there times e) h =
      rw e (update-IsCoherent v cache show storer c s show_inj u old w apart there times h)
  Move-Coherent w w' (deleted u e) h =
      rw e (delete-IsCoherent v cache show storer c s show_inj u w h)
  Move-Coherent w w' (by_id i apart e) h = rw e (query_by_id-Coherent i w apart h)
  Move-Coherent w w' (by_email a apart e) h = rw e (query_by_email-Coherent a w apart h)

  pub data Run (w : W) : W → Type 0 where
    here : Run w w
    next : {w1 w2 : W} → Run w w1 → Move w1 w2 → Run w w2

  -- Over a cache and a store that meet IsClient and IsStorer, and with ids that have different texts:
  -- whatever the cached store is asked for by a move, one call after the other, from a world where what is
  -- cached under each id is what the store holds: that stays so.
  pub Run-Coherent : {w w' : W} → Run w w' → Coherent w → Coherent w'
  Run-Coherent here h = h
  Run-Coherent (next r m) h = Move-Coherent _ _ m (Run-Coherent r h)

  or_fetch-eq-ok :
      (fetch : M W User) (o : Option User) (w : W) (u : User)
      → (or_fetch cache show storer fetch o w).0 ≡ ok u
      → (o ≡ some u) ⊎ ((fetch w).0 ≡ ok u)
  unfolding or_fetch
  or_fetch-eq-ok fetch none w u e = ground arith
  or_fetch-eq-ok fetch (some x) w u e = ground arith

  -- Under the same conditions, in such a world, a user that is found by id, from the cache or from the store, is the one that
  -- the store holds under that id, in all that the store keeps of a user.
  pub query_by_id-row :
      (i : Uuid) (w : W) (u : User)
      → Coherent w
      → (query_by_id cache show storer i w).0 ≡ ok u
      → v.row w i ≡ some (v.kept u)
  unfolding query_by_id
  query_by_id-row i w u h e =
      let (got, w1) = cache.get (show i) w in
      elim (or_fetch-eq-ok (storer.query_by_id i) got w1 u e) [
        | inl hit ↦ h i u (c.get_hit (show i) w u hit)
        | inr fetched ↦
            let (there, _, normal) = s.by_id_found i w1 u fetched in
            sym (c.get_row (show i) w i) ∙ there ∙ ap some (sym normal)
      ]

  -- A cache that forgets nothing.
  pub record IsExact : Type 0 where
    pub get_exact : (k : String) (w : W) → (cache.get k w).0 ≡ v.peek w k
    pub set_keeps :
        (k : String) (u : User) (w : W) (j : String)
        → j ≢ k
        → v.peek (cache.set k u w) j ≡ v.peek w j

  -- With a cache that forgets nothing, a successful update that gives a user another address leaves
  -- what was cached under the old address: asking for the old address still finds the old user.
  pub query_by_email-stale :
      (u old : User) (w : W)
      → IsExact
      → v.peek w old.email.address ≡ some old
      → (update cache show storer u w).0 ≡ ok tt
      → old.email.address ≢ u.email.address
      → old.email.address ≢ show u.id
      → (query_by_email cache show storer old.email (update cache show storer u w).1).0 ≡ ok old
  unfolding update query_by_email or_fetch
  query_by_email-stale u old w exact cached done other apart =
      let k = old.email.address in
      let w1 = (storer.update u w).1 in
      ground (
        arith,
        exact.get_exact k (cache.set u.email.address u (cache.set (show u.id) u w1)),
        exact.set_keeps u.email.address u (cache.set (show u.id) u w1) k,
        exact.set_keeps (show u.id) u w1 k,
        s.update_peek u w k,
      )
