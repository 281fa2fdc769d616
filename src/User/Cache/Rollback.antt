-- ===== src/User/Cache/Rollback.antt =====
-- What a transaction that is rolled back leaves in the cache.
use spi_exata.Base.{String, ◌≡◌, ◌≢◌, refl, sym, ◌∙◌, some, arith}
use spi_exata.Base.Errors.{ok}
use spi_exata.Sdk.Tran.{CommitRollbacker, NewWithTx}
use spi_exata.User.{Uuid, User}
use spi_exata.User.Core.{Storer}
use spi_exata.User.Cache.{Client, update, query_by_id, or_fetch, new_store, new_with_tx}
use spi_exata.User.Cache.Coherence.{Views, IsClient, IsStorer}
use spi_exata.User.Cache.Reads.{IsExact}

module _ {W D : Type 0} (v : Views W) (cache : Client W) (show : Uuid → String) (storer : Storer W)
    (c : IsClient v cache) (s : IsStorer v storer)
    (show_inj : (i j : Uuid) → show i ≡ show j → i ≡ j) where
  -- With a cache that forgets nothing, a user whose update succeeded in a transaction is still found by
  -- id after the transaction was rolled back, from the cache that the store inside the transaction
  -- shares, while what the store holds is as before, if rolling back restores the rows and touches no cache.
  pub rolled_back-stale :
      (behind : NewWithTx D (Storer W)) (tx : CommitRollbacker D) (inside : Storer W)
      → behind tx ≡ ok inside
      → IsExact v cache show storer c s show_inj
      → ((k : String) (x : User) (w : W) → v.peek (cache.set k x w) k ≡ some x)
      → (rollback : W → W) (u : User) (w : W)
      → ((w1 : W) (k : String) → v.peek (rollback w1) k ≡ v.peek w1 k)
      → ((w1 : W) (i : Uuid) → v.row (rollback w1) i ≡ v.row w i)
      → (inside.update u w).0 ≡ ok tt
      → u.email.address ≢ show u.id
      → (cached : Storer W) × (new_with_tx cache show behind tx ≡ ok cached)
        × ((query_by_id cache show storer u.id (rollback (cached.update u w).1)).0 ≡ ok u)
        × (v.row (rollback (cached.update u w).1) u.id ≡ v.row w u.id)
  unfolding new_with_tx new_store update query_by_id or_fetch
  rolled_back-stale behind tx inside e exact hits rollback u w kept back done apart =
      let k = show u.id in
      let w1 = (inside.update u w).1 in
      let w2 = cache.set u.email.address u (cache.set k u w1) in
      let held =
        kept w2 k
        ∙ exact.set_keeps u.email.address u (cache.set k u w1) k (λ same. apart (sym same))
        ∙ hits k u w1 in
      (
        new_store cache show inside,
        rw e refl,
        ground (arith, exact.get_exact k (rollback w2)),
        back _ u.id,
      )
