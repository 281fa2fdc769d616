-- ===== src/User/Cache.antt =====
-- business/domain/userbus/stores/usercache/usercache.go: a store that keeps the users it meets in a
-- cache, under their id and under their e-mail address, before another store. The cache (sturdyc)
-- and the text of a UUID are parameters.
pub mod Coherence
pub mod Reads
pub mod Rollback
use spi_exata.Base.{String, Option, none, some}
use spi_exata.Base.Errors.{ok}
use spi_exata.Base.Errors as Errors
use spi_exata.Base.State.{M, ◌>>=◌, ◌>>◌, return, step}
use spi_exata.User.{Uuid, Address, User}
use spi_exata.User.Core.{Storer}
use spi_exata.Sdk.Tran.{NewWithTx}

-- sturdyc.Client[userbus.User]
pub record Client (W : Type 0) : Type 0 where
  pub get : String → W → Option User × W
  pub set : String → User → W → W
  pub delete : String → W → W

module _ {W : Type 0} (cache : Client W) (show : Uuid → String) where
  read_cache : String → M W (Option User)
  read_cache key = step (cache.get key)

  write_cache : User → M W (Unit {0})
  write_cache bus w = (ok tt, cache.set bus.email.address bus (cache.set (show bus.id) bus w))

  delete_cache : User → M W (Unit {0})
  delete_cache bus w = (ok tt, cache.delete bus.email.address (cache.delete (show bus.id) w))

  module _ (storer : Storer W) where
    unfoldable pub create : User → M W (Unit {0})
    unfolding write_cache
    create usr = do storer.create usr; write_cache usr

    unfoldable pub update : User → M W (Unit {0})
    unfolding write_cache
    update usr = do storer.update usr; write_cache usr

    unfoldable pub delete : User → M W (Unit {0})
    unfolding delete_cache
    delete usr = do storer.delete usr; delete_cache usr

    -- the user that was read, or the one of the store, which is then written to the cache
    pub or_fetch : M W User → Option User → M W User
    unfolding write_cache
    or_fetch fetch (some cached) = return cached
    or_fetch fetch none = do usr ← fetch; _ ← write_cache usr; return usr

    unfoldable pub query_by_id : Uuid → M W User
    unfolding read_cache or_fetch
    query_by_id user_id = do
      cached ← read_cache (show user_id)
      or_fetch (storer.query_by_id user_id) cached

    unfoldable pub query_by_email : Address → M W User
    unfolding read_cache or_fetch
    query_by_email email = do
      cached ← read_cache email.address
      or_fetch (storer.query_by_email email) cached

    -- NewStore: the cached store, again a store
    unfoldable pub new_store : Storer W
    new_store = record {
      create = create;
      update = update;
      delete = delete;
      query = storer.query;
      count = storer.count;
      query_by_id = query_by_id;
      query_by_email = query_by_email;
    }

  -- NewWithTx: the store behind is one inside the transaction, and the cache is the same
  unfoldable pub new_with_tx : {D : Type 0} → NewWithTx D (Storer W) → NewWithTx D (Storer W)
  new_with_tx behind tx = Errors.◌>>=◌ (behind tx) (λ tx_storer. ok (new_store tx_storer))
