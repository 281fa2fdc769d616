-- ===== src/App/Wiring.antt =====
-- Add of api/cmd/build/all/all.go: the cores of the service over the databases, and what its routes
-- take of them.
pub mod Answering
use spi_exata.Base.{String, some}
use spi_exata.Base.Int.{ℤ}
use spi_exata.Sdk.Sqldb.{Driver}
use spi_exata.User.{Uuid, Address}
use spi_exata.User.Core
use spi_exata.User.Core.{Storer}
use spi_exata.User.Cache
use spi_exata.User.Cache.{Client}
use spi_exata.User.Db.{UserRow}
use spi_exata.User.Db.Store as UserDb
use spi_exata.Tenant.Db as TenantDb
use spi_exata.Tenant.Db.{Drivers}
use spi_exata.Auth
use spi_exata.Auth.{Auth}
use spi_exata.App.Api.{Config}

-- cfg.DB, by the drivers of its statements, the cache that usercache.NewStore makes, and the texts of
-- ids and addresses
pub record Database (W : Type 0) : Type 0 where
  pub users : Driver W UserRow
  pub counts : Driver W ℤ
  pub tenants : Drivers W
  pub cache : Client W
  pub show : Uuid → String
  pub show_address : Address → String

module _ {W K P : Type 0} (cfg : Config W K P) (db : Database W) where
  -- the store of the users' core
  unfoldable pub user_bus : Storer W
  user_bus =
      Cache.new_store db.cache db.show (UserDb.new_store db.users db.counts db.show db.show_address)

  -- auth.New, with the users' core
  unfoldable pub auth_client : Auth W K P
  auth_client = Auth.new cfg.auth.jwt cfg.auth.now cfg.auth.parse_uuid cfg.auth.show_uuid (record {
    user_bus = some (Core.query_by_id cfg.host user_bus);
    check_user = Core.authenticate cfg.host user_bus;
    key_lookup = cfg.auth.key_lookup;
    issuer = cfg.auth.issuer;
    active_kid = cfg.auth.active_kid;
  })

  -- what the routes are given
  abbrev pub wired : Config W K P
  wired = record cfg {
    auth = auth_client;
    user_storer = user_bus;
    tenant_storer = TenantDb.new_store db.tenants db.show;
  }
