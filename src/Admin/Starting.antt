-- ===== src/Admin/Starting.antt =====
-- run and main of api/tooling/admin/main.go: the configuration, the database, and what the commands are
-- given. Reading the environment and the database are parameters.
use spi_exata.Base.{ℕ, String, Bool, List}
use spi_exata.Base.Errors.{Error, ok, err, panicked}
use spi_exata.Base.State.{M, ◌>>=◌, wrapping, deferring}
use spi_exata.Base.Int.{ℤ}
use spi_exata.Sdk.Opening as Sqldb
use spi_exata.User.{Uuid, Time}
use spi_exata.User.Core.{Host}
use spi_exata.User.Core as Users
use spi_exata.Tenant.Core as Tenants
use spi_exata.Admin.{Flags, run}

-- Config
pub record Config : Type 0 where
  pub user : String
  pub password : String
  pub host : String
  pub name : String
  pub max_idle_conns : ℤ
  pub max_open_conns : ℤ
  pub disable_tls : Bool

-- What run calls, with the stores of a database `D`.
pub record Calls (W D : Type 0) : Type 0 where
  pub process : M W Config
  pub open_db : Sqldb.Config → M W D
  pub close_db : D → W → W
  pub users : D → Users.Storer W
  pub tenants : D → Tenants.Storer W

module _ {W D : Type 0} (c : Calls W D) (flags : Flags) (host : Host W) (clock : W → Time × W)
    (new_uuid : W → Uuid × W) where
  unfoldable pub with_db : List String → D → M W (Unit {0})
  with_db args db = run flags host (c.users db) clock new_uuid (c.tenants db) args

  unfoldable pub with_config : List String → Config → M W (Unit {0})
  unfolding with_db
  with_config args cfg = do
    db ← wrapping "connecting to db" (
        c.open_db (record {
          user = cfg.user;
          password = cfg.password;
          host = cfg.host;
          name = cfg.name;
          schema = "";
          max_idle_conns = cfg.max_idle_conns;
          max_open_conns = cfg.max_open_conns;
          disable_tls = cfg.disable_tls;
        }))
    deferring (c.close_db db) (with_db args db)

  -- run, told os.Args
  unfoldable pub start : List String → M W (Unit {0})
  unfolding with_config
  start args = do cfg ← wrapping "processing config" c.process; with_config args cfg

  -- main: the status of the exit
  unfoldable pub main : (Error → W → W) → List String → W → ℕ × W
  main error args w =
      let (r, w') = start args w in
      elim r [ ok _ ↦ (0, w') | err e ↦ (1, error e w') | panicked m ↦ (2, w') ]
