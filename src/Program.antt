-- ===== src/Program.antt =====
-- api/cmd/main.go: the configuration, the logger with its alert, and the run of the service from its
-- start to its end. Reading the environment, JSON, the server of net/http and the signals of the system
-- are parameters.
pub mod Alerts
pub mod Running
pub mod Holding
pub mod Releasing
use spi_exata.Base.{ℕ, String, Bool, List}
use spi_exata.Base.Errors.{Error, Result, ok}
use spi_exata.Base.State
use spi_exata.Base.State.{M}
use spi_exata.Base.Int.{ℤ}
use spi_exata.User.{Time}
use spi_exata.Logger.{Arg}
use spi_exata.Logger.Writing.{info}
use spi_exata.Sdk.Opening as Sqldb
use spi_exata.Tracing.Sampling as Tracing

-- Config, over the floats `F`
pub record Version : Type 0 where
  pub build : String
  pub desc : String

pub record Web : Type 0 where
  pub read_timeout : Time
  pub write_timeout : Time
  pub idle_timeout : Time
  pub shutdown_timeout : Time
  pub api_host : String
  pub debug_host : String
  pub cors_allowed_origins : List String

pub record Db : Type 0 where
  pub user : String
  pub password : String
  pub host : String
  pub name : String
  pub max_idle_conns : ℤ
  pub max_open_conns : ℤ
  pub disable_tls : Bool

pub record Auth : Type 0 where
  pub keys_folder : String
  pub issuer : String
  pub active_kid : String

pub record Tempo (F : Type 0) : Type 0 where
  pub host : String
  pub service_name : String
  pub probability : F
  pub enabled : Bool

pub record Config (F : Type 0) : Type 0 where
  pub version : Version
  pub web : Web
  pub db : Db
  pub auth : Auth
  pub tempo : Tempo F

-- sanitizeConfig; json.Marshal and the verb %+v are parameters
unfoldable pub sanitize_config :
    {F : Type 0} → (Config F → Result String) → (Config F → String) → Config F → String
sanitize_config marshal show cfg =
    let masked = record cfg { db = record cfg.db { password = "[MASKED]" } } in
    elim (marshal masked) [ ok content ↦ content | _ ↦ show masked ]

-- What ends the service: an error of the server, or a signal.
pub data Ending : Type 0 where
  server_error : Error → Ending
  signal : ℕ → Ending

-- http.Server, as far as run sets it, over the handlers `A`
pub record Server (A : Type 0) : Type 0 where
  pub addr : String
  pub handler : A
  pub read_timeout : Time
  pub write_timeout : Time
  pub idle_timeout : Time

-- What run calls: reading the configuration, its logger, the other packages, and the server. `listen`
-- starts the goroutine that listens and `wait` is the select over both channels, so neither panics
-- here: a panic of the goroutine ends the process at once. The three calls that close something return.
pub record Calls (W F D KS T A : Type 0) : Type 0 where
  pub build : String
  pub process : Version → M W (Config F)
  pub info : String → List Arg → M W (Unit {0})
  pub version_arg : Version → Arg
  pub print : Config F → String
  pub build_info : M W (Unit {0})
  pub publish : String → M W (Unit {0})
  pub open_db : Sqldb.Config → M W D
  pub close_db : D → W → W
  pub load_keys : String → M W KS
  pub init_tracing : Tracing.Config F → M W (T × (W → W))
  pub notify : M W (Unit {0})
  pub web_api : Config F → D → KS → T → M W A
  pub listen : Server A → W → W
  pub wait : W → Ending × W
  pub shutdown : Time → M W (Unit {0})
  pub close_server : W → W
