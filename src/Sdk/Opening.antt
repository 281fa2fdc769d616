-- ===== src/Sdk/Opening.antt =====
-- Open of business/sdk/sqldb/sqldb.go. The URLs of net/url and the opening by sqlx are parameters.
use spi_exata.Base.{String, Bool, List, [], ◌∷◌, ◌is◌, if◌then◌else◌}
use spi_exata.Base.State.{M, ◌>>=◌, return, step}
use spi_exata.Base.Int.{ℤ}

-- Config
pub record Config : Type 0 where
  pub user : String
  pub password : String
  pub host : String
  pub name : String
  pub schema : String
  pub max_idle_conns : ℤ
  pub max_open_conns : ℤ
  pub disable_tls : Bool

-- url.URL, with the values of the query under their keys
pub record Url : Type 0 where
  pub scheme : String
  pub user : String × String
  pub host : String
  pub path : String
  pub query : List (String × String)

-- the `url.URL` of Open
unfoldable pub url_of : Config → Url
url_of cfg =
    let ssl_mode = if cfg.disable_tls then "disable" else "require" in
    let search_path = if cfg.schema is "" then [] else ("search_path", cfg.schema) ∷ [] in
    record {
      scheme = "postgres";
      user = (cfg.user, cfg.password);
      host = cfg.host;
      path = cfg.name;
      query = ("sslmode", ssl_mode) ∷ ("timezone", "utc") ∷ search_path;
    }

-- Open, over sqlx.Open of the driver pgx, and the setters of a database `D`
unfoldable pub open_db :
    {W D : Type 0} → (Url → M W D) → (D → ℤ → W → W) → (D → ℤ → W → W) → Config → M W D
open_db connect set_max_idle_conns set_max_open_conns cfg = do
  db ← connect (url_of cfg)
  _ ← step (λ w. (tt, set_max_idle_conns db cfg.max_idle_conns w))
  _ ← step (λ w. (tt, set_max_open_conns db cfg.max_open_conns w))
  return db
