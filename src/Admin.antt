-- ===== src/Admin.antt =====
-- api/tooling/admin/main.go: the commands that create a user and link one to a dashboard. Reading the
-- flags and the texts of UUIDs are parameters; what is printed is not modelled.
pub mod Laws
pub mod Starting
use spi_exata.Base.{String, false, ◌||◌, List, ◌∷◌, ◌is◌, if◌then◌else◌}
use spi_exata.Base.Errors.{text, invalid, Result, ok}
use spi_exata.Base.Errors
use spi_exata.Base.State.{M, ◌>>=◌, ◌>>◌, return, fail, lift, wrapping}
use spi_exata.Types.Name
use spi_exata.Types.Password
use spi_exata.Types.Phone
use spi_exata.Types.Enums.{parse_role}
use spi_exata.User
use spi_exata.User.{Uuid, Time, Address}
use spi_exata.User.Core
use spi_exata.User.Core.{Host}
use spi_exata.Tenant.Core as Tenants

-- the flags of create-user
pub record CreateFlags : Type 0 where
  pub email : String
  pub password : String
  pub name : String
  pub role : String

-- the flags of link-user
pub record LinkFlags : Type 0 where
  pub user_id : String
  pub dashboard_id : String

-- flag.FlagSet for the two commands, and uuid.Parse
pub record Flags : Type 0 where
  pub create_flags : List String → CreateFlags
  pub link_flags : List String → LinkFlags
  pub parse_uuid : String → Result Uuid

-- mailAddress
abbrev mail_address : String → Address
mail_address address = record { name = ""; address = address }

abbrev null_phone : Phone.Null
null_phone = record { value = ""; valid = false }

-- the user that the flags describe
unfoldable pub to_new_user : CreateFlags → Result User.NewUser
to_new_user flags = Errors.◌>>=◌ (Errors.wrapping "invalid name" (Name.parse flags.name)) (λ n.
    Errors.◌>>=◌ (Errors.wrapping "invalid role" (parse_role flags.role)) (λ r.
      Errors.◌>>=◌ (Errors.wrapping "invalid password" (Password.parse flags.password)) (λ p.
        ok (record {
          name = n;
          email = mail_address flags.email;
          phone = null_phone;
          role = r;
          password = p;
        }))))

module _ {W : Type 0} (flags : Flags) (host : Host W) (users : Core.Storer W) (clock : W → Time × W)
    (new_uuid : W → Uuid × W) (tenants : Tenants.Storer W) where
  -- runCreateUser
  pub run_create_user : List String → M W (Unit {0})
  run_create_user args =
      let f = flags.create_flags args in
      if f.email is "" || f.password is "" || f.name is ""
      then fail (text "missing required fields")
      else (do
        new_user ← lift (to_new_user f)
        _ ← wrapping "create user failed" (Core.create host users new_user)
        return tt)

  -- runLinkUser
  pub run_link_user : List String → M W (Unit {0})
  run_link_user args =
      let f = flags.link_flags args in
      if f.user_id is "" || f.dashboard_id is "" then fail (text "missing required IDs") else (do
        user_id ← wrapping "invalid user uuid" (lift (flags.parse_uuid f.user_id))
        dash_id ← wrapping "invalid dashboard uuid" (lift (flags.parse_uuid f.dashboard_id))
        wrapping "failed to link user"
            (Tenants.grant_user_access_to_dashboard clock new_uuid tenants user_id dash_id))

  -- run, from os.Args on: without a command it prints the usage
  unfoldable pub run : List String → M W (Unit {0})
  unfolding run_create_user run_link_user
  run (_ ∷ command ∷ args) =
      if command is "create-user"
      then run_create_user args
      else if command is "link-user"
      then run_link_user args
      else fail (invalid "unknown command" command)
  run _ = return tt
