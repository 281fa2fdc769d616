-- ===== src/Tests/Logins.antt =====
-- A guest who logs in, and gets a token.
use spi_exata.Base.{◌≡◌, refl, inr, []}
use spi_exata.Base.Errors.{ok}
use spi_exata.Tenant.Db
use spi_exata.Tenant.Db.{missing_as}
use spi_exata.Auth
use spi_exata.Web.{document, answer}
use spi_exata.Web.Decoding.{decode}
use spi_exata.App.Login.{login}
use spi_exata.App.Login.Issuing.{Authenticates, login_answers, link_user-login}
use spi_exata.Tests.Values.{address}
use spi_exata.Tests.Requests.{request}
use spi_exata.Tests.Tenants.{World, tables, show, drivers, drivers-IsDatabase, no_rows, clock, here}
use spi_exata.Tests.Commands.{flags, host, users, linked, linked_world}
use spi_exata.Tests.Apps.{texts, guest, service, codec, render, split_host_port, granted}

guest-Authenticates :
    (w : World)
    → Authenticates texts codec render split_host_port service clock clock drivers show request w
        guest w
unfolding decode
guest-Authenticates w = record {
  req = record { email = "bill@example.com"; password = "" };
  decoded = refl;
  addr = address "bill@example.com";
  parsed = refl;
  is_set = λ e. cc;
  checked = refl;
}

made : Auth.generate_token service 1 7 10 guest.role granted ≡ (ok "t", granted)
unfolding Auth.generate_token
made = refl

login_answers_example :
    login texts codec render split_host_port service clock clock
      (Db.new_store drivers show)
      []
      request
      granted
    ≡ (answer (document "t"), granted)
login_answers_example =
    login_answers texts codec render split_host_port service clock clock drivers show tables
      drivers-IsDatabase [] request granted granted granted guest here "t"
      (guest-Authenticates granted) refl (inr refl) made

made_linked : Auth.generate_token service 1 7 10 guest.role linked_world ≡ (ok "t", linked_world)
unfolding Auth.generate_token
made_linked = refl

link_user-login_example :
    login texts codec render split_host_port service clock clock
      (Db.new_store drivers show)
      []
      request
      linked_world
    ≡ (answer (document "t"), linked_world)
link_user-login_example =
    link_user-login texts codec render split_host_port service clock clock drivers show tables
      drivers-IsDatabase flags host users "admin" [] no_rows 7 here linked refl refl refl refl []
      request guest "t" linked_world refl (guest-Authenticates linked_world) made_linked
