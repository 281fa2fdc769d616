-- ===== src/Tests/Users.antt =====
-- The users' business layer over the store in memory.
use spi_exata.Base.{◌≡◌, ◌↔◌, refl, ◌is◌, if◌then◌else◌}
use spi_exata.Base.Errors.{text, ok, err}
use spi_exata.Base.{[]}
use spi_exata.Base.Int.{ℤ}
use spi_exata.Sdk.Sqldb.{Driver, reply, failure, pg_error, unique_violation}
use spi_exata.User.{User}
use spi_exata.User.Db.{UserRow}
use spi_exata.User.Core.{Host, create, new_hash, update, authenticate}
use spi_exata.User.Core.Laws.{IsUpdated, update-IsUpdated, authenticate-eq-ok_iff}
use spi_exata.Tests.Values.{address, bill_user, moved_user, new_bill, move}
use spi_exata.Tests.Worlds.{World, store, empty_world}

-- The clock stands at 1, the next id is 7, and a password is its own hash.
abbrev pub host : Host World
host = record {
  now = λ w. (1, w);
  new_uuid = λ w. (7, w);
  generate_from_password = λ p w. (ok p, w);
  compare_hash_and_password = λ hash p. if hash is p then ok tt else err (text "mismatch");
}

abbrev pub world_of_bill : World
world_of_bill = (store.create bill_user empty_world).1

created : create host store new_bill empty_world ≡ (ok bill_user, world_of_bill)
unfolding create
created = refl

abbrev moved_bill : User
moved_bill = record moved_user { updated_at = 1 }

abbrev moved_world : World
moved_world = (store.update moved_bill world_of_bill).1

updated : update host store bill_user move world_of_bill ≡ (ok moved_bill, moved_world)
unfolding update new_hash
updated = refl

update-IsUpdated_example : IsUpdated host store bill_user move moved_bill moved_world
update-IsUpdated_example =
    update-IsUpdated host store bill_user move world_of_bill moved_bill moved_world updated

-- A host on which hashing fails.
abbrev failing_host : Host World
failing_host = record host { generate_from_password = λ p w. (err (text "length"), w) }

authenticate-eq-ok_example :
    ((authenticate host store (address "bill@example.com") "go#pher" world_of_bill).0
      ≡ ok bill_user)
    ↔ (((store.query_by_email (address "bill@example.com") world_of_bill).0 ≡ ok bill_user)
        × (host.compare_hash_and_password "go#pher" "go#pher" ≡ ok tt))
authenticate-eq-ok_example =
    authenticate-eq-ok_iff host store (address "bill@example.com") "go#pher" world_of_bill bill_user

-- A database that refuses every statement for the column "email".
abbrev refusing : Driver World UserRow
refusing = record {
  exec = λ query params w. (failure (pg_error unique_violation "email"), w);
  query = λ query params w. (reply [], w);
}

abbrev no_count : Driver World ℤ
no_count = record {
  exec = λ query params w. (reply tt, w);
  query = λ query params w. (reply [], w);
}
