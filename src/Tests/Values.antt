-- ===== src/Tests/Values.antt =====
-- Two users to test with.
use spi_exata.Base.{true, none, some, String}
use spi_exata.Types.Name.{Name}
use spi_exata.Types.Password.{Password}
use spi_exata.Types.Enums.{admin}
use spi_exata.User.{Address, User, NewUser, UpdateUser}

abbrev pub bill : Name
bill = record { value = "Bill" }

abbrev pub address : String → Address
address a = record { name = ""; address = a }

abbrev pub secret : Password
secret = record { value = "go#pher" }

abbrev pub bill_user : User
bill_user = record {
  id = 7;
  name = bill;
  email = address "bill@example.com";
  role = admin;
  password_hash = "go#pher";
  phone = record { value = "+15551234"; valid = true };
  enabled = true;
  created_at = 1;
  updated_at = 1;
}

-- The same user after an update of the address.
abbrev pub moved_user : User
moved_user = record bill_user { email = address "will@example.com"; updated_at = 5 }

abbrev pub new_bill : NewUser
new_bill = record {
  name = bill;
  email = address "bill@example.com";
  phone = record { value = "+15551234"; valid = true };
  role = admin;
  password = secret;
}

abbrev pub move : UpdateUser
move = record {
  name = none;
  email = some (address "will@example.com");
  role = none;
  phone = none;
  password = some secret;
  enabled = none;
}
