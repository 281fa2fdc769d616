-- ===== src/User/Core/Laws.antt =====
-- What the operations of the users' business layer guarantee over any store.
use spi_exata.Base.{String, ◌≡◌, ◌↔◌, true, Option, none, some, arith}
use spi_exata.Base.Errors.{
  Sentinel, authentication_failure, Error, sentinel, wrap, is_error, ok, err,
}
use spi_exata.Types.Password.{Password}
use spi_exata.User.{Address, User, NewUser, UpdateUser}
use spi_exata.User.Core.{Storer, Host, or_keep, create, new_hash, update, authenticate}

module _ {W : Type 0} (host : Host W) (storer : Storer W) where
  -- What a successful creation did.
  pub record IsCreated (nu : NewUser) (w : W) (usr : User) (w' : W) : Type 0 where
    -- the hash was made from the given password
    pub hash_of :
        (v : W) × (host.generate_from_password nu.password.value w ≡ (ok usr.password_hash, v))
    -- the store took this user last
    pub stored : (v : W) × (storer.create usr v ≡ (ok tt, w'))
    pub enabled : usr.enabled ≡ true
    pub times : usr.updated_at ≡ usr.created_at
    pub name : usr.name ≡ nu.name
    pub email : usr.email ≡ nu.email
    pub role : usr.role ≡ nu.role
    pub phone : usr.phone ≡ nu.phone

  -- A user that Create returns was taken by the store as it is, and that was the last step; its
  -- hash was made from the given password, it is enabled, its two times are the same, and its
  -- name, e-mail, role and phone are those given.
  pub create-IsCreated :
      (nu : NewUser) (w : W) (usr : User) (w' : W)
      → create host storer nu w ≡ (ok usr, w')
      → IsCreated nu w usr w'
  unfolding create
  create-IsCreated nu w usr w' h =
      let hashed = host.generate_from_password nu.password.value w in
      record {
        hash_of = (hashed.1, ground arith);
        stored = ((host.new_uuid (host.now hashed.1).1).1, ground arith);
        enabled = ground arith;
        times = ground arith;
        name = ground arith;
        email = ground arith;
        role = ground arith;
        phone = ground arith;
      }

  -- The old hash, or one that was made from the new password.
  abbrev pub IsHashOf : Option Password → String → String → Type 0
  IsHashOf none old hash = hash ≡ old
  IsHashOf (some p) old hash = (u v : W) × (host.generate_from_password p.value u ≡ (ok hash, v))

  new_hash-IsHashOf :
      (o : Option Password) (old hash : String) (w : W)
      → (new_hash host storer o old w).0 ≡ ok hash
      → IsHashOf o old hash
  unfolding new_hash
  new_hash-IsHashOf none old hash w h = ground arith
  new_hash-IsHashOf (some p) old hash w h =
      (w, (host.generate_from_password p.value w).1, ground arith)

  -- What a successful update did.
  pub record IsUpdated (old : User) (uu : UpdateUser) (usr : User) (w' : W) : Type 0 where
    pub stored : (v : W) × (storer.update usr v ≡ (ok tt, w'))
    pub id : usr.id ≡ old.id
    pub created_at : usr.created_at ≡ old.created_at
    pub name : usr.name ≡ or_keep uu.name old.name
    pub email : usr.email ≡ or_keep uu.email old.email
    pub role : usr.role ≡ or_keep uu.role old.role
    pub phone : usr.phone ≡ or_keep uu.phone old.phone
    pub enabled : usr.enabled ≡ or_keep uu.enabled old.enabled
    pub hash : IsHashOf uu.password old.password_hash usr.password_hash

  hashed : UpdateUser → User → W → W
  hashed uu old w = (new_hash host storer uu.password old.password_hash w).1

  -- A user that Update returns was taken by the store as it is, and that was the last step; each
  -- field that the update names is new, the hash is made from the new password if one is given,
  -- and all other fields but the time of the update are kept.
  pub update-IsUpdated :
      (old : User) (uu : UpdateUser) (w : W) (usr : User) (w' : W)
      → update host storer old uu w ≡ (ok usr, w')
      → IsUpdated old uu usr w'
  unfolding update hashed
  update-IsUpdated old uu w usr w' h = record {
    stored = ((host.now (hashed uu old w)).1, ground arith);
    id = ground arith;
    created_at = ground arith;
    name = ground arith;
    email = ground arith;
    role = ground arith;
    phone = ground arith;
    enabled = ground arith;
    hash = new_hash-IsHashOf uu.password old.password_hash usr.password_hash w (ground arith);
  }

  -- If hashing the new password fails, Update hands nothing to the store: the world is the one that
  -- the hashing left, and the error is wrapped.
  pub update_of_hash_failure :
      (old : User) (uu : UpdateUser) (p : Password) (e : Error) (w w' : W)
      → uu.password ≡ some p
      → host.generate_from_password p.value w ≡ (err e, w')
      → update host storer old uu w ≡ (err (wrap "generatefrompassword" e), w')
  unfolding update new_hash
  update_of_hash_failure old uu p e w w' h k = ground arith

  -- Authenticate returns a user exactly when the store finds that user under the e-mail address and
  -- the password fits its hash; being enabled is not asked for.
  pub authenticate-eq-ok_iff :
      (email : Address) (password : String) (w : W) (usr : User)
      → ((authenticate host storer email password w).0 ≡ ok usr) ↔ (
          ((storer.query_by_email email w).0 ≡ ok usr)
          × (host.compare_hash_and_password usr.password_hash password ≡ ok tt))
  unfolding authenticate
  authenticate-eq-ok_iff email password w usr = ground arith

  -- Where the store finds a user and the password does not fit, the error of Authenticate is
  -- ErrAuthenticationFailure to errors.Is, and no other error variable.
  pub authenticate_of_mismatch :
      (email : Address) (password : String) (w w' : W) (usr : User) (e : Error)
      → storer.query_by_email email w ≡ (ok usr, w')
      → host.compare_hash_and_password usr.password_hash password ≡ err e
      → (x : Error) × (authenticate host storer email password w ≡ (err x, w'))
        × ((s : Sentinel) → (is_error x s ≡ true) ↔ (s ≡ authentication_failure))
  unfolding authenticate is_error
  authenticate_of_mismatch email password w w' usr e h k = (
    wrap "compareHashAndPassword" (sentinel authentication_failure),
    ground arith,
    λ s. ground arith,
  )
