-- ===== src/User/Core.antt =====
-- business/domain/userbus/userbus.go over any store. The clock, the making of UUIDs and bcrypt are
-- parameters.
pub mod Laws
use spi_exata.Base.{String, true, Option, none, some, List}
use spi_exata.Base.Errors.{authentication_failure, sentinel, wrap, Result, ok, err, panicked}
use spi_exata.Base.Errors as Errors
use spi_exata.Sdk.Tran.{NewWithTx}
use spi_exata.Base.State.{M, ◌>>=◌, ◌>>◌, return, step, lift, wrapping}
use spi_exata.Base.Int.{ℤ}
use spi_exata.Sdk.Order.{By}
use spi_exata.Sdk.Page.{Page}
use spi_exata.Types.Password.{Password}
use spi_exata.User.{Uuid, Time, Address, User, NewUser, UpdateUser, QueryFilter}

-- Storer
pub record Storer (W : Type 0) : Type 0 where
  pub create : User → M W (Unit {0})
  pub update : User → M W (Unit {0})
  pub delete : User → M W (Unit {0})
  pub query : QueryFilter → By → Page → M W (List User)
  pub count : QueryFilter → M W ℤ
  pub query_by_id : Uuid → M W User
  pub query_by_email : Address → M W User

-- time.Now, uuid.New, bcrypt.GenerateFromPassword and bcrypt.CompareHashAndPassword
pub record Host (W : Type 0) : Type 0 where
  pub now : W → Time × W
  pub new_uuid : W → Uuid × W
  pub generate_from_password : String → M W String
  pub compare_hash_and_password : String → String → Result (Unit {0})

-- `if p != nil { x = *p }`
abbrev pub or_keep {ℓ} : {A : Type ℓ} → Option A → A → A
or_keep none x = x
or_keep (some y) x = y

module _ {W : Type 0} (host : Host W) (storer : Storer W) where
  unfoldable pub create : NewUser → M W User
  create nu = do
    hash ← wrapping "generateFromPassword" (host.generate_from_password nu.password.value)
    now ← step host.now
    id ← step host.new_uuid
    let usr : User = record {
      id = id;
      name = nu.name;
      email = nu.email;
      role = nu.role;
      password_hash = hash;
      phone = nu.phone;
      enabled = true;
      created_at = now;
      updated_at = now;
    }
    _ ← wrapping "create" (storer.create usr)
    return usr

  -- the new hash, where a password is given
  unfoldable pub new_hash : Option Password → String → M W String
  new_hash none old = return old
  new_hash (some p) old = wrapping "generatefrompassword" (host.generate_from_password p.value)

  unfoldable pub update : User → UpdateUser → M W User
  update usr uu = do
    hash ← new_hash uu.password usr.password_hash
    now ← step host.now
    let usr' : User = record usr {
      name = or_keep uu.name usr.name;
      email = or_keep uu.email usr.email;
      role = or_keep uu.role usr.role;
      password_hash = hash;
      phone = or_keep uu.phone usr.phone;
      enabled = or_keep uu.enabled usr.enabled;
      updated_at = now;
    }
    _ ← wrapping "update" (storer.update usr')
    return usr'

  unfoldable pub delete : User → M W (Unit {0})
  delete usr = wrapping "delete" (storer.delete usr)

  unfoldable pub query : QueryFilter → By → Page → M W (List User)
  query filter order_by page = wrapping "query" (storer.query filter order_by page)

  unfoldable pub count : QueryFilter → M W ℤ
  count filter = storer.count filter

  unfoldable pub query_by_id : Uuid → M W User
  query_by_id user_id = wrapping "query: userID" (storer.query_by_id user_id)

  unfoldable pub query_by_email : Address → M W User
  query_by_email email = wrapping "query: email" (storer.query_by_email email)

  -- the comparison of Authenticate, with its only error
  unfoldable pub check_password : User → String → Result User
  check_password usr password = elim (host.compare_hash_and_password usr.password_hash password) [
    | ok _ ↦ ok usr
    | err _ ↦ err (wrap "compareHashAndPassword" (sentinel authentication_failure))
    | panicked m ↦ panicked m
  ]

  unfoldable pub authenticate : Address → String → M W User
  unfolding query_by_email check_password
  authenticate email password = do
    usr ← wrapping "query: email" (query_by_email email)
    lift (check_password usr password)

-- NewWithTx; a Core is its store
unfoldable pub new_with_tx : {W D : Type 0} → NewWithTx D (Storer W) → NewWithTx D (Storer W)
new_with_tx of_storer tx = Errors.◌>>=◌ (of_storer tx) (λ storer. ok storer)
