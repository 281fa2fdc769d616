-- ===== src/Admin/Laws.antt =====
-- What the commands come to.
use spi_exata.Base.{
  String, ◌≡◌, refl, sym, inl, inr, false, ◌||◌, none, some, List, ◌∷◌, arith, ◌is◌, Bool-cases,
}
use spi_exata.Base.Errors.{ok, value_of}
use spi_exata.User
use spi_exata.User.{Uuid, Time}
use spi_exata.User.Core
use spi_exata.User.Core.{Host, Storer}
use spi_exata.User.Core.Laws.{IsCreated, create-IsCreated}
use spi_exata.Tenant.{TenantDashboard}
use spi_exata.Tenant.Core as Tenants
use spi_exata.Tenant.Db
use spi_exata.Tenant.Db.{Drivers}
use spi_exata.Tenant.Db.Tables.{Tables, IsDatabase}
use spi_exata.Tenant.Grants.{authorize, grant, grant-authorize_iff}
use spi_exata.Admin.{Flags, to_new_user, run_create_user, run_link_user, run}

module _ {W : Type 0} (flags : Flags) (host : Host W) (users : Storer W) (clock : W → Time × W)
    (new_uuid : W → Uuid × W) where
  module _ (db : Drivers W) (show : Uuid → String) where
    link_steps :
        (args : List String) (w : W)
        → (run_link_user flags host users clock new_uuid (Db.new_store db show) args w).0 ≡ ok tt
        → (u d : Uuid) × (flags.parse_uuid (flags.link_flags args).user_id ≡ ok u)
          × (flags.parse_uuid (flags.link_flags args).dashboard_id ≡ ok d)
          × ((grant clock new_uuid db show u d w).0 ≡ ok tt)
          × ((run_link_user flags host users clock new_uuid (Db.new_store db show) args w).1
              ≡ (grant clock new_uuid db show u d w).1)
    unfolding run_link_user
    link_steps args w h =
        let f = flags.link_flags args in
        elim (Bool-cases (f.user_id is "" || f.dashboard_id is "")) [
          | inl missing ↦ absurd (let k = rw missing at h in ground arith)
          | inr given ↦
              let k = rw given at h in
              let (u, e) = value_of (flags.parse_uuid f.user_id) (ground arith) in
              let (d, e2) = value_of (flags.parse_uuid f.dashboard_id) (ground arith) in
              let m = rw (e, e2) at k in (u, d, e, e2, ground arith, rw (given, e, e2) refl)
        ]

    -- After link-user has succeeded, the user that the flags name enters each domain of the dashboard
    -- that they name, if there was no row of access for the two before, and PostgreSQL does what
    -- IsDatabase says.
    pub link_user-authorize :
        (t : Tables W)
        → IsDatabase db show t
        → (program : String) (args : List String) (w : W)
        → (run flags host users clock new_uuid
            (Db.new_store db show)
            (program ∷ "link-user" ∷ args)
            w).0
          ≡ ok tt
        → let w' =
            (run flags host users clock new_uuid
              (Db.new_store db show)
              (program ∷ "link-user" ∷ args)
              w).1 in
          (u d : Uuid) × (flags.parse_uuid (flags.link_flags args).user_id ≡ ok u)
          × (flags.parse_uuid (flags.link_flags args).dashboard_id ≡ ok d)
          × ((domain : String) (td : TenantDashboard)
              → t.domain_of w domain ≡ some td
              → td.dashboard_id ≡ d
              → t.access w u d ≡ none
              → authorize clock new_uuid db show u domain w' ≡ (ok td, w'))
    unfolding run
    link_user-authorize t laws program args w h =
        let (u, d, e, e2, granted, world) = link_steps args w h in
        (
          u,
          d,
          e,
          e2,
          λ domain td there same fresh.
              let granted' : (grant clock new_uuid db show u td.dashboard_id w).0 ≡ ok tt =
                rw same granted in
              let fresh' : t.access w u td.dashboard_id ≡ none = rw same fresh in
              rw (world, ← same)
                ((grant-authorize_iff clock new_uuid db show t laws u domain w td there granted').1
                  (inl fresh')),
        )

  create_world :
      (tenants : Tenants.Storer W) (args : List String) (w : W) (nu : User.NewUser)
      (usr : User.User)
      → ((flags.create_flags args).email is ""
          || (flags.create_flags args).password is ""
          || (flags.create_flags args).name is "")
        ≡ false
      → to_new_user (flags.create_flags args) ≡ ok nu
      → (Core.create host users nu w).0 ≡ ok usr
      → (run_create_user flags host users clock new_uuid tenants args w).1
        ≡ (Core.create host users nu w).1
  unfolding run_create_user
  create_world tenants args w nu usr given e made = rw (given, e, made) refl

  -- After create-user has succeeded, the name, the role and the password of the flags are valid, and
  -- the store has taken a user with them and with the address of the flags.
  create_user-IsCreated :
      (tenants : Tenants.Storer W) (program : String) (args : List String) (w : W)
      → (run flags host users clock new_uuid tenants (program ∷ "create-user" ∷ args) w).0 ≡ ok tt
      → (nu : User.NewUser) × (usr : User.User) × (to_new_user (flags.create_flags args) ≡ ok nu)
        × IsCreated host users nu w usr
            (run flags host users clock new_uuid tenants (program ∷ "create-user" ∷ args) w).1
  unfolding run run_create_user
  create_user-IsCreated tenants program args w h =
      let f = flags.create_flags args in
      elim (Bool-cases (f.email is "" || f.password is "" || f.name is "")) [
        | inl missing ↦ absurd (let k = rw missing at h in ground arith)
        | inr given ↦
            let k = rw given at h in
            let (nu, e) = value_of (to_new_user f) (ground arith) in
            let m = rw e at k in
            let (usr, made) = value_of (Core.create host users nu w).0 (ground arith) in
            (
              nu,
              usr,
              e,
              create-IsCreated host users nu w usr
                  (run_create_user flags host users clock new_uuid tenants args w).1
                  (let world = sym (create_world tenants args w nu usr given e made) in
                    λ i. (made i, world i)),
            )
      ]
