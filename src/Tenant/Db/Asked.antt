-- ===== src/Tenant/Db/Asked.antt =====
-- What the database answered where AuthorizeUserAccessToDashboard gives a dashboard, whatever the
-- driver does.
use spi_exata.Base.{pair_path, String, ◌≡◌, refl, ap, ◌∙◌, ◌↔◌, ◌⊎◌, inl, inr, List, [], ◌∷◌, arith}
use spi_exata.Base.Int.{ℤ}
use spi_exata.Base.Errors.{Error, Result, ok, err, panicked}
use spi_exata.Sdk.Sqldb.{Reply, reply, failure, DriverError, scan_first, string}
use spi_exata.User.{Uuid, Time}
use spi_exata.Tenant.{TenantDashboard}
use spi_exata.Tenant.Core
use spi_exata.Tenant.Db
use spi_exata.Tenant.Db.{Drivers, missing_as}
use spi_exata.Tenant.Db.Tables.{dashboard_of_domain, access_of, of_three}

-- An answer has a first row that is scanned, or comes to an error or a panic.
Reply-cases :
    {T : Type 0} (r : Reply (List (Result T)))
    → ((v : T) × (rest : List (Result T)) × (r ≡ reply (ok v ∷ rest)))
      ⊎ (((e : Error) × (rest : List (Result T)) × (r ≡ reply (err e ∷ rest)))
          ⊎ (((m : String) × (rest : List (Result T)) × (r ≡ reply (panicked m ∷ rest)))
              ⊎ ((r ≡ reply []) ⊎ ((e : DriverError) × (r ≡ failure e)))))
Reply-cases (reply []) = inr (inr (inr (inl refl)))
Reply-cases (reply (ok v ∷ rest)) = inl (v, rest, refl)
Reply-cases (reply (err e ∷ rest)) = inr (inl (e, rest, refl))
Reply-cases (reply (panicked m ∷ rest)) = inr (inr (inl (m, rest, refl)))
Reply-cases (failure e) = inr (inr (inr (inr (e, refl))))

module _ {W : Type 0} (db : Drivers W) (show : Uuid → String) where
  -- what the two statements are answered with
  abbrev pub dashboards : String → W → Reply (List (Result TenantDashboard)) × W
  dashboards domain w = db.dashboards.query dashboard_of_domain (("domain", string domain) ∷ []) w

  abbrev pub accesses : Uuid → TenantDashboard → W → Reply (List (Result ℤ)) × W
  accesses u td w = db.ones.query access_of (of_three show u td.dashboard_id td.tenant_id) w

module _ {W : Type 0} (clock : W → Time × W) (new_uuid : W → Uuid × W) (db : Drivers W)
    (show : Uuid → String) where
  -- AuthorizeUserAccessToDashboard gives a dashboard exactly when the statement for dashboards of a
  -- domain answers with it as its first row, and then the statement for rows of access, asked with the
  -- user, this dashboard and its tenant, answers with a row that can be scanned. Whatever else the
  -- database does, an error of either statement included, nobody is let in.
  pub authorize-asked_iff :
      (u : Uuid) (domain : String) (w w2 : W) (td : TenantDashboard)
      → (Core.authorize_user_access_to_dashboard clock new_uuid (Db.new_store db show) u domain w
          ≡ (ok td, w2))
        ↔ ((w1 : W) × (others : List (Result TenantDashboard)) × (n : ℤ) × (ones : List (Result ℤ))
            × (dashboards db show domain w ≡ (reply (ok td ∷ others), w1))
            × (accesses db show u td w1 ≡ (reply (ok n ∷ ones), w2)))
  unfolding Core.authorize_user_access_to_dashboard Db.new_store Db.query_by_domain
      Db.check_user_dashboard_access scan_first
  authorize-asked_iff u domain w w2 td = (
    λ h. elim (Reply-cases (dashboards db show domain w).0) [
      | inl (x, others, e1) ↦
          let w1 = (dashboards db show domain w).1 in
          elim (Reply-cases (accesses db show u x w1).0) [
            | inl (n, ones, e2) ↦
                let same : (x ≡ td) × ((accesses db show u x w1).1 ≡ w2) =
                  (ground arith, ground arith) in
                let e2' : (accesses db show u td w1).0 ≡ reply (ok n ∷ ones) = rw same.0 at e2 in
                let w2' : (accesses db show u td w1).1 ≡ w2 = rw same.0 at same.1 in
                (
                  w1,
                  others,
                  n,
                  ones,
                  pair_path (e1 ∙ ap (λ v. reply (ok v ∷ others)) same.0) refl,
                  pair_path e2' w2',
                )
            | inr (inl (e, rest, e2)) ↦ absurd (ground arith)
            | inr (inr (inl (m, rest, e2))) ↦ absurd (ground arith)
            | inr (inr (inr (inl e2))) ↦ absurd (ground arith)
            | inr (inr (inr (inr (e, e2)))) ↦ absurd (ground arith)
          ]
      | inr (inl (e, rest, e1)) ↦ absurd (ground arith)
      | inr (inr (inl (m, rest, e1))) ↦ absurd (ground arith)
      | inr (inr (inr (inl e1))) ↦ absurd (ground arith)
      | inr (inr (inr (inr (e, e1)))) ↦ absurd (ground arith)
    ],
    λ (w1, others, n, ones, e1, e2). rw (e1, e2) refl,
  )
