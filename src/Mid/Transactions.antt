-- ===== src/Mid/Transactions.antt =====
-- app/sdk/mid/transaction.go: a handler inside a transaction. Begin, Commit and Rollback are those of
-- the interfaces in business/sdk/sqldb/tran.go, as parameters.
use spi_exata.Base.{
  String, ◌≡◌, ◌≢◌, ◌⊎◌, inl, inr, refl, ap, sym, ◌∙◌, true, false, if◌then◌else◌, arith,
}
use spi_exata.Base.Errors.{Result, ok, err, panicked}
use spi_exata.Base.State.{M}
use spi_exata.Errs.{errorf}
use spi_exata.Errs.Codes.{internal}
use spi_exata.Web.{Encoder, app_error, Answer, answer, panic, HandlerFunc, MidFunc}
use spi_exata.Mid.{Context, Request, Tran, set_tran, is_failure}

-- Beginner and CommitRollbacker
pub record Beginner (W : Type 0) : Type 0 where
  pub begin : M W Tran
  pub commit : Tran → M W (Unit {0})
  pub rollback : Tran → M W (Unit {0})

module _ {W : Type 0} (bgn : Beginner W) where
  -- the deferred call: its error is logged only, and a panic of it replaces the outcome
  abbrev deferred : Answer → Result (Unit {0}) → Answer
  deferred a (panicked m) = panic m
  deferred a _ = a

  rolled_back : Tran → Answer × W → Answer × W
  rolled_back tx (a, w) = let (r, w') = bgn.rollback tx w in (deferred a r, w')

  abbrev committed : Encoder → Result (Unit {0}) → Answer
  committed resp (ok _) = answer resp
  committed resp (err e) = answer (app_error (errorf internal "COMMIT TRANSACTION" e))
  committed resp (panicked m) = panic m

  -- what follows the handler, before the deferred call
  finish : Tran → Answer × W → Answer × W
  finish tx (panic m, w) = (panic m, w)
  finish tx (answer resp, w) =
      if is_failure resp
      then (answer resp, w)
      else let (r, w') = bgn.commit tx w in (committed resp r, w')

  within : HandlerFunc W Context Request → Context → Request → Result Tran → W → Answer × W
  unfolding rolled_back finish
  within next ctx r (err e) w = (answer (app_error (errorf internal "BEGIN TRANSACTION" e)), w)
  within next ctx r (panicked m) w = (panic m, w)
  within next ctx r (ok tx) w = rolled_back tx (finish tx (next (set_tran ctx tx) r w))

  -- BeginCommitRollback
  unfoldable pub begin_commit_rollback : MidFunc W Context Request
  unfolding within
  begin_commit_rollback next ctx r w = let (res, w') = bgn.begin w in within next ctx r res w'

  -- What a request comes to that is answered without an error: the transaction was begun, the
  -- handler gave this answer, the transaction was committed after that, and rolling back the
  -- finished transaction came last.
  pub record IsCommitted (next : HandlerFunc W Context Request) (ctx : Context) (r : Request)
      (resp : Encoder) (w w' : W) : Type 0 where
    pub tx : Tran
    pub begun : W
    pub begin : bgn.begin w ≡ (ok tx, begun)
    pub handled : W
    pub handle : next (set_tran ctx tx) r begun ≡ (answer resp, handled)
    pub done : W
    pub commit : bgn.commit tx handled ≡ (ok tt, done)
    pub last : (bgn.rollback tx done).1 ≡ w'

  finish-answer :
      (tx : Tran) (x : Answer) (w : W) (resp : Encoder)
      → is_failure resp ≡ false
      → (finish tx (x, w)).0 ≡ answer resp
      → (x ≡ answer resp)
        × ((bgn.commit tx w).0 ≡ ok tt)
        × ((finish tx (x, w)).1 ≡ (bgn.commit tx w).1)
  unfolding finish
  finish-answer tx (panic m) w resp plain h = cc
  finish-answer tx (answer x) w resp plain h = (ground arith, ground arith, ground arith)

  rolled_back-answer :
      (tx : Tran) (p : Answer × W) (resp : Encoder)
      → (rolled_back tx p).0 ≡ answer resp
      → p.0 ≡ answer resp
  unfolding rolled_back
  rolled_back-answer tx p resp h = ground arith

  within-answer :
      (next : HandlerFunc W Context Request) (ctx : Context) (r : Request) (res : Result Tran)
      (w : W) (resp : Encoder)
      → is_failure resp ≡ false
      → (within next ctx r res w).0 ≡ answer resp
      → (tx : Tran) × (res ≡ ok tx)
        × ((finish tx (next (set_tran ctx tx) r w)).0 ≡ answer resp)
        × ((within next ctx r res w).1
            ≡ (bgn.rollback tx (finish tx (next (set_tran ctx tx) r w)).1).1)
  unfolding within
  within-answer next ctx r (err e) w resp plain h = absurd (ground arith)
  within-answer next ctx r (panicked m) w resp plain h = cc
  within-answer next ctx r (ok tx) w resp plain h =
      (tx, refl, rolled_back-answer tx (finish tx (next (set_tran ctx tx) r w)) resp h, refl)

  -- A request that BeginCommitRollback answers without an error was handled in a transaction that
  -- was begun before the handler and committed after it; the handler gave the same answer.
  pub begin_commit_rollback-IsCommitted :
      (next : HandlerFunc W Context Request) (ctx : Context) (r : Request) (w : W) (resp : Encoder)
      → is_failure resp ≡ false
      → (begin_commit_rollback next ctx r w).0 ≡ answer resp
      → IsCommitted next ctx r resp w (begin_commit_rollback next ctx r w).1
  unfolding begin_commit_rollback
  begin_commit_rollback-IsCommitted next ctx r w resp plain h =
      let begun = (bgn.begin w).1 in
      let (tx, b, f, world) = within-answer next ctx r (bgn.begin w).0 begun resp plain h in
      let handled = (next (set_tran ctx tx) r begun).1 in
      let (same, commit, after) =
        finish-answer tx (next (set_tran ctx tx) r begun).0 handled resp plain f in
      record {
        tx = tx;
        begun = begun;
        begin = ground arith;
        handled = handled;
        handle = ground arith;
        done = (bgn.commit tx handled).1;
        commit = ground arith;
        last = ap (λ w. (bgn.rollback tx w).1) (sym after) ∙ sym world;
      }

  finish-failed :
      (tx : Tran) (x : Answer) (w : W)
      → ((resp : Encoder) × (x ≡ answer resp) × (is_failure resp ≡ true))
        ⊎ ((m : String) × (x ≡ panic m))
      → finish tx (x, w) ≡ (x, w)
  unfolding finish
  finish-failed tx (panic m) w failed = refl
  finish-failed tx (answer resp) w (inl (y, e, f)) = ground arith
  finish-failed tx (answer resp) w (inr (m, e)) = cc

  rolled_back-calm :
      (tx : Tran) (x : Answer) (z : Result (Unit {0})) (w done : W)
      → bgn.rollback tx w ≡ (z, done)
      → ((m : String) → z ≢ panicked m)
      → rolled_back tx (x, w) ≡ (x, done)
  unfolding rolled_back
  rolled_back-calm tx x (ok u) w done k calm = rw k refl
  rolled_back-calm tx x (err e) w done k calm = rw k refl
  rolled_back-calm tx x (panicked m) w done k calm = absurd (calm m refl)

  -- Where the handler answers with an error or panics, nothing is committed: after the handler the
  -- transaction is only rolled back, and the answer or the panic is handed on, if rolling back does
  -- not panic.
  pub begin_commit_rollback_of_failure :
      (next : HandlerFunc W Context Request) (ctx : Context) (r : Request)
      (w begun handled done : W) (tx : Tran) (x : Answer) (z : Result (Unit {0}))
      → bgn.begin w ≡ (ok tx, begun)
      → next (set_tran ctx tx) r begun ≡ (x, handled)
      → ((resp : Encoder) × (x ≡ answer resp) × (is_failure resp ≡ true))
        ⊎ ((m : String) × (x ≡ panic m))
      → bgn.rollback tx handled ≡ (z, done)
      → ((m : String) → z ≢ panicked m)
      → begin_commit_rollback next ctx r w ≡ (x, done)
  unfolding begin_commit_rollback within
  begin_commit_rollback_of_failure next ctx r w begun handled done tx x z b n failed k calm =
      rw (b, n, finish-failed tx x handled failed) (rolled_back-calm tx x z handled done k calm)
