-- ===== src/Sdk/Status.antt =====
-- business/sdk/sqldb/sqldb.go: StatusCheck, which waits for the database until a deadline. The clock,
-- sleeping, pinging and the error of the context are parameters; times are nanoseconds.
pub mod Ending
use spi_exata.Base.{ℕ, zero, suc, ◌+◌, ◌*◌, ◌≤◌, ◌≡◌, ◌≢◌, Bool, Option, none, some, if◌then◌else◌}
use spi_exata.Base.Errors.{Error, Result, ok, err, panicked}
use spi_exata.Base.State.{M}

-- `ctx_error d` is ctx.Err of a context with the deadline d: there may be an error before it too. A
-- ping tells whether the database is up; it is told of no context, and may never return.
pub record Pool (W : Type 0) : Type 0 where
  pub now : W → ℕ
  pub ping : W → Option (Bool × W)
  pub sleep : ℕ → W → W
  pub ctx_error : ℕ → W → Option Error
  pub select_true : M W (Unit {0})

-- time.Second, and 100 * time.Millisecond
abbrev second : ℕ
second = 1_000_000_000

abbrev pub pause : ℕ
pause = 100_000_000

module _ {W : Type 0} (pool : Pool W) where
  -- the deadline of the context, one second from now if it has none
  abbrev pub deadline_of : Option ℕ → W → ℕ
  deadline_of none w = pool.now w + second
  deadline_of (some d) w = d

  -- The loop over the attempts, with fuel for a number of them. An error of the context ends it; it
  -- gives nothing where it does not end, because a ping blocks or the fuel is too little.
  pub wait : ℕ → ℕ → ℕ → W → Option (Result (Unit {0}) × W)
  wait zero attempts d w = none
  wait (suc fuel) attempts d w = elim (pool.ping w) [
    | none ↦ none
    | some (up, w1) ↦
        let w2 = pool.sleep (attempts * pause) w1 in
        let rest = wait fuel (suc attempts) d w2 in
        if up
        then some (ok tt, w1)
        else elim (pool.ctx_error d w2) [ some e ↦ some (err e, w2) | none ↦ rest ]
  ]

  -- what follows the loop
  abbrev pub confirm : ℕ → Result (Unit {0}) × W → Result (Unit {0}) × W
  confirm d (ok _, w) = elim (pool.ctx_error d w) [
    | some e ↦ (err e, w)
    | none ↦ pool.select_true w
  ]
  confirm d (err e, w) = (err e, w)
  confirm d (panicked m, w) = (panicked m, w)

  abbrev confirmed : ℕ → Option (Result (Unit {0}) × W) → Option (Result (Unit {0}) × W)
  confirmed d none = none
  confirmed d (some r) = some (confirm d r)

  -- StatusCheck
  unfoldable pub status_check : ℕ → Option ℕ → W → Option (Result (Unit {0}) × W)
  unfolding wait
  status_check fuel deadline w = let d = deadline_of deadline w in confirmed d (wait fuel 1 d w)

  -- Every ping returns.
  abbrev pub IsAnswering : Type 0
  IsAnswering = (w : W) → (up : Bool) × (w' : W) × (pool.ping w ≡ some (up, w'))

  -- What is documented of the clock and of the context: time does not run back, sleeping takes the
  -- time it is told to, and once its deadline has come a context has an error.
  pub record IsClock : Type 0 where
    pub ping_later :
        (w : W) (up : Bool) (w' : W) → pool.ping w ≡ some (up, w') → pool.now w ≤ pool.now w'
    pub sleep_later : (n : ℕ) (w : W) → pool.now w + n ≤ pool.now (pool.sleep n w)
    pub expired : (d : ℕ) (w : W) → d ≤ pool.now w → pool.ctx_error d w ≢ none
