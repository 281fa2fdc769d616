-- ===== src/Tests/Checks.antt =====
-- A database that is never up, and a clock that sleeping alone moves on.
use spi_exata.Base.{ℕ, suc, ◌+◌, ◌-◌, ◌≡◌, refl, false, none, some, arith, leb, if◌then◌else◌}
use spi_exata.Base.Errors.{text, Result, ok, err}
use spi_exata.Sdk.Status.{Pool, IsClock, status_check}
use spi_exata.Sdk.Status.Ending.{status_check_ends}

abbrev silent : Pool ℕ
silent = record {
  now = λ w. w;
  ping = λ w. some (false, w);
  sleep = λ n w. w + n;
  ctx_error = λ d w. if leb d w then some (text "context deadline exceeded") else none;
  select_true = λ w. (ok tt, w);
}

silent-IsClock : IsClock silent
silent-IsClock = record {
  ping_later = λ w up w' e. ground arith;
  sleep_later = λ n w. omega arith;
  expired = λ d w h. ground arith;
}

-- Four attempts, and one second.
waited_test :
    status_check silent 4 none 0 ≡ some (err (text "context deadline exceeded"), 1_000_000_000)
unfolding status_check
waited_test = refl

status_check_ends_example :
    ((r : Result (Unit {0})) × (w' : ℕ) × (status_check silent 4 none 0 ≡ some (r, w')))
    × ((r : Result (Unit {0})) × (w' : ℕ) × (status_check silent
            (suc (250_000_000 - 0))
            (some 250_000_000)
            0
          ≡ some (r, w')))
status_check_ends_example =
    status_check_ends silent (λ w. (false, w, refl)) silent-IsClock 250_000_000 0
