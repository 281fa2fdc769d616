-- ===== src/Sdk/Status/Ending.antt =====
-- StatusCheck ends.
use spi_exata.Base.{
  ℕ, zero, suc, ◌+◌, ◌-◌, ◌*◌, ◌≤◌, ◌≡◌, refl, inl, inr, Option, none, some, arith, Bool-cases,
  Option-cases,
}
use spi_exata.Base.Errors.{Result, ok, err}
use spi_exata.Sdk.Status.{
  Pool, pause, deadline_of, wait, confirm, status_check, IsAnswering, IsClock,
}

-- How long a number of attempts sleep, where the first is the one with the given number.
slept : ℕ → ℕ → ℕ
slept zero attempts = 0
slept (suc fuel) attempts = attempts * pause + slept fuel (suc attempts)

module _ {W : Type 0} (pool : Pool W) (answers : IsAnswering pool) (laws : IsClock pool) where
  -- the world after the ping
  pinged : W → W
  pinged w = (answers w).1

  pinged-later : (w : W) → pool.now w ≤ pool.now (pinged w)
  unfolding pinged
  pinged-later w = let (up, w1, e) = answers w in laws.ping_later w up w1 e

  -- One more attempt, where the context is alive after it only if waiting on ends.
  attempt-ends :
      (fuel attempts d : ℕ) (w : W)
      → (pool.ctx_error d (pool.sleep (attempts * pause) (pinged w)) ≡ none
          → (r : Result (Unit {0})) × (w' : W) × (wait pool fuel
                (suc attempts)
                d
                (pool.sleep (attempts * pause) (pinged w))
              ≡ some (r, w')))
      → (r : Result (Unit {0})) × (w' : W) × (wait pool (suc fuel) attempts d w ≡ some (r, w'))
  unfolding wait pinged
  attempt-ends fuel attempts d w rest =
      let (up, w1, e) = answers w in
      let w2 = pool.sleep (attempts * pause) w1 in
      elim (Bool-cases up) [
        | inl there ↦ (ok tt, w1, rw (wait, e, there) refl)
        | inr down ↦ elim (Option-cases (pool.ctx_error d w2)) [
          | inr (failed, given) ↦ (err failed, w2, rw (wait, e, down, given) refl)
          | inl alive ↦ let (r, w', same) = rest alive in (r, w', rw (wait, e, down, alive) same)
        ]
      ]

  wait-ends :
      (fuel attempts d : ℕ) (w : W)
      → d ≤ pool.now w + slept (suc fuel) attempts
      → (r : Result (Unit {0})) × (w' : W) × (wait pool (suc fuel) attempts d w ≡ some (r, w'))
  unfolding slept
  wait-ends zero attempts d w h =
      let w1 = pinged w in
      let later = pinged-later w in
      let later2 = laws.sleep_later (attempts * pause) w1 in
      attempt-ends zero attempts d w
        (λ alive. absurd (laws.expired d (pool.sleep (attempts * pause) w1) (omega arith) alive))
  wait-ends (suc fuel) attempts d w h =
      let w1 = pinged w in
      let later = pinged-later w in
      let later2 = laws.sleep_later (attempts * pause) w1 in
      attempt-ends (suc fuel) attempts d w
        (λ alive. wait-ends fuel (suc attempts) d (pool.sleep (attempts * pause) w1) (omega arith))

  fuelled_check :
      (fuel : ℕ) (deadline : Option ℕ) (w : W)
      → deadline_of pool deadline w ≤ pool.now w + slept (suc fuel) 1
      → (r : Result (Unit {0})) × (w' : W) × (status_check pool (suc fuel) deadline w
          ≡ some (r, w'))
  unfolding status_check
  fuelled_check fuel deadline w h =
      let d = deadline_of pool deadline w in
      let (r, w', same) = wait-ends fuel 1 d w h in
      ((confirm pool d (r, w')).0, (confirm pool d (r, w')).1, rw same refl)

  -- Each attempt sleeps for some time.
  fuel-le-slept : (fuel attempts : ℕ) → 1 ≤ attempts → fuel ≤ slept fuel attempts
  unfolding slept
  fuel-le-slept zero attempts h = omega arith
  fuel-le-slept (suc fuel) attempts h =
      let rest = fuel-le-slept fuel (suc attempts) (omega arith) in omega arith

  -- StatusCheck ends, whatever the database answers, if every ping returns: where the context has no
  -- deadline, after four attempts at most, and where it has one, after as many as there are nanoseconds
  -- up to it, and one more; if time does not run back, sleeping takes its time, and a context has an
  -- error once its deadline has come.
  pub status_check_ends :
      (deadline : ℕ) (w : W)
      → ((r : Result (Unit {0})) × (w' : W) × (status_check pool 4 none w ≡ some (r, w')))
        × ((r : Result (Unit {0})) × (w' : W) × (status_check pool
                (suc (deadline - pool.now w))
                (some deadline)
                w
              ≡ some (r, w')))
  unfolding slept
  status_check_ends deadline w =
      let enough = fuel-le-slept (suc (deadline - pool.now w)) 1 (omega arith) in
      (
        fuelled_check 3 none w (omega arith),
        fuelled_check (deadline - pool.now w) (some deadline) w (omega arith),
      )

module _ {W : Type 0} (pool : Pool W) where
  -- More fuel gives the same answer.
  wait-more :
      (fuel attempts d : ℕ) (w : W) (x : Result (Unit {0}) × W)
      → wait pool fuel attempts d w ≡ some x
      → wait pool (suc fuel) attempts d w ≡ some x
  unfolding wait
  wait-more zero attempts d w x h = cc
  wait-more (suc fuel) attempts d w x h = elim (Option-cases (pool.ping w)) [
    | inl blocked ↦ let k = rw (wait, blocked) at h in cc
    | inr ((up, w1), e) ↦
        let w2 = pool.sleep (attempts * pause) w1 in
        elim (Bool-cases up) [
          | inl there ↦ rw (wait, e, there) (rw (wait, e, there) at h)
          | inr down ↦ elim (Option-cases (pool.ctx_error d w2)) [
            | inr (failed, given) ↦ rw (wait, e, down, given) (rw (wait, e, down, given) at h)
            | inl alive ↦
                rw (wait, e, down, alive)
                  (wait-more fuel (suc attempts) d w2 x (rw (wait, e, down, alive) at h))
          ]
        ]
  ]
