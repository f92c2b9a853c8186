-- ===== src/Quality/Worker/Delay.antt =====
-- How long a job waits for its next attempt.
use mathlib.Core.Option.{some-injective}
use enterprise_work_order_ai.Prelude.{ℕ, zero, suc, ◌*◌, ◌^◌, ◌≤◌, ◌≡◌, refl, ◌⊎◌, min, arith, some}
use enterprise_work_order_ai.Quality.Worker.{retry_delay}

two_pow-pos : (n : ℕ) → 1 ≤ 2 ^ n
two_pow-pos zero = omega arith
two_pow-pos (suc n) = omega (arith, two_pow-pos n)

-- For an attempt that counts from one, the delay of the next attempt is at least five minutes and at
-- most an hour, it never falls from one attempt to the next, and it doubles until the hour is met.
pub retry_delay-bounds :
    (n : ℕ)
    → (d : ℕ) × (next : ℕ) × (retry_delay (suc n) ≡ some d)
      × (retry_delay (suc (suc n)) ≡ some next)
      × (300 ≤ d)
      × (d ≤ 3600)
      × (d ≤ next)
      × ((next ≡ 2 * d) ⊎ (next ≡ 3600))
unfolding retry_delay
retry_delay-bounds n = (
  min (5 * 2 ^ n) 60 * 60,
  min (5 * 2 ^ suc n) 60 * 60,
  refl,
  refl,
  omega (arith, two_pow-pos n),
  omega arith,
  omega arith,
  ground (arith, two_pow-pos n),
)

-- A delay is at least five minutes and at most an hour.
pub retry_delay-le : (n : ℕ) {d : ℕ} → retry_delay n ≡ some d → (300 ≤ d) × (d ≤ 3600)
unfolding retry_delay
retry_delay-le zero h = cc
retry_delay-le (suc n) {d} h =
    let same : min (5 * 2 ^ n) 60 * 60 ≡ d = some-injective _ d h in
    rw (← same) (omega (arith, two_pow-pos n), omega arith)
