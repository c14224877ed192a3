-- ===== src/Identity/LoginAttempts/Duration.antt =====
-- How long a lockout is.
use propnest_api.Base.{ℕ, zero, suc, ◌+◌, ◌-◌, ◌*◌, ◌^◌, ◌≤◌, ◌<◌, ◌≡◌, min, arith}
use native.Mathlib.Numerals.{towards_suc}
use propnest_api.Identity.LoginAttempts.{Settings, duration}

-- every duration is positive
pub record IsValid (settings : Settings) : Type 0 where
  pub window : 0 < settings.failure_window_seconds
  pub base : 0 < settings.lockout_base_seconds
  pub rate_window : 0 < settings.rate_limit_window_seconds
  pub cap : 0 < settings.lockout_max_seconds

pow_pos : (n : ℕ) → 1 ≤ 2 ^ n
pow_pos zero = omega arith
pow_pos (suc n) = omega (arith, pow_pos n)

grown : (a b : ℕ) → 1 ≤ b → a ≤ a * b
grown a zero h = omega arith
grown a (suc b) h = grind arith

pub duration_pos :
    (settings : Settings) → IsValid settings → (cycle : ℕ) → 0 < duration settings cycle
unfolding duration
duration_pos settings valid cycle = omega (
  arith,
  grown settings.lockout_base_seconds (2 ^ (cycle - 1)) (pow_pos (cycle - 1)),
  valid.base,
  valid.cap,
)

doubled : (b n : ℕ) → b * 2 ^ (n + 1) ≡ 2 * (b * 2 ^ n)
doubled b n = simp towards_suc (grind arith)

-- The first lockout takes the base, or the maximum where that is less; each further one takes twice
-- the time of the one before, up to the maximum; and none takes less than the first.
pub duration-progression :
    (settings : Settings) (n : ℕ)
    → (duration settings 1 ≡ min settings.lockout_base_seconds settings.lockout_max_seconds)
      × (duration settings (n + 2)
          ≡ min (2 * duration settings (n + 1)) settings.lockout_max_seconds)
      × (duration settings 1 ≤ duration settings (n + 1))
      × (duration settings (n + 1) ≤ settings.lockout_max_seconds)
unfolding duration
duration-progression settings n =
    let step : settings.lockout_base_seconds * 2 ^ (n + 1)
        ≡ 2 * (settings.lockout_base_seconds * 2 ^ n) =
      doubled settings.lockout_base_seconds n in
    let one : n + 2 - 1 ≡ n + 1 = omega arith in
    let zero : n + 1 - 1 ≡ n = omega arith in
    rw (one, zero)
      (
        omega arith,
        omega (arith, step),
        omega (arith, grown settings.lockout_base_seconds (2 ^ n) (pow_pos n)),
        omega arith,
      )
