-- ===== src/Identity/LoginAttempts.antt =====
-- The tracking of failed logins and the lockout (app/identity/repositories/login_attempt.py).
pub mod Duration
pub mod Throttle
pub mod Refinement
pub mod Lockout
use propnest_api.Base.{
  ℕ, ◌-◌, ◌*◌, ◌^◌, Bool, true, false, [], ◌∷◌, ◌++◌, ◌==◌, ltb, min, if◌then◌else◌,
}
use propnest_api.Core.Text.{Text, codes, normalize}
use propnest_api.Identity.Redis.{
  Redis, Ttl, missing, persistent, seconds, Effect, reply, ◌>>=◌, ◌>>◌,
}

-- the settings of app/core/config.py
pub record Settings : Type 0 where
  pub rate_limit_max_requests : ℕ
  pub rate_limit_window_seconds : ℕ
  pub max_failed_attempts : ℕ
  pub failure_window_seconds : ℕ
  pub lockout_base_seconds : ℕ
  pub lockout_max_seconds : ℕ

abbrev pub default_settings : Settings
default_settings = record {
  rate_limit_max_requests = 10;
  rate_limit_window_seconds = 60;
  max_failed_attempts = 5;
  failure_window_seconds = 900;
  lockout_base_seconds = 30;
  lockout_max_seconds = 900;
}

pub record LockoutStatus : Type 0 where
  pub locked : Bool
  pub retry_after_seconds : ℕ

abbrev pub unlocked : LockoutStatus
unlocked = record { locked = false; retry_after_seconds = 0 }

abbrev pub locked_for : ℕ → LockoutStatus
locked_for n = record { locked = true; retry_after_seconds = n }

unfoldable pub fail_key : Text → Text
fail_key norm = codes "login:fail:" ++ norm

unfoldable pub lock_key : Text → Text
lock_key norm = codes "login:lock:" ++ norm

unfoldable pub lockcount_key : Text → Text
lockcount_key norm = codes "login:lockcount:" ++ norm

-- `if ttl and ttl > 0`
abbrev pub lock_status : Ttl → LockoutStatus
lock_status missing = unlocked
lock_status persistent = unlocked
lock_status (seconds n) = if ltb 0 n then locked_for n else unlocked

-- the duration of the lockout of a cycle
unfoldable pub duration : Settings → ℕ → ℕ
duration settings cycle =
    min (settings.lockout_base_seconds * 2 ^ (cycle - 1)) settings.lockout_max_seconds

module _ {S : Type 0} (settings : Settings) (redis : Redis S) (now : ℕ) where
  unfoldable pub get_lock_status : Text → Effect S LockoutStatus
  get_lock_status identifier = do
    ttl ← redis.ttl now (lock_key (normalize identifier))
    reply (lock_status ttl)

  unfoldable pub record_success : Text → Effect S (Unit {0})
  record_success identifier =
      let norm = normalize identifier in redis.delete now (fail_key norm ∷ lock_key norm ∷ [])

  -- `_lock`
  unfoldable pub lock : Text → Effect S LockoutStatus
  lock norm = do
    cycle ← redis.incr now (lockcount_key norm)
    redis.expire now (lockcount_key norm) settings.lockout_max_seconds
    redis.set_ex now (lock_key norm) (duration settings cycle)
    redis.delete now (fail_key norm ∷ [])
    reply (locked_for (duration settings cycle))

  -- `if count == 1: expire`
  unfoldable pub start_window : Text → ℕ → ℕ → Effect S (Unit {0})
  start_window key window count = if count == 1 then redis.expire now key window else reply tt

  unfoldable pub lock_if : Text → Bool → Effect S LockoutStatus
  lock_if norm below = if below then reply unlocked else lock norm

  unfoldable pub record_failure : Text → Effect S LockoutStatus
  record_failure identifier = do
    let norm = normalize identifier
    count ← redis.incr now (fail_key norm)
    start_window (fail_key norm) settings.failure_window_seconds count
    lock_if norm (ltb count settings.max_failed_attempts)
