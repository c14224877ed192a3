-- ===== src/Identity/IpRateLimit.antt =====
-- The limit on login requests from one address (app/identity/repositories/ip_rate_limit.py).
pub mod Window
pub mod Limit
use propnest_api.Base.{ℕ, Bool, true, false, ◌++◌, leb, ltb, if◌then◌else◌}
use propnest_api.Core.Text.{Text, codes}
use propnest_api.Identity.Redis.{
  Redis, Ttl, missing, persistent, seconds, Effect, reply, ◌>>=◌, ◌>>◌,
}
use propnest_api.Identity.LoginAttempts.{Settings, start_window}

pub record RateLimitStatus : Type 0 where
  pub allowed : Bool
  pub retry_after_seconds : ℕ

-- `max(ttl, 1)`: the TTL of a missing key and of one without an expiry is negative
abbrev pub at_least_one : Ttl → ℕ
at_least_one missing = 1
at_least_one persistent = 1
at_least_one (seconds n) = if ltb n 1 then 1 else n

unfoldable pub ip_key : Text → Text
ip_key ip = codes "ratelimit:login:" ++ ip

module _ {S : Type 0} (settings : Settings) (redis : Redis S) (now : ℕ) where
  unfoldable pub refuse : Text → Effect S RateLimitStatus
  refuse key = do
    ttl ← redis.ttl now key
    reply (record { allowed = false; retry_after_seconds = at_least_one ttl })

  unfoldable pub decide : Text → Bool → Effect S RateLimitStatus
  decide key within =
      if within then reply (record { allowed = true; retry_after_seconds = 0 }) else refuse key

  unfoldable pub check : Text → Effect S RateLimitStatus
  check ip = do
    let key = ip_key ip
    count ← redis.incr now key
    start_window settings redis now key settings.rate_limit_window_seconds count
    decide key (leb count settings.rate_limit_max_requests)
