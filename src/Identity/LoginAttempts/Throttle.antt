-- ===== src/Identity/LoginAttempts/Throttle.antt =====
-- What the tracking of one identifier promises, with no keys and no server: the failures of the
-- window, the lock, and the number of recent lockouts.
use propnest_api.Base.{ℕ, suc, ◌+◌, Option, none, some, ◌==◌, ltb, if◌then◌else◌}
use propnest_api.Identity.Redis.{Entry, value_of, expires_of, ttl_of, keep_live}
use propnest_api.Identity.LoginAttempts.{
  Settings, LockoutStatus, unlocked, locked_for, lock_status, duration,
}

pub record Throttle : Type 0 where
  pub failures : Option Entry
  pub lock : Option Entry
  pub cycles : Option Entry

module _ (settings : Settings) (now : ℕ) where
  -- the failures with one more; the first opens a window
  abbrev pub counted : Option Entry → Entry
  counted o = record {
    value = suc (value_of o);
    expires =
        if suc (value_of o) == 1
        then some (now + settings.failure_window_seconds)
        else expires_of o;
  }

  -- the next lockout
  abbrev pub next_cycle : Throttle → ℕ
  next_cycle t = suc (value_of t.cycles)

  abbrev pub locked_out : Throttle → Throttle
  locked_out t = record {
    failures = none;
    lock = some (record { value = 1; expires = some (now + duration settings (next_cycle t)) });
    cycles =
        some (record { value = next_cycle t; expires = some (now + settings.lockout_max_seconds) });
  }

  -- a failed login: below the limit it is counted, and else the identifier is locked out
  abbrev pub fail : Throttle → LockoutStatus × Throttle
  fail t =
      if ltb (suc (value_of t.failures)) settings.max_failed_attempts
      then (unlocked, record t { failures = some (counted t.failures) })
      else (locked_for (duration settings (next_cycle t)), locked_out t)

-- a login that succeeds
abbrev pub succeed : Throttle → Throttle
succeed t = record t { failures = none; lock = none }

-- what is asked before a login
abbrev pub status : ℕ → Throttle → LockoutStatus
status now t = lock_status (ttl_of now t.lock)

abbrev pub wait : ℕ → Throttle → Throttle
wait now t = record {
  failures = keep_live now t.failures;
  lock = keep_live now t.lock;
  cycles = keep_live now t.cycles;
}
