-- ===== src/Tests/Logins.antt =====
-- The theorems on passwords, logins and their throttles, applied to runs on a server in memory.
use propnest_api.Base.{
  zero, suc, ◌==◌, Option-cases, ℕ, ◌+◌, ◌-◌, ◌*◌, ◌≤◌, ◌≡◌, min, Bool, true, false, Option, none,
  some, [], ◌∷◌, ltb, refl, arith, if◌then◌else◌,
}
use propnest_api.Core.Text.{Text, codes, normalize, lower}
use propnest_api.Core.Text.Normal.{same_text_refl}
use propnest_api.Core.Error.{Error, ok, err, login_throttle_unavailable, type_error}
use propnest_api.Core.Schema.{find, user_key, Tables}
use propnest_api.Core.Patch.{absent, null, value}
use propnest_api.Models.User.{User, UserRole, admin, manager, user}
use propnest_api.Identity.Passwords.{IsSound, verify_password}
use propnest_api.Identity.Users.{UserUpdate, set_fields}
use propnest_api.Identity.Users.Updated.{PasswordIs, set_fields-PasswordIs}
use propnest_api.Identity.Redis
use propnest_api.Identity.Redis.{Redis, Entry}
use propnest_api.Identity.Redis.Memory.{Memory, memory, holds, memory-IsLawful}
use propnest_api.Identity.LoginAttempts.{
  Settings, default_settings, unlocked, locked_for, duration, fail_key, lock_key, lockcount_key,
  get_lock_status, record_failure, record_success, lock, start_window, lock_if,
}
use propnest_api.Identity.LoginAttempts.Duration.{IsValid, duration-progression}
use propnest_api.Identity.LoginAttempts.Throttle.{fail, succeed, status, wait}
use propnest_api.Identity.LoginAttempts.Refinement.{
  tracked, throttle_at, Tracks, login_attempts-refine,
}
use propnest_api.Identity.LoginAttempts.Lockout.{
  repeat_failures, lockout-lasts, repeat_failures-locks,
}
use propnest_api.Identity.IpRateLimit.{ip_key, check, decide, refuse}
use propnest_api.Identity.IpRateLimit.Limit.{
  count_allowed, count_allowed-limit, check-never_expires,
}
use propnest_api.Identity.Login
use propnest_api.Identity.Login.{
  SystemScheduler, Claims, login, gate, check_ip_rate_limit, check_address, authenticate, accept,
  reject, get_by_identifier, issue_token, is_system_scheduler, Jwt, IsReadable, get_current_user,
}
use propnest_api.Identity.Login.Outcome.{login-IsSound, login-locked, login-alike}
use propnest_api.Identity.Login.Failure.{IsDown, login-unavailable, login-fails}
use propnest_api.Identity.Login.Token.{judged, login-get_current_user}
use propnest_api.Tests.{ana, marked, let_flat}

default_settings-IsValid : IsValid default_settings
default_settings-IsValid = record {
  window = omega arith;
  base = omega arith;
  rate_window = omega arith;
  cap = omega arith;
}

duration-progression_example :
    (duration default_settings 1 ≡ 30)
    × (duration default_settings 4 ≡ min (2 * duration default_settings 3) 900)
    × (duration default_settings 1 ≤ duration default_settings 3)
    × (duration default_settings 3 ≤ 900)
duration-progression_example = duration-progression default_settings 2

abbrev name : Text
name = codes "ana"

login_attempts-refine_example :
    Tracks memory-IsLawful default_settings default_settings-IsValid 1000
      (record_failure default_settings memory 1000 name)
      name
      (fail default_settings 1000)
    × Tracks memory-IsLawful default_settings default_settings-IsValid 1000
        (record_success default_settings memory 1000 name)
        name
        (λ t. (tt, succeed t))
    × Tracks memory-IsLawful default_settings default_settings-IsValid 1000
        (get_lock_status default_settings memory 1000 name)
        name
        (λ t. (status 1000 t, t))
    × ((later : ℕ) (s : Memory)
        → 1000 ≤ later
        → tracked holds later s name ≡ wait later (tracked holds 1000 s name))
login_attempts-refine_example =
    login_attempts-refine memory-IsLawful default_settings default_settings-IsValid 1000 name

-- after four failures
abbrev four_failures : Memory
four_failures = (codes "login:fail:ana", some (record { value = 4; expires = some 1900 })) ∷ []

lockout-lasts_example :
    locked_for 20 ≡ (if ltb 1010 (1000 + 30) then locked_for (1000 + 30 - 1010) else unlocked)
unfolding record_failure get_lock_status start_window lock_if lock memory fail_key lock_key
    lockcount_key normalize duration Redis.◌>>=◌
lockout-lasts_example =
    lockout-lasts memory-IsLawful default_settings default_settings-IsValid 1000 1010 name
      four_failures (locked_for 30) (locked_for 20) refl refl (omega arith) refl

repeat_failures-locks_example : (locked_for 30).locked ≡ true
unfolding record_failure start_window lock_if lock memory fail_key lock_key lockcount_key normalize
    duration Redis.◌>>=◌ repeat_failures throttle_at
repeat_failures-locks_example =
    repeat_failures-locks memory-IsLawful default_settings default_settings-IsValid name 1000
      (1001 ∷ 1002 ∷ 1003 ∷ 1004 ∷ []) [] (locked_for 30) refl (omega arith) refl refl

abbrev two_requests : Settings
two_requests = record default_settings { rate_limit_max_requests = 2 }

count_allowed-limit_example : ◌≡◌ {A = ℕ} 2 (min 2 3)
unfolding count_allowed check start_window decide refuse memory ip_key Redis.◌>>=◌
count_allowed-limit_example =
    count_allowed-limit memory-IsLawful two_requests (omega arith) (codes "10.0.0.1") 7 (8 ∷ 9 ∷ [])
      [] 2 refl (omega arith) refl

-- the address was counted ten times, and its counter never expires
abbrev endless : Memory
endless = (codes "ratelimit:login:10.0.0.1", some (record { value = 10; expires = none })) ∷ []

check-never_expires_example :
    (e : Entry) × (◌≡◌ {A = Bool} false false)
    × (holds 100000
          (check default_settings memory 100000 (codes "10.0.0.1") endless).1
          (ip_key (codes "10.0.0.1"))
        ≡ some e)
    × (e.expires ≡ none)
    × (10 ≤ e.value)
unfolding check start_window decide refuse memory ip_key Redis.◌>>=◌
check-never_expires_example =
    check-never_expires memory-IsLawful default_settings (omega arith) (codes "10.0.0.1") 0 100000
      endless (record { value = 10; expires = none })
      (record { allowed = false; retry_after_seconds = 1 }) refl refl (omega arith) (omega arith)
      (omega arith) refl

abbrev scheduler : SystemScheduler
scheduler = record {
  username = codes "system.scheduler";
  email = codes "system-scheduler@propnest.internal";
}

-- ana's token
abbrev token : Claims
token = record {
  sub = some 2;
  role = manager;
  username = codes "ana";
  pwd_v = some 0;
  exp = 1000 + 60 * 30;
}

login-IsSound_example :
    (u : User) × (get_by_identifier name let_flat ≡ some u)
    × (verify_password marked (codes "x") u.password_hash ≡ true)
    × (u.is_active ≡ true)
    × (token ≡ issue_token 30 1000 u)
    × (is_system_scheduler scheduler name ≡ false)
    × ((status 1000 (tracked holds 1000 four_failures name)).locked ≡ false)
unfolding login gate check_ip_rate_limit check_address authenticate accept reject get_by_identifier
    issue_token get_lock_status record_success memory fail_key lock_key lockcount_key normalize
    lower verify_password Redis.◌>>=◌ Login.◌>>=◌
login-IsSound_example =
    login-IsSound memory-IsLawful default_settings default_settings-IsValid marked scheduler 30 1000
      name none let_flat (codes "x") four_failures token refl

-- ana is locked until 2000
abbrev locked_ana : Memory
locked_ana = (codes "login:lock:ana", some (record { value = 1; expires = some 2000 })) ∷ []

login-locked_example :
    ((e : Error) × ((login default_settings memory 1000 marked scheduler 30 let_flat name
          (codes "x")
          none
          locked_ana).0
        ≡ err e))
    × (login default_settings memory 1000 marked scheduler 30 let_flat name
          (codes "x")
          none
          locked_ana
        ≡ login default_settings memory 1000 marked scheduler 30 let_flat name
            (codes "y")
            none
            locked_ana)
unfolding throttle_at lock_key normalize
login-locked_example =
    login-locked memory-IsLawful default_settings default_settings-IsValid marked scheduler 30 1000
      name none let_flat let_flat (codes "x") (codes "y") locked_ana refl

-- no user at all, and a wrong password
login-alike_example :
    login default_settings memory 1000 marked scheduler 30 let_flat name (codes "y") none
    ≡ login default_settings memory 1000 marked scheduler 30
        (record let_flat { users = [] })
        name
        (codes "x")
        none
unfolding get_by_identifier normalize verify_password
login-alike_example =
    login-alike memory-IsLawful default_settings default_settings-IsValid marked scheduler 30 1000
      name none let_flat (record let_flat { users = [] }) (codes "y") (codes "x") refl refl

-- a server that is gone
abbrev silent : Redis Memory
silent = record {
  incr = λ t k m. (none, m);
  expire = λ t k w m. (none, m);
  ttl = λ t k m. (none, m);
  set_ex = λ t k d m. (none, m);
  delete = λ t ks m. (none, m);
}

silent-IsDown : IsDown silent
silent-IsDown = record { incr_down = λ t k m. refl; ttl_down = λ t k m. refl }

login-unavailable_example :
    (login default_settings silent 1000 marked scheduler 30 let_flat name
      (codes "x")
      (some (codes "10.0.0.1"))
      []).0
    ≡ err login_throttle_unavailable
unfolding lower
login-unavailable_example =
    login-unavailable default_settings silent 1000 scheduler name marked 30 let_flat (codes "x")
      (some (codes "10.0.0.1")) [] silent-IsDown refl

login-fails_example :
    tracked holds 1000
      (login default_settings memory 1000 marked scheduler 30 let_flat name
        (codes "y")
        none
        four_failures).1
      name
    ≡ (fail default_settings 1000 (tracked holds 1000 four_failures name)).1
unfolding login gate check_ip_rate_limit check_address authenticate accept reject get_by_identifier
    get_lock_status record_failure start_window lock_if lock memory fail_key lock_key lockcount_key
    normalize lower verify_password duration Redis.◌>>=◌ Login.◌>>=◌
login-fails_example =
    login-fails memory-IsLawful default_settings default_settings-IsValid marked scheduler 1000 name
      30 let_flat (codes "y") none four_failures refl refl

-- a toy: the claims in the clear
abbrev code_of : Option ℕ → Text → Text
code_of none rest = 0 ∷ rest
code_of (some n) rest = 1 ∷ n ∷ rest

abbrev role_code : UserRole → ℕ
role_code admin = 0
role_code manager = 1
role_code user = 2

abbrev role_of : ℕ → UserRole
role_of r = if r == 0 then admin else if r == 1 then manager else user

abbrev read_option : Text → Option (Option ℕ × Text)
read_option [] = none
read_option (tag ∷ []) = if tag == 0 then some (none, []) else none
read_option (tag ∷ n ∷ rest) = if tag == 0 then some (none, n ∷ rest) else some (some n, rest)

abbrev clear : Claims → Text
clear c = c.exp ∷ role_code c.role ∷ code_of c.sub (code_of c.pwd_v (0 ∷ c.username))

abbrev read_end : ℕ → UserRole → Option ℕ → Option (Option ℕ × Text) → Option Claims
read_end exp role sub none = none
read_end exp role sub (some (pwd_v, [])) = none
read_end exp role sub (some (pwd_v, zero ∷ username)) =
    some (record { sub = sub; role = role; username = username; pwd_v = pwd_v; exp = exp })
read_end exp role sub (some (pwd_v, suc n ∷ username)) = none

abbrev read_middle : ℕ → UserRole → Option (Option ℕ × Text) → Option Claims
read_middle exp role none = none
read_middle exp role (some (sub, rest)) = read_end exp role sub (read_option rest)

abbrev read_clear : ℕ → Text → Option Claims
read_clear now (exp ∷ role ∷ rest) =
    if ltb now exp then read_middle exp (role_of role) (read_option rest) else none
read_clear now _ = none

abbrev clear_jwt : Jwt
clear_jwt = record { encode = clear; decode = read_clear }

clear_jwt-IsReadable : IsReadable clear_jwt
clear_jwt-IsReadable = record {
  decode-encode = λ now c h. ground (arith, h, Option-cases c.sub, Option-cases c.pwd_v);
}

login-get_current_user_example :
    (u : User) × (get_by_identifier name let_flat ≡ some u)
    × ((t : Tables)
        → get_current_user clear_jwt 1500 (clear token) t ≡ judged u (find u.id t.users))
unfolding login gate check_ip_rate_limit check_address authenticate accept reject get_by_identifier
    issue_token get_lock_status record_success memory fail_key lock_key lockcount_key normalize
    lower verify_password Redis.◌>>=◌ Login.◌>>=◌
login-get_current_user_example =
    login-get_current_user memory-IsLawful default_settings default_settings-IsValid marked
      scheduler clear_jwt clear_jwt-IsReadable 30 1000 1500 let_flat name (codes "x") none
      four_failures token refl (omega arith)

marked-IsSound : IsSound marked
marked-IsSound = record { verify-hash = λ p. same_text_refl (36 ∷ p); is_empty-hash = λ p. refl }

-- a new password, and nothing else
abbrev new_password : UserUpdate
new_password = record {
  full_name = absent;
  username = absent;
  email = absent;
  password = value (codes "y");
  current_password = some (codes "x");
  role = absent;
  is_active = absent;
  updated_at = 700;
}

set_fields-PasswordIs_example :
    ((v : User)
      → set_fields marked new_password ana ≡ ok v
      → PasswordIs marked (value (codes "y")) 700 ana v)
    × (new_password.password ≡ null → set_fields marked new_password ana ≡ err type_error)
set_fields-PasswordIs_example = set_fields-PasswordIs marked marked-IsSound new_password ana
