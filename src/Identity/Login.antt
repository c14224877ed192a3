-- ===== src/Identity/Login.antt =====
-- `AuthService.login` (app/identity/services/auth_service.py), `get_by_identifier`
-- (app/identity/repositories/user.py) and `get_current_user` (app/core/dependencies.py). A login
-- reads the committed tables, and happens at one moment.
pub mod Gate
pub mod Outcome
pub mod Failure
pub mod Token
use propnest_api.Base.{
  ◌≡◌, ltb, ℕ, ◌+◌, ◌*◌, Bool, true, not, ◌||◌, Option, none, some, head?, filter, any, ◌==◌, is_id,
  if◌then◌else◌,
}
use propnest_api.Core.Text.{Text, same_text, is_empty, strip, lower}
use propnest_api.Core.Error.{
  Error, Result, ok, err, invalid_credentials, ip_rate_limit_exceeded, account_locked,
  login_throttle_unavailable, invalid_token, user_no_longer_exists, account_inactive,
  session_invalidated,
}
use propnest_api.Core.Schema.{Tables, find, user_key}
use propnest_api.Models.User.{User, UserRole}
use propnest_api.Identity.Passwords.{Passwords, verify_password}
use propnest_api.Identity.Users.{has_email, has_username}
use propnest_api.Identity.Redis.{Redis, Effect}
use propnest_api.Identity.LoginAttempts
use propnest_api.Identity.LoginAttempts.{Settings, get_lock_status}
use propnest_api.Identity.IpRateLimit.{check}

-- `get_by_identifier`: an identifier with `@` is an email
unfoldable pub get_by_identifier : Text → Tables → Option User
get_by_identifier identifier t =
    if is_empty identifier
    then none
    else if any (λ c. c == b'@') (strip identifier)
    then head? (filter (has_email (strip identifier)) t.users)
    else head? (filter (has_username (strip identifier)) t.users)

-- the payload of a token; one that the service did not issue may lack a claim
pub record Claims : Type 0 where
  pub sub : Option ℕ
  pub role : UserRole
  pub username : Text
  pub pwd_v : Option ℕ
  pub exp : ℕ

-- `_issue_token`, and the expiry of `create_access_token`
unfoldable pub issue_token : ℕ → ℕ → User → Claims
issue_token expire_minutes now u = record {
  sub = some u.id;
  role = u.role;
  username = u.username;
  pwd_v = some u.password_changed_at;
  exp = now + 60 * expire_minutes;
}

-- code that may raise, with the server's state
abbrev pub Login : Type 0 → Type 0 → Type 0
Login S A = S → Result A × S

-- `except RedisError: raise LoginThrottleUnavailableError()`
abbrev pub replied : {A : Type 0} → Option A → Result A
replied none = err login_throttle_unavailable
replied (some a) = ok a

module _ {S A : Type 0} where
  pub done : A → Login S A
  done a s = (ok a, s)

  pub fail_with : Error → Login S A
  fail_with e s = (err e, s)

  pub guarded : Effect S A → Login S A
  guarded m s = let (o, s') = m s in (replied o, s')

module _ {S : Type 0} where
  pub refuse_if : Bool → Error → Login S (Unit {0})
  refuse_if b e s = (if b then err e else ok tt, s)

module _ {S A B : Type 0} where
  abbrev pub proceed : Result A → (A → Login S B) → Login S B
  proceed (ok a) f s = f a s
  proceed (err e) f s = (err e, s)

  infixl 5 ◌>>=◌ ◌>>◌
  unfoldable pub ◌>>=◌ : Login S A → (A → Login S B) → Login S B
  unfolding done fail_with guarded refuse_if
  ◌>>=◌ m f s = let (r, s') = m s in proceed r f s'

  abbrev pub ◌>>◌ : Login S A → Login S B → Login S B
  m >> n = m >>= λ _. n

-- the account of the scheduler, which the settings name
pub record SystemScheduler : Type 0 where
  pub username : Text
  pub email : Text

abbrev pub is_system_scheduler : SystemScheduler → Text → Bool
is_system_scheduler system identifier =
    same_text identifier system.username || same_text (lower identifier) (lower system.email)

module _ {S : Type 0} (settings : Settings) (redis : Redis S) (now : ℕ) where
  -- `if client_ip`, `_check_ip_rate_limit`
  unfoldable pub check_address : Text → Login S (Unit {0})
  check_address ip = do
    status ← guarded (check settings redis now ip)
    refuse_if (not status.allowed) (ip_rate_limit_exceeded status.retry_after_seconds)

  unfoldable pub check_ip_rate_limit : Option Text → Login S (Unit {0})
  check_ip_rate_limit none = done tt
  check_ip_rate_limit (some ip) = if is_empty ip then done tt else check_address ip

  -- `_record_failure`, and the error that follows it
  unfoldable pub reject : Text → Login S User
  reject identifier = do
    guarded (LoginAttempts.record_failure settings redis now identifier)
    fail_with invalid_credentials

  unfoldable pub accept : Text → User → Login S User
  accept identifier u = do
    guarded (LoginAttempts.record_success settings redis now identifier)
    done u

  -- what `login` does before it reads the user
  unfoldable pub gate : SystemScheduler → Text → Option Text → Login S (Unit {0})
  gate system identifier client_ip = do
    refuse_if (is_system_scheduler system identifier) invalid_credentials
    check_ip_rate_limit client_ip
    lock_status ← guarded (get_lock_status settings redis now identifier)
    refuse_if lock_status.locked (account_locked lock_status.retry_after_seconds)

  module _ (pw : Passwords) where
    -- the password, and then whether the account is active
    unfoldable pub authenticate : Text → Text → Option User → Login S User
    authenticate identifier password none = reject identifier
    authenticate identifier password (some u) =
        if not (verify_password pw password u.password_hash)
        then reject identifier
        else if not u.is_active
        then reject identifier
        else accept identifier u

    unfoldable pub login : SystemScheduler → ℕ → Tables → Text → Text → Option Text → Login S Claims
    login system expire_minutes t identifier password client_ip = do
      gate system identifier client_ip
      u ← authenticate identifier password (get_by_identifier identifier t)
      done (issue_token expire_minutes now u)

-- The JWT library with the service's key: `decode` at a time.
pub record Jwt : Type 0 where
  pub encode : Claims → Text
  pub decode : ℕ → Text → Option Claims

-- A token that the service made can be read until it expires.
pub record IsReadable (jwt : Jwt) : Type 0 where
  pub decode-encode :
      (now : ℕ) (c : Claims) → ltb now c.exp ≡ true → jwt.decode now (jwt.encode c) ≡ some c

unfoldable pub current_row : Claims → Option User → Result User
current_row c none = err user_no_longer_exists
current_row c (some u) =
    if not u.is_active
    then err account_inactive
    else if is_id c.pwd_v u.password_changed_at
    then ok u
    else err session_invalidated

unfoldable pub current_subject : Claims → Option ℕ → Tables → Result User
unfolding current_row
current_subject c none t = err invalid_token
current_subject c (some id) t = current_row c (find id t.users)

unfoldable pub read_claims : Option Claims → Tables → Result User
unfolding current_subject
read_claims none t = err invalid_token
read_claims (some c) t = current_subject c c.sub t

-- `get_current_user`
unfoldable pub get_current_user : Jwt → ℕ → Text → Tables → Result User
unfolding read_claims
get_current_user jwt now token t = read_claims (jwt.decode now token) t
