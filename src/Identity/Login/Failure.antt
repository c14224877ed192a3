-- ===== src/Identity/Login/Failure.antt =====
-- Logins that fail: refused credentials are counted, and no server means no login.
use propnest_api.Base.{
  ℕ, ◌≡◌, Bool, true, false, Option, none, some, refl, sym, ◌∙◌, ap, arith, Option-cases, inl, inr,
}
use propnest_api.Core.Text.{Text, normalize}
use propnest_api.Core.Error.{Result, ok, err, invalid_credentials, login_throttle_unavailable}
use propnest_api.Core.Schema.{Tables}
use propnest_api.Models.User.{User}
use propnest_api.Identity.Passwords.{Passwords}
use propnest_api.Identity.Redis
use propnest_api.Identity.Redis.{Redis, Keyspace, IsLawful}
use propnest_api.Identity.LoginAttempts
use propnest_api.Identity.LoginAttempts.{Settings, get_lock_status}
use propnest_api.Identity.LoginAttempts.Duration.{IsValid}
use propnest_api.Identity.LoginAttempts.Throttle.{Throttle, fail}
use propnest_api.Identity.LoginAttempts.Refinement.{tracked, record_failure-Tracks}
use propnest_api.Identity.IpRateLimit.{check, ip_key}
use propnest_api.Identity.Login.Gate.{gate-ok}
use propnest_api.Identity.Login.Outcome.{is_refused, authenticate-refused}
use propnest_api.Identity.Login.{
  guarded, refuse_if, ◌>>=◌, done, fail_with, SystemScheduler, is_system_scheduler, check_address,
  check_ip_rate_limit, reject, accept, authenticate, gate, login, get_by_identifier,
}

-- a server that replies to nothing
pub record IsDown {S : Type 0} (r : Redis S) : Type 0 where
  pub incr_down : (t : ℕ) (k : Text) (s : S) → (r.incr t k s).0 ≡ none
  pub ttl_down : (t : ℕ) (k : Text) (s : S) → (r.ttl t k s).0 ≡ none

module _ {S : Type 0} (settings : Settings) (r : Redis S) (now : ℕ) (system : SystemScheduler)
    (identifier : Text) where
  down-check : (ip : Text) (s : S) → IsDown r → (check settings r now ip s).0 ≡ none
  unfolding check Redis.◌>>=◌
  down-check ip s down = ground (arith, down.incr_down now (ip_key ip) s)

  down-lock_status : (s : S) → IsDown r → (get_lock_status settings r now identifier s).0 ≡ none
  unfolding get_lock_status Redis.◌>>=◌
  down-lock_status s down =
      ground (arith, down.ttl_down now (LoginAttempts.lock_key (normalize identifier)) s)

  -- With a server that replies to nothing, every login but the scheduler's is turned away as
  -- unavailable, with or without an address, whatever the password.
  pub login-unavailable :
      (pw : Passwords) (minutes : ℕ) (t : Tables) (password : Text) (client_ip : Option Text)
      (s : S)
      → IsDown r
      → is_system_scheduler system identifier ≡ false
      → (login settings r now pw system minutes t identifier password client_ip s).0
        ≡ err login_throttle_unavailable
  unfolding login gate check_ip_rate_limit check_address ◌>>=◌ guarded refuse_if done
  login-unavailable pw minutes t password none s down free =
      ground (arith, down-lock_status s down, free)
  login-unavailable pw minutes t password (some ip) s down free =
      ground (arith, down-lock_status s down, down-check ip s down, free)

module _ {S : Type 0} {r : Redis S} {view : ℕ → S → Keyspace} (law : IsLawful r view)
    (settings : Settings) (valid : IsValid settings) (pw : Passwords) (system : SystemScheduler)
    (now : ℕ) (identifier : Text) where
  -- the gate has errors of its own
  gate-refuses :
      (client_ip : Option Text) (s : S)
      → is_system_scheduler system identifier ≡ false
      → ¬ ((gate settings r now system identifier client_ip s).0 ≡ err invalid_credentials)
  unfolding gate check_ip_rate_limit check_address ◌>>=◌ guarded refuse_if done
  gate-refuses none s free h = ground (arith, h, free)
  gate-refuses (some ip) s free h = ground (arith, h, free)

  reject-counted :
      (s : S)
      → (reject settings r now identifier s).0 ≡ err invalid_credentials
      → tracked view now (reject settings r now identifier s).1 identifier
        ≡ (fail settings now (tracked view now s identifier)).1
  unfolding reject ◌>>=◌ guarded fail_with
  reject-counted s h =
      elim (Option-cases (LoginAttempts.record_failure settings r now identifier s).0) [
        | inl silent ↦ ground (arith, silent, h)
        | inr (a, replied) ↦
            let step =
              (record_failure-Tracks law settings valid now identifier).tracked_then s a replied in
            let same : (reject settings r now identifier s).1
                ≡ (LoginAttempts.record_failure settings r now identifier s).1 =
              ground (arith, replied) in
            ap (λ x. tracked view now x identifier) same ∙ step
      ]

  authenticate-counted :
      (password : Text) (o : Option User) (s : S) (b : Bool)
      → is_refused pw password o ≡ b
      → (authenticate settings r now pw identifier password o s).0 ≡ err invalid_credentials
      → tracked view now (authenticate settings r now pw identifier password o s).1 identifier
        ≡ (fail settings now (tracked view now s identifier)).1
  unfolding authenticate accept ◌>>=◌ guarded done
  authenticate-counted password o s true e h =
      let alike = authenticate-refused settings r now identifier pw password o e in
      ap (λ m. tracked view now (m s).1 identifier) alike
      ∙ reject-counted s (ap (λ m. (m s).0) (sym alike) ∙ h)
  authenticate-counted password none s false e h = ground arith
  authenticate-counted password (some v) s false e h = ground (arith, e, h)

  -- a login whose gate has the given result
  login-counted :
      (minutes : ℕ) (t : Tables) (password : Text) (client_ip : Option Text) (s : S)
      (o : Result (Unit {0}))
      → (gate settings r now system identifier client_ip s).0 ≡ o
      → is_system_scheduler system identifier ≡ false
      → (login settings r now pw system minutes t identifier password client_ip s).0
        ≡ err invalid_credentials
      → tracked view now
          (login settings r now pw system minutes t identifier password client_ip s).1
          identifier
        ≡ (fail settings now (tracked view now s identifier)).1
  unfolding login ◌>>=◌ done
  login-counted minutes t password client_ip s (err e) g free h =
      absurd (gate-refuses client_ip s free (ground (arith, g, h)))
  login-counted minutes t password client_ip s (ok u) g free h =
      let s' = (gate settings r now system identifier client_ip s).1 in
      let (x, y, kept) = gate-ok law settings valid now identifier system client_ip s u g in
      let who = get_by_identifier identifier t in
      let refused : (authenticate settings r now pw identifier password who s').0
          ≡ err invalid_credentials =
        ground (arith, g, h) in
      let same : (login settings r now pw system minutes t identifier password client_ip s).1
          ≡ (authenticate settings r now pw identifier password who s').1 =
        ground (arith, g, h, refused) in
      ap (λ x. tracked view now x identifier) same
      ∙ authenticate-counted password who s' (is_refused pw password who) refl refused
      ∙ ap (λ (t : Throttle). (fail settings now t).1) kept

  -- A login that is refused for its credentials has counted as one failure of its identifier, unless
  -- the identifier is the scheduler's: no guess at a password is free.
  pub login-fails :
      (minutes : ℕ) (t : Tables) (password : Text) (client_ip : Option Text) (s : S)
      → is_system_scheduler system identifier ≡ false
      → (login settings r now pw system minutes t identifier password client_ip s).0
        ≡ err invalid_credentials
      → tracked view now
          (login settings r now pw system minutes t identifier password client_ip s).1
          identifier
        ≡ (fail settings now (tracked view now s identifier)).1
  login-fails minutes t password client_ip s free h =
      login-counted minutes t password client_ip s
        (gate settings r now system identifier client_ip s).0 refl free h
