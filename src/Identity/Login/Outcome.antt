-- ===== src/Identity/Login/Outcome.antt =====
-- What a login returns, and when.
use propnest_api.Identity.LoginAttempts.Duration.{IsValid}
use propnest_api.Base.{
  ℕ, ◌≡◌, Bool, true, false, not, Option, none, some, refl, sym, ◌∙◌, ap, arith, Bool-cases, inl,
  inr, if◌then◌else◌,
}
use propnest_api.Core.Text.{Text}
use propnest_api.Core.Error.{Error, Result, ok, err, invalid_credentials}
use propnest_api.Core.Schema.{Tables}
use propnest_api.Models.User.{User}
use propnest_api.Identity.Passwords.{Passwords, verify_password}
use propnest_api.Identity.Redis.{Redis, Keyspace, IsLawful}
use propnest_api.Identity.LoginAttempts
use propnest_api.Identity.LoginAttempts.{Settings}
use propnest_api.Identity.LoginAttempts.Throttle.{status}
use propnest_api.Identity.LoginAttempts.Refinement.{tracked}
use propnest_api.Identity.Login.Gate.{bind-ok, gate-ok, done-ok, fail_with-ok}
use propnest_api.Identity.Login.{
  gate, Login, replied, guarded, ◌>>=◌, SystemScheduler, is_system_scheduler, reject, accept,
  authenticate, login, get_by_identifier, issue_token, Claims,
}

-- whether the credentials are refused: no such user, a wrong password, or an inactive account
abbrev pub is_refused : Passwords → Text → Option User → Bool
is_refused pw password none = true
is_refused pw password (some u) =
    if not (verify_password pw password u.password_hash) then true else not u.is_active

module _ {S : Type 0} (settings : Settings) (r : Redis S) (now : ℕ) (identifier : Text)
    (pw : Passwords) where
  accept-ok : (u v : User) (s : S) → (accept settings r now identifier u s).0 ≡ ok v → v ≡ u
  unfolding accept
  accept-ok u v s h =
      let (a, replied, rest, after) = bind-ok _ _ s v h in
      done-ok u v (guarded (LoginAttempts.record_success settings r now identifier) s).1 rest

  reject-ok : (s : S) (v : User) → ¬ ((reject settings r now identifier s).0 ≡ ok v)
  unfolding reject
  reject-ok s v h =
      let (a, replied, rest, after) = bind-ok _ _ s v h in
      fail_with-ok invalid_credentials v
        (guarded (LoginAttempts.record_failure settings r now identifier) s).1 rest

  -- credentials that are refused are refused in one way
  pub authenticate-refused :
      (password : Text) (o : Option User)
      → is_refused pw password o ≡ true
      → authenticate settings r now pw identifier password o ≡ reject settings r now identifier
  unfolding authenticate
  authenticate-refused password none h = refl
  authenticate-refused password (some v) h =
      elim (Bool-cases (verify_password pw password v.password_hash)) [
        | inr wrong ↦ rw wrong refl
        | inl right ↦
            let idle : v.is_active ≡ false = ground (arith, right, h) in rw (right, idle) refl
      ]

  authenticate-accepted :
      (password : Text) (v u : User) (s : S)
      → is_refused pw password (some v) ≡ false
      → (authenticate settings r now pw identifier password (some v) s).0 ≡ ok u
      → (u ≡ v) × (verify_password pw password v.password_hash ≡ true) × (v.is_active ≡ true)
  unfolding authenticate
  authenticate-accepted password v u s taken h =
      let right : verify_password pw password v.password_hash ≡ true = ground (arith, taken) in
      let active : v.is_active ≡ true = ground (arith, taken) in
      (accept-ok v u s (ground (arith, h, right, active)), right, active)

  authenticate-ok :
      (password : Text) (o : Option User) (s : S) (u : User) (b : Bool)
      → is_refused pw password o ≡ b
      → (authenticate settings r now pw identifier password o s).0 ≡ ok u
      → (o ≡ some u) × (verify_password pw password u.password_hash ≡ true) × (u.is_active ≡ true)
  authenticate-ok password o s u true e h =
      absurd (reject-ok s u (ap (λ m. (m s).0) (sym (authenticate-refused password o e)) ∙ h))
  authenticate-ok password none s u false e h = ground arith
  authenticate-ok password (some v) s u false e h =
      let (same, right, active) = authenticate-accepted password v u s e h in
      rw same (refl, right, active)

module _ {S : Type 0} {r : Redis S} {view : ℕ → S → Keyspace} (law : IsLawful r view)
    (settings : Settings) (valid : IsValid settings) (pw : Passwords) (system : SystemScheduler)
    (minutes now : ℕ) (identifier : Text) (client_ip : Option Text) where
  abbrev attempt : Tables → Text → Login S Claims
  attempt t password = login settings r now pw system minutes t identifier password client_ip

  -- Whoever gets a token named a user of the table with the user's password, the account is active,
  -- the token is the one of that user, the identifier is not the scheduler's, and it was not locked
  -- when the login began.
  pub login-IsSound :
      (t : Tables) (password : Text) (s : S) (token : Claims)
      → (attempt t password s).0 ≡ ok token
      → (u : User) × (get_by_identifier identifier t ≡ some u)
        × (verify_password pw password u.password_hash ≡ true)
        × (u.is_active ≡ true)
        × (token ≡ issue_token minutes now u)
        × (is_system_scheduler system identifier ≡ false)
        × ((status now (tracked view now s identifier)).locked ≡ false)
  unfolding login
  login-IsSound t password s token h =
      let (a, passed, h1, s1) = bind-ok _ _ s token h in
      let (free, open_lock, kept) =
        gate-ok law settings valid now identifier system client_ip s a passed in
      let (u, known, h2, s2) = bind-ok _ _ _ token h1 in
      let (found, right, active) =
        authenticate-ok settings r now identifier pw password (get_by_identifier identifier t) _ u
          (is_refused pw password (get_by_identifier identifier t)) refl known in
      (u, found, right, active, done-ok _ token _ h2, free, open_lock)

  -- While an identifier is locked, a login with it raises an error that does not depend on the
  -- password or on the users: neither is looked at.
  pub login-locked :
      (t t' : Tables) (password password' : Text) (s : S)
      → (status now (tracked view now s identifier)).locked ≡ true
      → ((e : Error) × ((attempt t password s).0 ≡ err e))
        × (attempt t password s ≡ attempt t' password' s)
  unfolding login ◌>>=◌
  login-locked t t' password password' s locked =
      let (e, refused) = stopped (gate settings r now system identifier client_ip s).0 refl in
      ((e, ground (arith, refused)), ground (arith, refused))
    where
      stopped :
          (o : Result (Unit {0}))
          → (gate settings r now system identifier client_ip s).0 ≡ o
          → (e : Error) × ((gate settings r now system identifier client_ip s).0 ≡ err e)
      stopped (err e) h = (e, h)
      stopped (ok u) h =
          let (free, open_lock, kept) =
            gate-ok law settings valid now identifier system client_ip s u h in
          ground (arith, open_lock, locked)

  -- Refused credentials look alike: an identifier that no user has, a wrong password and an inactive
  -- account give the same answer and leave the same counters.
  pub login-alike :
      (t t' : Tables) (password password' : Text)
      → is_refused pw password (get_by_identifier identifier t) ≡ true
      → is_refused pw password' (get_by_identifier identifier t') ≡ true
      → attempt t password ≡ attempt t' password'
  unfolding login
  login-alike t t' password password' h h' =
      rw
        (
          authenticate-refused settings r now identifier pw password
              (get_by_identifier identifier t) h,
          authenticate-refused settings r now identifier pw password'
              (get_by_identifier identifier t') h',
        )
        refl
