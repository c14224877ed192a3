-- ===== src/Identity/Login/Token.antt =====
-- How long a token is good for.
use propnest_api.Base.{
  ℕ, ◌+◌, ◌*◌, ◌≡◌, ◌<◌, ltb, true, not, ◌==◌, Option, none, some, Option-cases, ap, ◌∙◌, arith,
  if◌then◌else◌,
}
use propnest_api.Core.Text.{Text}
use propnest_api.Core.Error.{
  Result, ok, err, user_no_longer_exists, account_inactive, session_invalidated,
}
use propnest_api.Core.Schema.{Tables, find, user_key}
use propnest_api.Models.User.{User}
use propnest_api.Identity.Passwords.{Passwords}
use propnest_api.Identity.Redis.{Redis, Keyspace, IsLawful}
use propnest_api.Identity.LoginAttempts.{Settings}
use propnest_api.Identity.LoginAttempts.Duration.{IsValid}
use propnest_api.Identity.Login.{
  SystemScheduler, login, get_by_identifier, issue_token, Claims, Jwt, IsReadable, get_current_user,
  read_claims, current_subject, current_row,
}
use propnest_api.Identity.Login.Outcome.{login-IsSound}

-- what becomes of a token of `u`, by the row that its user has now
abbrev pub judged : User → Option User → Result User
judged u none = err user_no_longer_exists
judged u (some v) =
    if not v.is_active
    then err account_inactive
    else if u.password_changed_at == v.password_changed_at
    then ok v
    else err session_invalidated

judged-row :
    (jwt : Jwt) (minutes now later : ℕ) (u : User) (t : Tables)
    → IsReadable jwt
    → ltb later (now + 60 * minutes) ≡ true
    → get_current_user jwt later (jwt.encode (issue_token minutes now u)) t
      ≡ judged u (find u.id t.users)
unfolding get_current_user issue_token read_claims current_subject current_row
judged-row jwt minutes now later u t readable h = ground (
  arith,
  readable.decode-encode later (issue_token minutes now u) h,
  Option-cases (find u.id t.users),
)

module _ {S : Type 0} {r : Redis S} {view : ℕ → S → Keyspace} (law : IsLawful r view)
    (settings : Settings) (valid : IsValid settings) (pw : Passwords) (system : SystemScheduler)
    (jwt : Jwt) (readable : IsReadable jwt) where
  -- The token of a login is read, until it expires, as that of the user who logged in: with the
  -- tables of any later moment it gives the user's row of that moment, if the row is still there, is
  -- active and has the time of the last change of password that it had at the login, and is refused
  -- otherwise, with an error for each of the three.
  pub login-get_current_user :
      (minutes now later : ℕ) (t : Tables) (identifier password : Text) (client_ip : Option Text)
      (s : S) (token : Claims)
      → (login settings r now pw system minutes t identifier password client_ip s).0 ≡ ok token
      → later < now + 60 * minutes
      → (u : User) × (get_by_identifier identifier t ≡ some u)
        × ((t' : Tables)
            → get_current_user jwt later (jwt.encode token) t' ≡ judged u (find u.id t'.users))
  login-get_current_user minutes now later t identifier password client_ip s token h early =
      let (u, found, right, active, same, free, open_lock) =
        login-IsSound law settings valid pw system minutes now identifier client_ip t password s
          token h in
      (
        u,
        found,
        λ t'.
            ap (λ c. get_current_user jwt later (jwt.encode c) t') same
            ∙ judged-row jwt minutes now later u t' readable (ground arith),
      )
