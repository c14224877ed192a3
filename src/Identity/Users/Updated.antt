-- ===== src/Identity/Users/Updated.antt =====
-- What the update of a user does to the password.
use propnest_api.Base.{ℕ, ◌≡◌, true, refl, arith, ◌∙◌}
use propnest_api.Core.Error.{Result, ok, err, type_error}
use propnest_api.Core.Text.{Text}
use propnest_api.Core.Patch.{Patch, absent, null, value}
use propnest_api.Models.User.{User}
use propnest_api.Identity.Passwords.{Passwords, IsSound, verify_password}
use propnest_api.Identity.Users.{UserUpdate, set_password, set_fields}

-- the credentials of the row that a change of the password leaves
abbrev pub PasswordIs : Passwords → Patch Text → ℕ → User → User → Type 0
PasswordIs pw absent now u v =
    (v.password_hash ≡ u.password_hash) × (v.password_changed_at ≡ u.password_changed_at)
PasswordIs pw (value p) now u v =
    (verify_password pw p v.password_hash ≡ true) × (v.password_changed_at ≡ now)
PasswordIs pw null now u v = Unit

module _ (pw : Passwords) (sound : IsSound pw) where
  set_password-IsPassword :
      (p : Patch Text) (now : ℕ) (u v : User)
      → set_password pw p now u ≡ ok v
      → PasswordIs pw p now u v
  unfolding set_password verify_password
  set_password-IsPassword absent now u v h = ground arith
  set_password-IsPassword null now u v h = tt
  set_password-IsPassword (value p) now u v h =
      ground (arith, h, sound.verify-hash p, sound.is_empty-hash p)

  kept-fields :
      (payload : UserUpdate) (u v : User)
      → set_fields pw payload u ≡ ok v
      → (w : User) × (set_password pw payload.password payload.updated_at u ≡ ok w)
        × (v.password_hash ≡ w.password_hash)
        × (v.password_changed_at ≡ w.password_changed_at)
  unfolding set_fields
  kept-fields payload u v h = go (set_password pw payload.password payload.updated_at u) refl
    where
      go :
          (o : Result User)
          → set_password pw payload.password payload.updated_at u ≡ o
          → (w : User) × (set_password pw payload.password payload.updated_at u ≡ ok w)
            × (v.password_hash ≡ w.password_hash)
            × (v.password_changed_at ≡ w.password_changed_at)
      go (ok w) e = (w, e, ground (arith, e, h), ground (arith, e, h))
      go (err x) e = ground (arith, e, h)

  -- With a sound hash: an update that goes through with a new password leaves a row that the new
  -- password verifies against and whose password changed at the time of the update, and one without
  -- a password leaves both; a password that is given as null is a TypeError, not a refusal.
  pub set_fields-PasswordIs :
      (payload : UserUpdate) (u : User)
      → ((v : User)
          → set_fields pw payload u ≡ ok v
          → PasswordIs pw payload.password payload.updated_at u v)
        × (payload.password ≡ null → set_fields pw payload u ≡ err type_error)
  unfolding set_fields set_password
  set_fields-PasswordIs payload u = (
    λ v h.
        let (w, set, hash, changed) = kept-fields payload u v h in
        moved payload.password v w hash changed
          (set_password-IsPassword payload.password payload.updated_at u w set),
    λ e. ground (arith, e),
  )
    where
      moved :
          (p : Patch Text) (v w : User)
          → v.password_hash ≡ w.password_hash
          → v.password_changed_at ≡ w.password_changed_at
          → PasswordIs pw p payload.updated_at u w
          → PasswordIs pw p payload.updated_at u v
      moved absent v w hash changed h = ground (arith, hash, changed, h)
      moved null v w hash changed h = tt
      moved (value p) v w hash changed (a, b) = (rw hash a, changed ∙ b)
