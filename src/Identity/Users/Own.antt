-- ===== src/Identity/Users/Own.antt =====
-- What `update_user` has done when a plain user has called it.
use propnest_api.Base.{
  refl, Bool-cases, ℕ, Bool, false, ◌≡◌, Option, none, some, [], ◌∷◌, ◌++◌, ◌&&◌, ◌==◌, inl, inr,
  arith, ap, ◌∙◌,
}
use propnest_api.Core.Error.{Result, ok, err}
use propnest_api.Core.Text.{Text}
use propnest_api.Core.Patch.{Patch, absent, null, value}
use propnest_api.Core.Schema.{Tables, find, replace, user_key}
use propnest_api.Core.Schema.Rows.{id_of-find}
use propnest_api.Core.Session.{Session}
use propnest_api.Core.Session.Returns.{
  Returns, >>=-Returns, rethrow-Returns, or_raise-Returns, raise_if-Returns,
}
use propnest_api.Core.Session.Reads.{
  Reads-pure, Reads, Reads-step, Reads-raise_if, Reads-or_raise, read_rules,
}
use propnest_api.Core.Repository.{user_repo, first}
use propnest_api.Core.Repository.Keeps.{Reads-first}
use propnest_api.Core.Repository.Returns.{update-Returns}
use propnest_api.Core.Audit.Returns.{finish-Returns}
use propnest_api.Core.Audit.{entry}
use propnest_api.Models.AuditLog.{AuditAction}
use propnest_api.Models.AuditLog.EntityType
use propnest_api.Models.User.{User, user}
use propnest_api.Identity.Passwords.{Passwords}
use propnest_api.Identity.Users.{
  UserUpdate, is_given, set_password, set_fields, authorize_self_or_admin, check_email,
  check_username, verify_current_password, reauthenticate, update_user,
}

-- The user's own row is replaced by one with the same id and role, an audit row is added, and
-- everything else is as it was.
abbrev pub OwnChange : User → Tables → Tables → Type 0
OwnChange u t t' =
    (old new : User) × (find u.id t.users ≡ some old)
    × (new.id ≡ u.id)
    × (new.role ≡ old.role)
    × (t' ≡ record t {
      users = replace new t.users;
      audit_logs = t.audit_logs ++ entry u AuditAction.update EntityType.user u.id ∷ [];
    })

set_password-kept :
    (pw : Passwords) (p : Patch Text) (now : ℕ) (u v : User)
    → set_password pw p now u ≡ ok v
    → (v.id ≡ u.id) × (v.role ≡ u.role)
unfolding set_password
set_password-kept pw absent now u v h = ground arith
set_password-kept pw null now u v h = ground arith
set_password-kept pw (value p) now u v h = ground arith

-- an update that gives no role keeps id and role
set_fields-kept :
    (pw : Passwords) (payload : UserUpdate) (u v : User)
    → is_given payload.role ≡ false
    → set_fields pw payload u ≡ ok v
    → (v.id ≡ u.id) × (v.role ≡ u.role)
unfolding set_fields
set_fields-kept pw payload u v ungiven h =
    go (set_password pw payload.password payload.updated_at u) refl
  where
    go :
        (o : Result User)
        → set_password pw payload.password payload.updated_at u ≡ o
        → (v.id ≡ u.id) × (v.role ≡ u.role)
    go (ok w) e =
        let (id, role) = set_password-kept pw payload.password payload.updated_at u w e in
        ground (arith, e, h, id, role)
    go (err x) e = ground (arith, e, h)

module _ (pw : Passwords) (u : User) where
  Reads-authorize_self_or_admin : (i : ℕ) → Reads (authorize_self_or_admin u i)
  unfolding authorize_self_or_admin
  Reads-authorize_self_or_admin i = search read_rules

  Reads-first_user : (p : User → Bool) → Reads (first user_repo p)
  Reads-first_user = Reads-first (λ t. Unit) user_repo

  Reads-check_email : (i : ℕ) (p : Patch Text) → Reads (check_email i p)
  unfolding check_email
  Reads-check_email i (value e) = search (read_rules, Reads-first_user)
  Reads-check_email i absent = search read_rules
  Reads-check_email i null = search read_rules

  Reads-check_username : (i : ℕ) (p : Patch Text) → Reads (check_username i p)
  unfolding check_username
  Reads-check_username i (value e) = search (read_rules, Reads-first_user)
  Reads-check_username i absent = search read_rules
  Reads-check_username i null = search read_rules

  Reads-verify_current_password : (o : Option Text) → Reads (verify_current_password pw o u)
  unfolding verify_current_password
  Reads-verify_current_password none = search read_rules
  Reads-verify_current_password (some p) = search read_rules

  Reads-reauthenticate : (i : ℕ) (p : UserUpdate) → Reads (reauthenticate pw i p u)
  unfolding reauthenticate
  Reads-reauthenticate i p = elim (Bool-cases (is_given p.password && u.id == i)) [
    | inl own ↦ rw own (Reads-verify_current_password p.current_password)
    | inr other ↦ rw other (Reads-pure tt)
  ]

  pub update_user-OwnChange :
      (payload : UserUpdate) (s : Session) {v : User} {s' : Session}
      → u.role ≡ user
      → Returns (update_user pw u.id payload u) s v s'
      → OwnChange u s.working s'.committed
  unfolding update_user
  update_user-OwnChange payload s plain h =
      let (x₁, h₁, k₁) = Reads-step _ _ s (Reads-authorize_self_or_admin u.id) h in
      let (x₂, h₂, k₂) = Reads-step _ _ s (Reads-raise_if _ _) k₁ in
      let (x₃, h₃, k₃) = Reads-step _ _ s (Reads-reauthenticate u.id payload) k₂ in
      let (x₄, h₄, k₄) = Reads-step _ _ s (Reads-check_email u.id payload.email) k₃ in
      let (x₅, h₅, k₅) = Reads-step _ _ s (Reads-check_username u.id payload.username) k₄ in
      let (found, s₆, h₆, k₆) = >>=-Returns _ _ s k₅ in
      let updated = rethrow-Returns _ _ s h₆ in
      let (row, h₇, k₇) = Reads-step _ _ s₆ (Reads-or_raise _ found) k₆ in
      let (e₇, p₇) = or_raise-Returns _ found s₆ h₇ in
      let (done, e₈) = finish-Returns u AuditAction.update EntityType.user u.id row s₆ k₇ in
      let (ungiven, p₂) = raise_if-Returns _ _ s (rw plain at h₂) in
      elim (update-Returns user_repo u.id (set_fields pw payload) s updated) [
        | inl (missing, nothing, same) ↦ ground arith
        | inr (old, new, there, changed, holds, result, same) ↦
            let (id, role) = set_fields-kept pw payload old new (ground arith) changed in
            (
              old,
              new,
              there,
              id ∙ id_of-find u.id s.working.users old there,
              role,
              done
                  ∙ ap
                      (λ t. record (t.working) {
                        audit_logs =
                            t.working.audit_logs
                            ++ entry u AuditAction.update EntityType.user u.id ∷ [];
                      })
                      same,
            )
      ]
