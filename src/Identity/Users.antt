-- ===== src/Identity/Users.antt =====
-- `UserService` (app/identity/services/user_service.py), the repository methods it uses
-- (app/identity/repositories/user.py), and `require_admin` of app/core/dependencies.py.
pub mod Atomic
pub mod Updated
pub mod Own
use propnest_api.Base.{
  ℕ, String, Bool, true, false, Option, none, some, not, ◌==◌, ◌&&◌, is_some, if◌then◌else◌,
}
use propnest_api.Core.Text.{Text, normalize, same_text, is_empty}
use propnest_api.Core.Error.{
  Constraint, Error, Result, ok, err, integrity, user_not_found, user_forbidden, type_error,
  email_already_exists, username_already_exists, manager_assigned_to_property,
  current_password_required, invalid_credentials,
}
use propnest_api.Core.Session.{Action, ◌>>=◌, ◌>>◌, pure, raise_if, or_raise, commit, rethrow}
use propnest_api.Core.Repository.{first, get_by_id, create, update, delete, user_repo}
use propnest_api.Core.Patch
use propnest_api.Core.Patch.{Patch, absent, null, value, not_null, required}
use propnest_api.Core.Audit.{write_audit_log}
use propnest_api.Models.User.{User, UserRole, is_admin}
use propnest_api.Models.AuditLog.{AuditAction}
use propnest_api.Models.AuditLog.EntityType
use propnest_api.Identity.Passwords.{Passwords, verify_password}

-- `UserCreate`, validated; `created_at` is the time of the call
pub record UserCreate : Type 0 where
  pub username : Text
  pub email : Text
  pub full_name : String
  pub role : UserRole
  pub is_active : Bool
  pub password : Text
  pub created_at : ℕ

-- `UserUpdate`, validated; `updated_at` is the time of the call
pub record UserUpdate : Type 0 where
  pub full_name : Patch String
  pub username : Patch Text
  pub email : Patch Text
  pub password : Patch Text
  pub current_password : Option Text
  pub role : Patch UserRole
  pub is_active : Patch Bool
  pub updated_at : ℕ

-- `get_by_email` and `get_by_username`
abbrev pub has_email : Text → User → Bool
has_email email u = same_text u.email (normalize email)

abbrev pub has_username : Text → User → Bool
has_username username u = same_text u.username (normalize username)

-- `current_user.role != UserRole.ADMIN`: the service's check and that of the routes
unfoldable pub require_admin : User → Action (Unit {0})
require_admin current_user = raise_if (not (is_admin current_user.role)) user_forbidden

unfoldable pub authorize_self_or_admin : User → ℕ → Action (Unit {0})
authorize_self_or_admin current_user target_id =
    raise_if (not (is_admin current_user.role) && not (current_user.id == target_id)) user_forbidden

unfoldable pub get_user : ℕ → User → Action User
get_user id current_user = do
  authorize_self_or_admin current_user id
  found ← get_by_id user_repo id
  or_raise user_not_found found

-- `_raise_conflict`: the driver's message names the column
abbrev pub conflict : Error → Error
conflict (integrity Constraint.ix_users_email) = email_already_exists
conflict (integrity Constraint.not_null_email) = email_already_exists
conflict (integrity Constraint.ix_users_username) = username_already_exists
conflict (integrity Constraint.not_null_username) = username_already_exists
conflict e = e

-- `_raise_conflict` with the default of `create_user`
abbrev pub create_conflict : Error → Error
create_conflict (integrity Constraint.ix_users_username) = username_already_exists
create_conflict (integrity Constraint.not_null_username) = username_already_exists
create_conflict (integrity c) = email_already_exists
create_conflict e = e

-- the row of `UserRepository.create`
abbrev pub new_user : Passwords → UserCreate → ℕ → User
new_user pw payload id = record {
  id = id;
  username = normalize payload.username;
  email = normalize payload.email;
  full_name = payload.full_name;
  password_hash = pw.hash payload.password;
  password_changed_at = payload.created_at;
  role = payload.role;
  is_active = payload.is_active;
}

unfoldable pub create_user : Passwords → UserCreate → User → Action User
create_user pw payload current_user = do
  same_email ← first user_repo (has_email payload.email)
  raise_if (is_some same_email) email_already_exists
  same_username ← first user_repo (has_username payload.username)
  raise_if (is_some same_username) username_already_exists
  rethrow create_conflict do
    user ← create user_repo (new_user pw payload)
    write_audit_log current_user AuditAction.create EntityType.user user.id
    commit
    pure user

abbrev pub normalized : Patch Text → Patch Text
normalized (value t) = value (normalize t)
normalized p = p

abbrev pub is_given : {A : Type 0} → Patch A → Bool
is_given (value a) = true
is_given _ = false

-- the hash and the time of the last change; hashing None is a TypeError
unfoldable pub set_password : Passwords → Patch Text → ℕ → User → Result User
set_password pw absent now u = ok u
set_password pw null now u = err type_error
set_password pw (value p) now u =
    ok (record u { password_hash = pw.hash p; password_changed_at = now })

-- `UserRepository.update`
unfoldable pub set_fields : Passwords → UserUpdate → User → Result User
unfolding set_password
set_fields pw payload u = Patch.◌>>=◌ (set_password pw payload.password payload.updated_at u) λ v.
    Patch.◌>>=◌ (required payload.full_name v.full_name) λ full_name.
      Patch.◌>>=◌ (not_null Constraint.not_null_username (normalized payload.username) v.username)
        λ username.
          Patch.◌>>=◌ (not_null Constraint.not_null_email (normalized payload.email) v.email)
            λ email. Patch.◌>>=◌ (required payload.role v.role) λ role.
              Patch.◌>>=◌ (required payload.is_active v.is_active) λ is_active. ok (record v {
                full_name = full_name;
                username = username;
                email = email;
                role = role;
                is_active = is_active;
              })

-- `existing and existing.id != id`
abbrev pub is_other : Option User → ℕ → Bool
is_other none id = false
is_other (some u) id = not (u.id == id)

-- the checks of an email and of a username that are given
unfoldable pub check_email : ℕ → Patch Text → Action (Unit {0})
check_email id (value email) = do
  existing ← first user_repo (has_email email)
  raise_if (is_other existing id) email_already_exists
check_email id _ = pure tt

unfoldable pub check_username : ℕ → Patch Text → Action (Unit {0})
check_username id (value username) = do
  existing ← first user_repo (has_username username)
  raise_if (is_other existing id) username_already_exists
check_username id _ = pure tt

-- `if not payload.current_password` and then the comparison
unfoldable pub verify_current_password : Passwords → Option Text → User → Action (Unit {0})
verify_current_password pw none current_user = raise_if true current_password_required
verify_current_password pw (some p) current_user = do
  raise_if (is_empty p) current_password_required
  raise_if (not (verify_password pw p current_user.password_hash)) invalid_credentials

-- the branch of `update` on a new password for the own account
unfoldable pub reauthenticate : Passwords → ℕ → UserUpdate → User → Action (Unit {0})
reauthenticate pw id payload current_user =
    if is_given payload.password && current_user.id == id
    then verify_current_password pw payload.current_password current_user
    else pure tt

-- The notice of a changed password is a log line.
unfoldable pub update_user : Passwords → ℕ → UserUpdate → User → Action User
update_user pw id payload current_user = do
  authorize_self_or_admin current_user id
  raise_if (is_given payload.role && not (is_admin current_user.role)) user_forbidden
  reauthenticate pw id payload current_user
  check_email id payload.email
  check_username id payload.username
  found ← rethrow conflict (update user_repo id (set_fields pw payload))
  user ← or_raise user_not_found found
  write_audit_log current_user AuditAction.update EntityType.user id
  commit
  pure user

-- every IntegrityError of the commit means that the user manages a property
abbrev pub still_manager : Error → Error
still_manager (integrity c) = manager_assigned_to_property
still_manager e = e

-- The DELETE is sent with the commit; nothing that comes between depends on it.
unfoldable pub delete_user : ℕ → User → Action User
delete_user id current_user = do
  require_admin current_user
  raise_if (current_user.id == id) user_forbidden
  found ← rethrow still_manager (delete user_repo id)
  user ← or_raise user_not_found found
  write_audit_log current_user AuditAction.delete EntityType.user id
  commit
  pure user
