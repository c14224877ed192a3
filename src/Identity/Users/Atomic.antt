-- ===== src/Identity/Users/Atomic.antt =====
-- `UserService` commits last: a method that raises has committed nothing.
use propnest_api.Base.{ℕ, Option, none, some}
use propnest_api.Core.Patch.{Patch, absent, null, value}
use propnest_api.Core.Text.{Text}
use propnest_api.Core.Session.Atomic.{NoCommit, Atomic, total_rules, Atomic-Total, atomic_rules}
use propnest_api.Core.Access.Atomic.{access_rules}
use propnest_api.Models.User.{User}
use propnest_api.Identity.Passwords.{Passwords}
use propnest_api.Identity.Users.{
  UserCreate, UserUpdate, require_admin, authorize_self_or_admin, create_user, check_email,
  check_username, verify_current_password, reauthenticate, update_user, delete_user,
}

pub NoCommit-require_admin : (u : User) → NoCommit (require_admin u)
unfolding require_admin
NoCommit-require_admin u = search access_rules

NoCommit-authorize_self_or_admin : (u : User) (i : ℕ) → NoCommit (authorize_self_or_admin u i)
unfolding authorize_self_or_admin
NoCommit-authorize_self_or_admin u i = search access_rules

NoCommit-check_email : (i : ℕ) (p : Patch Text) → NoCommit (check_email i p)
unfolding check_email
NoCommit-check_email i (value e) = search access_rules
NoCommit-check_email i absent = search access_rules
NoCommit-check_email i null = search access_rules

NoCommit-check_username : (i : ℕ) (p : Patch Text) → NoCommit (check_username i p)
unfolding check_username
NoCommit-check_username i (value e) = search access_rules
NoCommit-check_username i absent = search access_rules
NoCommit-check_username i null = search access_rules

NoCommit-verify_current_password :
    (pw : Passwords) (o : Option Text) (u : User) → NoCommit (verify_current_password pw o u)
unfolding verify_current_password
NoCommit-verify_current_password pw none u = search access_rules
NoCommit-verify_current_password pw (some p) u = search access_rules

NoCommit-reauthenticate :
    (pw : Passwords) (i : ℕ) (p : UserUpdate) (u : User) → NoCommit (reauthenticate pw i p u)
unfolding reauthenticate
NoCommit-reauthenticate pw i p u = search (access_rules, NoCommit-verify_current_password)

ruleset user_rules = (
  atomic_rules, access_rules, Atomic-Total, total_rules, NoCommit-require_admin,
  NoCommit-authorize_self_or_admin, NoCommit-check_email, NoCommit-check_username,
  NoCommit-reauthenticate,
)

module _ (pw : Passwords) where
  pub Atomic-create_user : (p : UserCreate) (u : User) → Atomic (create_user pw p u)
  unfolding create_user
  Atomic-create_user p u = search user_rules depth 24

  pub Atomic-update_user : (i : ℕ) (p : UserUpdate) (u : User) → Atomic (update_user pw i p u)
  unfolding update_user
  Atomic-update_user i p u = search user_rules depth 30

pub Atomic-delete_user : (i : ℕ) (u : User) → Atomic (delete_user i u)
unfolding delete_user
Atomic-delete_user i u = search user_rules depth 24
