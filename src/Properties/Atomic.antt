-- ===== src/Properties/Atomic.antt =====
-- `PropertyService` commits last: a method that raises has committed nothing.
use propnest_api.Base.{ℕ}
use propnest_api.Core.Session.Atomic.{NoCommit, Atomic, total_rules, Atomic-Total, atomic_rules}
use propnest_api.Core.Access.Atomic.{access_rules}
use propnest_api.Models.User.{User}
use propnest_api.Properties.{
  require_admin, PropertyCreate, PropertyUpdate, get_property, create_property, update_property,
  delete_property, assign_manager,
}

NoCommit-get_property : (i : ℕ) (u : User) → NoCommit (get_property i u)
unfolding get_property
NoCommit-get_property i u = search access_rules depth 10

NoCommit-require_admin : (u : User) → NoCommit (require_admin u)
unfolding require_admin
NoCommit-require_admin u = search access_rules

ruleset property_rules = (
  NoCommit-require_admin, atomic_rules, access_rules, Atomic-Total, total_rules,
  NoCommit-get_property,
)

pub Atomic-get_property : (i : ℕ) (u : User) → Atomic (get_property i u)
Atomic-get_property i u = search property_rules

pub Atomic-create_property : (p : PropertyCreate) (u : User) → Atomic (create_property p u)
unfolding create_property
Atomic-create_property p u = search property_rules depth 20

pub Atomic-update_property :
    (i : ℕ) (p : PropertyUpdate) (u : User) → Atomic (update_property i p u)
unfolding update_property
Atomic-update_property i p u = search property_rules depth 20

pub Atomic-delete_property : (i : ℕ) (u : User) → Atomic (delete_property i u)
unfolding delete_property
Atomic-delete_property i u = search property_rules depth 20

pub Atomic-assign_manager : (i m : ℕ) (u : User) → Atomic (assign_manager i m u)
unfolding assign_manager
Atomic-assign_manager i m u = search property_rules depth 24
