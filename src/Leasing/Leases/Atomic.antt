-- ===== src/Leasing/Leases/Atomic.antt =====
-- `LeaseService` commits last: a method that raises has committed nothing.
use propnest_api.Base.{ℕ, Option, none, some}
use propnest_api.Core.Session.Atomic.{NoCommit, Atomic, total_rules, Atomic-Total, atomic_rules}
use propnest_api.Core.Access.Atomic.{access_rules}
use propnest_api.Models.User.{User}
use propnest_api.Models.Lease.{Lease}
use propnest_api.Leasing.Leases.{
  LeaseCreate, LeaseUpdate, get_lease, authorize_found, get_by_contract, prepare_lease_context,
  create_lease, update_lease, delete_lease,
}

NoCommit-get_lease : (i : ℕ) (u : User) → NoCommit (get_lease i u)
unfolding get_lease
NoCommit-get_lease i u = search access_rules depth 10

NoCommit-authorize_found : (u : User) (o : Option Lease) → NoCommit (authorize_found u o)
unfolding authorize_found
NoCommit-authorize_found u none = search access_rules
NoCommit-authorize_found u (some l) = search access_rules depth 8

NoCommit-prepare_lease_context : (u : User) (i : ℕ) → NoCommit (prepare_lease_context u i)
unfolding prepare_lease_context
NoCommit-prepare_lease_context u i = search access_rules depth 10

ruleset lease_rules = (
  atomic_rules, access_rules, Atomic-Total, total_rules, NoCommit-get_lease,
  NoCommit-authorize_found, NoCommit-prepare_lease_context,
)

pub Atomic-get_lease : (i : ℕ) (u : User) → Atomic (get_lease i u)
Atomic-get_lease i u = search lease_rules

pub Atomic-get_by_contract : (i : ℕ) (u : User) → Atomic (get_by_contract i u)
unfolding get_by_contract
Atomic-get_by_contract i u = search lease_rules depth 10

pub Atomic-create_lease : (p : LeaseCreate) (u : User) → Atomic (create_lease p u)
unfolding create_lease
Atomic-create_lease p u = search lease_rules depth 20

pub Atomic-update_lease : (i : ℕ) (p : LeaseUpdate) (u : User) → Atomic (update_lease i p u)
unfolding update_lease
Atomic-update_lease i p u = search lease_rules depth 20

pub Atomic-delete_lease : (i : ℕ) (u : User) → Atomic (delete_lease i u)
unfolding delete_lease
Atomic-delete_lease i u = search lease_rules depth 20
