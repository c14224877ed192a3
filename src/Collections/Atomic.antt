-- ===== src/Collections/Atomic.antt =====
-- `CollectionService` commits last: a method that raises has committed nothing.
use propnest_api.Base.{ℕ, Option, none, some}
use propnest_api.Core.Patch.{Patch, absent, null, value}
use propnest_api.Core.Session.Atomic.{NoCommit, Atomic, total_rules, Atomic-Total, atomic_rules}
use propnest_api.Core.Access.Atomic.{access_rules}
use propnest_api.Models.User.{User}
use propnest_api.Models.Collection.{Collection}
use propnest_api.Collections.{
  CollectionCreate, CollectionUpdate, check_contract, prepare_collection_context, get_collection,
  create_collection, check_update, update_collection, delete_collection,
}

NoCommit-check_contract : (o : Option ℕ) (p : ℕ) → NoCommit (check_contract o p)
unfolding check_contract
NoCommit-check_contract none p = search access_rules
NoCommit-check_contract (some c) p = search access_rules depth 8

NoCommit-prepare_collection_context :
    (u : User) (p : ℕ) (o : Option ℕ) → NoCommit (prepare_collection_context u p o)
unfolding prepare_collection_context
NoCommit-prepare_collection_context u p o = search (access_rules, NoCommit-check_contract) depth 8

NoCommit-get_collection : (i : ℕ) (u : User) → NoCommit (get_collection i u)
unfolding get_collection
NoCommit-get_collection i u = search access_rules depth 10

NoCommit-check_update : (u : User) (c : Collection) (p : Patch ℕ) → NoCommit (check_update u c p)
unfolding check_update
NoCommit-check_update u c (value i) = search (access_rules, NoCommit-prepare_collection_context)
NoCommit-check_update u c absent = search access_rules
NoCommit-check_update u c null = search access_rules

ruleset collection_rules = (
  atomic_rules, access_rules, Atomic-Total, total_rules, NoCommit-prepare_collection_context,
  NoCommit-get_collection, NoCommit-check_update,
)

pub Atomic-create_collection : (p : CollectionCreate) (u : User) → Atomic (create_collection p u)
unfolding create_collection
Atomic-create_collection p u = search collection_rules depth 20

pub Atomic-update_collection :
    (i : ℕ) (p : CollectionUpdate) (u : User) → Atomic (update_collection i p u)
unfolding update_collection
Atomic-update_collection i p u = search collection_rules depth 20

pub Atomic-delete_collection : (i : ℕ) (u : User) → Atomic (delete_collection i u)
unfolding delete_collection
Atomic-delete_collection i u = search collection_rules depth 20
