-- ===== src/Leasing/Contracts/Atomic.antt =====
-- `ContractService` commits last: a method that raises has committed nothing, so the contract and
-- the status of its property change together.
use propnest_api.Base.{ℕ, Option, none, some}
use propnest_api.Core.Session.Atomic.{NoCommit, Atomic, total_rules, Atomic-Total, atomic_rules}
use propnest_api.Core.Access.Atomic.{access_rules}
use propnest_api.Models.User.{User}
use propnest_api.Models.Property.{PropertyStatus}
use propnest_api.Leasing.Contracts.{
  ContractCreate, ContractUpdate, sync_property_status, get_contract, prepare_contract_context,
  create_contract, update_contract, delete_contract,
}

NoCommit-sync_property_status :
    (i : ℕ) (o : Option PropertyStatus) → NoCommit (sync_property_status i o)
unfolding sync_property_status
NoCommit-sync_property_status i none = search access_rules
NoCommit-sync_property_status i (some status) = search access_rules

NoCommit-get_contract : (i : ℕ) (u : User) → NoCommit (get_contract i u)
unfolding get_contract
NoCommit-get_contract i u = search access_rules depth 10

NoCommit-prepare_contract_context : (u : User) (p t : ℕ) → NoCommit (prepare_contract_context u p t)
unfolding prepare_contract_context
NoCommit-prepare_contract_context u p t = search access_rules depth 10

ruleset contract_rules = (
  atomic_rules, access_rules, Atomic-Total, total_rules, NoCommit-sync_property_status,
  NoCommit-get_contract, NoCommit-prepare_contract_context,
)

pub Atomic-get_contract : (i : ℕ) (u : User) → Atomic (get_contract i u)
Atomic-get_contract i u = search contract_rules

pub Atomic-create_contract : (p : ContractCreate) (u : User) → Atomic (create_contract p u)
unfolding create_contract
Atomic-create_contract p u = search contract_rules depth 20

pub Atomic-update_contract :
    (i : ℕ) (p : ContractUpdate) (u : User) → Atomic (update_contract i p u)
unfolding update_contract
Atomic-update_contract i p u = search contract_rules depth 20

pub Atomic-delete_contract : (i : ℕ) (u : User) → Atomic (delete_contract i u)
unfolding delete_contract
Atomic-delete_contract i u = search contract_rules depth 20
