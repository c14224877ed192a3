-- ===== src/Leasing/Contracts.antt =====
-- `ContractService` (app/leasing/services/contract_service.py). Every change of a contract's status
-- sets the status of its property in the same transaction.
pub mod Atomic
pub mod Occupancy
pub mod Returns
pub mod Sync
use propnest_api.Base.{ℕ, Option, none, some, if◌then◌else◌}
use propnest_api.Core.Error.{
  Constraint, Error, Result, ok, integrity, related_resource_not_found, contract_forbidden,
  contract_active, contract_in_use,
}
use propnest_api.Core.Session.{Action, ◌>>=◌, ◌>>◌, pure, or_raise, commit, rethrow}
use propnest_api.Core.Repository.{get_by_id, create, update, delete, contract_repo, property_repo}
use propnest_api.Core.Patch
use propnest_api.Core.Patch.{Patch, required, nullable}
use propnest_api.Core.Audit.{write_audit_log}
use propnest_api.Core.Access.{authorize_user_to_property, validate_related_resources}
use propnest_api.Models.User.{User}
use propnest_api.Models.AuditLog.{AuditAction}
use propnest_api.Models.AuditLog.EntityType
use propnest_api.Models.Property.{PropertyStatus, vacant, occupied}
use propnest_api.Models.Contract.{
  Contract, ContractStatus, RentalType, BookingSource, active, same_status,
}

-- `ContractCreate`, validated
pub record ContractCreate : Type 0 where
  pub property_id : ℕ
  pub tenant_id : ℕ
  pub rental_type : RentalType
  pub start_date : ℕ
  pub end_date : Option ℕ
  pub rent_amount : ℕ
  pub deposit : Option ℕ
  pub booking_source : BookingSource
  pub status : ContractStatus

-- `ContractUpdate`, validated
pub record ContractUpdate : Type 0 where
  pub rental_type : Patch RentalType
  pub start_date : Patch ℕ
  pub end_date : Patch ℕ
  pub rent_amount : Patch ℕ
  pub deposit : Patch ℕ
  pub booking_source : Patch BookingSource
  pub status : Patch ContractStatus

-- `_resolve_property_status_transition`
unfoldable pub resolve_property_status_transition :
    Option ContractStatus → Option ContractStatus → Option PropertyStatus
resolve_property_status_transition none none = none
resolve_property_status_transition (some active) none = some vacant
resolve_property_status_transition (some _) none = none
resolve_property_status_transition none (some active) = some occupied
resolve_property_status_transition none (some _) = none
resolve_property_status_transition (some old) (some new) =
    if same_status new old
    then none
    else if same_status old active
    then some vacant
    else if same_status new active
    then some occupied
    else none

-- `if prop_status: await _sync_property_status(...)`
unfoldable pub sync_property_status : ℕ → Option PropertyStatus → Action (Unit {0})
sync_property_status property_id none = pure tt
sync_property_status property_id (some status) = do
  update property_repo property_id (λ p. ok (record p { status = status }))
  pure tt

-- `_raise_if_active_contract_conflict`, then the bare `raise`
abbrev pub active_conflict : Error → Error
active_conflict (integrity Constraint.uq_active_contract_property) = contract_active
active_conflict e = e

-- every IntegrityError of a deletion means that the contract is referenced
abbrev pub in_use : Error → Error
in_use (integrity c) = contract_in_use
in_use e = e

abbrev pub new_contract : ContractCreate → ℕ → Contract
new_contract payload id = record {
  id = id;
  property_id = payload.property_id;
  tenant_id = payload.tenant_id;
  rental_type = payload.rental_type;
  start_date = payload.start_date;
  end_date = payload.end_date;
  rent_amount = payload.rent_amount;
  deposit = payload.deposit;
  booking_source = payload.booking_source;
  status = payload.status;
}

unfoldable pub set_fields : ContractUpdate → Contract → Result Contract
set_fields payload c = Patch.◌>>=◌ (required payload.rental_type c.rental_type) λ rental_type.
    Patch.◌>>=◌ (required payload.start_date c.start_date) λ start_date.
      Patch.◌>>=◌ (required payload.rent_amount c.rent_amount) λ rent_amount.
        Patch.◌>>=◌ (required payload.booking_source c.booking_source) λ booking_source.
          Patch.◌>>=◌ (required payload.status c.status) λ status. ok (record c {
            rental_type = rental_type;
            start_date = start_date;
            end_date = nullable payload.end_date c.end_date;
            rent_amount = rent_amount;
            deposit = nullable payload.deposit c.deposit;
            booking_source = booking_source;
            status = status;
          })

unfoldable pub get_contract : ℕ → User → Action Contract
get_contract contract_id current_user = do
  found ← get_by_id contract_repo contract_id
  contract ← or_raise related_resource_not_found found
  authorize_user_to_property contract_forbidden current_user (some contract.property_id) none none
  pure contract

-- `_prepare_contract_context` of a new contract
unfoldable pub prepare_contract_context : User → ℕ → ℕ → Action (Unit {0})
prepare_contract_context current_user property_id tenant_id = do
  validate_related_resources (some property_id) none (some tenant_id)
  authorize_user_to_property contract_forbidden current_user (some property_id) none none

unfoldable pub create_contract : ContractCreate → User → Action Contract
create_contract payload current_user = do
  prepare_contract_context current_user payload.property_id payload.tenant_id
  rethrow active_conflict do
    contract ← create contract_repo (new_contract payload)
    sync_property_status contract.property_id
        (resolve_property_status_transition none (some contract.status))
    write_audit_log current_user AuditAction.create EntityType.contract contract.id
    commit
    pure contract

-- the status that the property takes when the contract changes from `old`, if it is there
abbrev pub status_after : ContractStatus → Option Contract → Option PropertyStatus
status_after old none = none
status_after old (some c) = resolve_property_status_transition (some old) (some c.status)

unfoldable pub update_contract : ℕ → ContractUpdate → User → Action (Option Contract)
update_contract contract_id payload current_user = do
  contract ← get_contract contract_id current_user
  rethrow active_conflict do
    updated ← update contract_repo contract_id (set_fields payload)
    sync_property_status contract.property_id (status_after contract.status updated)
    write_audit_log current_user AuditAction.update EntityType.contract contract_id
    commit
    pure updated

-- the status that the property takes when a contract of status `old` is gone
abbrev pub status_without : ContractStatus → Option Contract → Option PropertyStatus
status_without old none = none
status_without old (some c) = resolve_property_status_transition (some old) none

unfoldable pub delete_contract : ℕ → User → Action (Option Contract)
delete_contract contract_id current_user = do
  contract ← get_contract contract_id current_user
  rethrow in_use do
    deleted ← delete contract_repo contract_id
    sync_property_status contract.property_id (status_without contract.status deleted)
    write_audit_log current_user AuditAction.delete EntityType.contract contract_id
    commit
    pure deleted
