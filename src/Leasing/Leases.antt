-- ===== src/Leasing/Leases.antt =====
-- `LeaseService` (app/leasing/services/lease_service.py).
pub mod Atomic
use propnest_api.Base.{ℕ, Option, none, some, not, ◌==◌}
use propnest_api.Core.Error.{
  Constraint, Error, Result, ok, integrity, related_resource_not_found, lease_forbidden,
  lease_rental_type, lease_already_exists,
}
use propnest_api.Core.Session.{Action, ◌>>=◌, ◌>>◌, pure, or_raise, raise_if, commit, rethrow}
use propnest_api.Core.Repository.{get_by_id, first, create, update, delete, lease_repo}
use propnest_api.Core.Patch
use propnest_api.Core.Patch.{Patch, required, nullable}
use propnest_api.Core.Audit.{write_audit_log}
use propnest_api.Core.Access.{authorize_user_to_property, validate_related_resources, get_contract}
use propnest_api.Models.User.{User}
use propnest_api.Models.AuditLog.{AuditAction}
use propnest_api.Models.AuditLog.EntityType
use propnest_api.Models.Contract.{Contract, is_long_term}
use propnest_api.Models.Lease.{Lease, BillingCycle, RenewalOption, LeaseStatus}

-- `LeaseCreate`, validated
pub record LeaseCreate : Type 0 where
  pub contract_id : ℕ
  pub monthly_rent : ℕ
  pub due_day : ℕ
  pub billing_cycle : BillingCycle
  pub security_deposit : Option ℕ
  pub advance_payment : Option ℕ
  pub late_fee_amount : Option ℕ
  pub late_fee_percent : Option ℕ
  pub grace_period_days : ℕ
  pub renewal_option : RenewalOption
  pub status : LeaseStatus
  pub start_date : ℕ
  pub end_date : Option ℕ

-- `LeaseUpdate`, validated
pub record LeaseUpdate : Type 0 where
  pub monthly_rent : Patch ℕ
  pub due_day : Patch ℕ
  pub billing_cycle : Patch BillingCycle
  pub security_deposit : Patch ℕ
  pub advance_payment : Patch ℕ
  pub late_fee_amount : Patch ℕ
  pub late_fee_percent : Patch ℕ
  pub grace_period_days : Patch ℕ
  pub renewal_option : Patch RenewalOption
  pub status : Patch LeaseStatus
  pub start_date : Patch ℕ
  pub end_date : Patch ℕ

-- `_raise_if_duplicate_lease_conflict`, then the bare `raise`
abbrev pub duplicate_lease : Error → Error
duplicate_lease (integrity Constraint.uq_lease_contract_id) = lease_already_exists
duplicate_lease e = e

abbrev pub new_lease : LeaseCreate → ℕ → Lease
new_lease payload id = record {
  id = id;
  contract_id = payload.contract_id;
  monthly_rent = payload.monthly_rent;
  due_day = payload.due_day;
  billing_cycle = payload.billing_cycle;
  security_deposit = payload.security_deposit;
  advance_payment = payload.advance_payment;
  late_fee_amount = payload.late_fee_amount;
  late_fee_percent = payload.late_fee_percent;
  grace_period_days = payload.grace_period_days;
  renewal_option = payload.renewal_option;
  status = payload.status;
  start_date = payload.start_date;
  end_date = payload.end_date;
}

unfoldable pub set_fields : LeaseUpdate → Lease → Result Lease
set_fields payload l = Patch.◌>>=◌ (required payload.monthly_rent l.monthly_rent) λ monthly_rent.
    Patch.◌>>=◌ (required payload.due_day l.due_day) λ due_day.
      Patch.◌>>=◌ (required payload.billing_cycle l.billing_cycle) λ billing_cycle.
        Patch.◌>>=◌ (required payload.grace_period_days l.grace_period_days) λ grace_period_days.
          Patch.◌>>=◌ (required payload.renewal_option l.renewal_option) λ renewal_option.
            Patch.◌>>=◌ (required payload.status l.status) λ status.
              Patch.◌>>=◌ (required payload.start_date l.start_date) λ start_date. ok (record l {
                monthly_rent = monthly_rent;
                due_day = due_day;
                billing_cycle = billing_cycle;
                security_deposit = nullable payload.security_deposit l.security_deposit;
                advance_payment = nullable payload.advance_payment l.advance_payment;
                late_fee_amount = nullable payload.late_fee_amount l.late_fee_amount;
                late_fee_percent = nullable payload.late_fee_percent l.late_fee_percent;
                grace_period_days = grace_period_days;
                renewal_option = renewal_option;
                status = status;
                start_date = start_date;
                end_date = nullable payload.end_date l.end_date;
              })

unfoldable pub get_lease : ℕ → User → Action Lease
get_lease lease_id current_user = do
  found ← get_by_id lease_repo lease_id
  lease ← or_raise related_resource_not_found found
  authorize_user_to_property lease_forbidden current_user none (some lease.contract_id) none
  pure lease

authorize_found : User → Option Lease → Action (Option Lease)
authorize_found current_user none = pure none
authorize_found current_user (some lease) = do
  authorize_user_to_property lease_forbidden current_user none (some lease.contract_id) none
  pure (some lease)

unfoldable pub get_by_contract : ℕ → User → Action (Option Lease)
unfolding authorize_found
get_by_contract contract_id current_user = do
  lease ← first lease_repo (λ l. l.contract_id == contract_id)
  authorize_found current_user lease

-- `_prepare_lease_context`: the contract, if it exists and the user may manage its property. The
-- second lookup finds what the first has found.
unfoldable pub prepare_lease_context : User → ℕ → Action Contract
prepare_lease_context current_user contract_id = do
  validate_related_resources none (some contract_id) none
  found ← get_contract contract_id
  authorize_user_to_property lease_forbidden current_user none (some contract_id) found
  or_raise related_resource_not_found found

unfoldable pub create_lease : LeaseCreate → User → Action Lease
create_lease payload current_user = do
  contract ← prepare_lease_context current_user payload.contract_id
  raise_if (not (is_long_term contract.rental_type)) lease_rental_type
  rethrow duplicate_lease do
    lease ← create lease_repo (new_lease payload)
    write_audit_log current_user AuditAction.create EntityType.lease lease.id
    commit
    pure lease

unfoldable pub update_lease : ℕ → LeaseUpdate → User → Action (Option Lease)
update_lease lease_id payload current_user = do
  get_lease lease_id current_user
  lease ← update lease_repo lease_id (set_fields payload)
  write_audit_log current_user AuditAction.update EntityType.lease lease_id
  commit
  pure lease

unfoldable pub delete_lease : ℕ → User → Action (Option Lease)
delete_lease lease_id current_user = do
  get_lease lease_id current_user
  lease ← delete lease_repo lease_id
  write_audit_log current_user AuditAction.delete EntityType.lease lease_id
  commit
  pure lease
