-- ===== src/Core/Constraints.antt =====
-- What the database checks when a row is written or deleted: the `__table_args__` and foreign keys
-- of the models, in the order CHECK, UNIQUE, FOREIGN KEY.
pub mod Rules
pub mod TenantTable
pub mod UserTable
pub mod Consistent
use propnest_api.Base.{
  ℕ, Bool, true, false, Option, none, some, List, [], ◌∷◌, ◌&&◌, not, ltb, leb, ◌==◌, is_id,
  is_some, any, str_eq, if◌then◌else◌,
}
use propnest_api.Core.Error.{Constraint}
use propnest_api.Core.Schema.{
  Tables, find, others, HasId, user_key, property_key, tenant_key, contract_key, lease_key,
  billing_record_key, payment_key, collection_key,
}
use propnest_api.Core.Text.{same_text}
use propnest_api.Models.User.{User}
use propnest_api.Models.Tenant.{Tenant}
use propnest_api.Models.Collection.{Collection}
use propnest_api.Models.Document.{Document}
use propnest_api.Models.Property.{Property}
use propnest_api.Models.Contract
use propnest_api.Models.Contract.{Contract}
use propnest_api.Models.Lease.{Lease}
use propnest_api.Models.BillingRecord.{BillingRecord}
use propnest_api.Models.Payment.{Payment}

-- the first constraint whose condition fails
abbrev pub first_failed : List (Bool × Constraint) → Option Constraint
first_failed [] = none
first_failed ((holds, c) ∷ rest) = if holds then first_failed rest else some c

-- `x IS NULL OR x > 0`
abbrev pub null_or_positive : Option ℕ → Bool
null_or_positive none = true
null_or_positive (some n) = ltb 0 n

-- `end_date IS NULL OR end_date > start_date`
abbrev pub null_or_after : Option ℕ → ℕ → Bool
null_or_after none start = true
null_or_after (some e) start = ltb start e

-- a foreign key that may be NULL
abbrev pub null_or_row : {A : Type 0} ⦃k : HasId A⦄ → Option ℕ → List A → Bool
null_or_row none rows = true
null_or_row (some i) rows = is_some (find i rows)

unfoldable pub property_violation : Property → Tables → Option Constraint
property_violation p t = first_failed (
    (
      not (
          any (λ q. str_eq q.name p.name && str_eq q.address p.address) (others p.id t.properties)),
      Constraint.uq_property_name_address,
    )
    ∷ (null_or_row p.manager_id t.users, Constraint.fk_property_manager)
    ∷ [])

-- the rows that `uq_active_contract_property` compares
abbrev pub holds_property : ℕ → Contract → Bool
holds_property pid c = Contract.is_active c.status && c.property_id == pid

unfoldable pub contract_violation : Contract → Tables → Option Constraint
contract_violation c t = first_failed (
    (null_or_after c.end_date c.start_date, Constraint.ck_contract_dates)
    ∷ (ltb 0 c.rent_amount, Constraint.ck_contract_rent_positive)
    ∷ (null_or_positive c.deposit, Constraint.ck_contract_deposit_positive)
    ∷ (
      not (
          Contract.is_active c.status
          && any (holds_property c.property_id) (others c.id t.contracts)),
      Constraint.uq_active_contract_property,
    )
    ∷ (is_some (find c.property_id t.properties), Constraint.fk_contract_property)
    ∷ (is_some (find c.tenant_id t.tenants), Constraint.fk_contract_tenant)
    ∷ [])

-- `(late_fee_amount IS NULL) <> (late_fee_percent IS NULL)`
abbrev pub exactly_one : Option ℕ → Option ℕ → Bool
exactly_one none (some p) = true
exactly_one (some a) none = true
exactly_one _ _ = false

-- a percentage over 0 and at most 100, in hundredths
abbrev pub percent_in_range : Option ℕ → Bool
percent_in_range none = true
percent_in_range (some p) = ltb 0 p && leb p 10000

-- `grace_period_days >= 0` holds of every natural number
unfoldable pub lease_violation : Lease → Tables → Option Constraint
lease_violation l t = first_failed (
    (ltb 0 l.monthly_rent, Constraint.ck_lease_monthly_rent_positive)
    ∷ (leb 1 l.due_day && leb l.due_day 31, Constraint.ck_lease_due_day_range)
    ∷ (null_or_positive l.security_deposit, Constraint.ck_lease_security_deposit_positive)
    ∷ (null_or_positive l.advance_payment, Constraint.ck_lease_advance_payment_positive)
    ∷ (exactly_one l.late_fee_amount l.late_fee_percent, Constraint.ck_lease_late_fee_exactly_one)
    ∷ (null_or_positive l.late_fee_amount, Constraint.ck_lease_late_fee_amount_positive)
    ∷ (percent_in_range l.late_fee_percent, Constraint.ck_lease_late_fee_percent_range)
    ∷ (null_or_after l.end_date l.start_date, Constraint.ck_lease_dates)
    ∷ (
      not (any (λ m. m.contract_id == l.contract_id) (others l.id t.leases)),
      Constraint.uq_lease_contract_id,
    )
    ∷ (is_some (find l.contract_id t.contracts), Constraint.fk_lease_contract)
    ∷ [])

-- `late_fee_applied` exactly if a late fee is charged
abbrev pub late_fee_consistent : Bool → Option ℕ → Bool
late_fee_consistent applied charged = if applied then is_some charged else not (is_some charged)

-- the rows that `uq_billing_record_lease_id_period_start` compares
abbrev pub same_period : ℕ → ℕ → BillingRecord → Bool
same_period lid start r = r.lease_id == lid && r.period_start == start

unfoldable pub billing_record_violation : BillingRecord → Tables → Option Constraint
billing_record_violation r t = first_failed (
    (ltb 0 r.amount_due, Constraint.ck_billing_record_amount_due_positive)
    ∷ (
      null_or_positive r.late_fee_amount_charged,
      Constraint.ck_billing_record_late_fee_amount_positive,
    )
    ∷ (null_or_positive r.overpaid_amount, Constraint.ck_billing_record_overpaid_amount_positive)
    ∷ (
      late_fee_consistent r.late_fee_applied r.late_fee_amount_charged,
      Constraint.ck_billing_record_late_fee_consistency,
    )
    ∷ (ltb r.period_start r.period_end, Constraint.ck_billing_record_period_dates)
    ∷ (leb r.period_start r.due_date, Constraint.ck_billing_record_due_date_after_period_start)
    ∷ (
      not (any (same_period r.lease_id r.period_start) (others r.id t.billing_records)),
      Constraint.uq_billing_record_lease_id_period_start,
    )
    ∷ (is_some (find r.lease_id t.leases), Constraint.fk_billing_record_lease)
    ∷ [])

unfoldable pub payment_violation : Payment → Tables → Option Constraint
payment_violation p t = first_failed (
    (is_some (find p.contract_id t.contracts), Constraint.fk_payment_contract)
    ∷ (null_or_row p.billing_record_id t.billing_records, Constraint.fk_payment_billing_record)
    ∷ (null_or_row p.corrects_payment_id t.payments, Constraint.fk_payment_corrects)
    ∷ [])

unfoldable pub user_violation : User → Tables → Option Constraint
user_violation u t = first_failed (
    (
      not (any (λ v. same_text v.username u.username) (others u.id t.users)),
      Constraint.ix_users_username,
    )
    ∷ (not (any (λ v. same_text v.email u.email) (others u.id t.users)), Constraint.ix_users_email)
    ∷ [])

-- `tenant.user_id`, which is unique where it is not NULL
abbrev pub is_linked : Option ℕ → Tenant → Bool
is_linked none n = false
is_linked (some i) n = is_id n.user_id i

unfoldable pub tenant_violation : Tenant → Tables → Option Constraint
tenant_violation n t = first_failed (
    (
      not (any (λ m. same_text m.email n.email) (others n.id t.tenants)),
      Constraint.ix_tenants_email,
    )
    ∷ (not (any (is_linked n.user_id) (others n.id t.tenants)), Constraint.ix_tenants_user_id)
    ∷ (null_or_row n.user_id t.users, Constraint.fk_tenant_user)
    ∷ [])

unfoldable pub collection_violation : Collection → Tables → Option Constraint
collection_violation c t = first_failed (
    (is_some (find c.property_id t.properties), Constraint.fk_collection_property)
    ∷ (null_or_row c.contract_id t.contracts, Constraint.fk_collection_contract)
    ∷ [])

unfoldable pub document_violation : Document → Tables → Option Constraint
document_violation d t = first_failed (
    (null_or_row d.contract_id t.contracts, Constraint.fk_document_contract)
    ∷ (null_or_row d.property_id t.properties, Constraint.fk_document_property)
    ∷ (null_or_row d.tenant_id t.tenants, Constraint.fk_document_tenant)
    ∷ (null_or_row d.collection_id t.collections, Constraint.fk_document_collection)
    ∷ [])
