-- ===== src/Billing/Payments.antt =====
-- `PaymentService` (app/billing/services/payment_service.py).
pub mod Atomic
pub mod Consistent
pub mod Settled
pub mod Corrected
use propnest_api.Base.{ℕ, ◌+◌, Option, none, some, not, ◌==◌}
use propnest_api.Core.Error.{
  Result, ok, related_resource_not_found, payment_forbidden, payment_already_voided,
}
use propnest_api.Core.Session.{Action, ◌>>=◌, ◌>>◌, pure, raise_if, or_raise, lift, query, commit}
use propnest_api.Core.Repository.{
  get_by_id, create, update, delete, flush, payment_repo, billing_record_repo, lease_repo,
}
use propnest_api.Core.Patch
use propnest_api.Core.Patch.{Patch, null, value, required, nullable}
use propnest_api.Core.Audit.{write_audit_log}
use propnest_api.Core.Access.{get_contract, authorize_user_to_property}
use propnest_api.Models.User.{User}
use propnest_api.Models.AuditLog.{AuditAction}
use propnest_api.Models.AuditLog.EntityType
use propnest_api.Models.BillingRecord.{BillingRecord}
use propnest_api.Models.Payment.{Payment, PaymentStatus, PaymentMethod, cash, is_voided, voided}
use propnest_api.Billing.Money.{paid_on}
use propnest_api.Billing.Status.{apply_payment}
use propnest_api.Billing.Reference.{Text, prefixed, cash_reference}

-- `PaymentCreate`, validated
pub record PaymentCreate : Type 0 where
  pub contract_id : ℕ
  pub billing_record_id : Option ℕ
  pub amount : ℕ
  pub paid_at : ℕ
  pub payment_method : Option PaymentMethod
  pub status : PaymentStatus
  pub reference_number : Option Text

-- `PaymentUpdate`, validated: each field as the update will set it
pub record PaymentUpdate : Type 0 where
  pub amount : Patch ℕ
  pub paid_at : Patch ℕ
  pub payment_method : Patch PaymentMethod
  pub status : Patch PaymentStatus
  pub reference_number : Patch Text

-- `PaymentCorrectionCreate`, validated
pub record PaymentCorrection : Type 0 where
  pub amount : ℕ
  pub paid_at : ℕ
  pub payment_method : Option PaymentMethod
  pub status : PaymentStatus
  pub reference_number : Option Text

-- `next_cash_reference_number`: nextval, which no rollback takes back
unfoldable pub next_cash_reference_number : Action ℕ
next_cash_reference_number s = (ok (s.cash_seq + 1), record s { cash_seq = s.cash_seq + 1 })

unfoldable pub resolve_reference_number : Option PaymentMethod → Option Text → Action (Option Text)
resolve_reference_number (some cash) none = do
  seq ← next_cash_reference_number
  pure (some (cash_reference seq))
resolve_reference_number method reference = pure (prefixed method reference)

unfoldable pub get_payment_or_404 : ℕ → Action Payment
get_payment_or_404 id = do
  found ← get_by_id payment_repo id
  or_raise related_resource_not_found found

-- `_prepare_payment_context`: the contract exists, and the user may manage its property
unfoldable pub prepare_payment_context : User → ℕ → Action (Unit {0})
prepare_payment_context current_user contract_id = do
  found ← get_contract contract_id
  contract ← or_raise related_resource_not_found found
  authorize_user_to_property payment_forbidden current_user none (some contract_id) (some contract)

unfoldable pub get_billing_record_for_contract : ℕ → ℕ → Action BillingRecord
get_billing_record_for_contract billing_record_id contract_id = do
  found ← get_by_id billing_record_repo billing_record_id
  r ← or_raise related_resource_not_found found
  found_lease ← get_by_id lease_repo r.lease_id
  lease ← or_raise related_resource_not_found found_lease
  raise_if (not (lease.contract_id == contract_id)) related_resource_not_found
  pure r

-- the linked record of a payload, if it names one
unfoldable pub linked_record : Option ℕ → ℕ → Action (Option BillingRecord)
linked_record none contract_id = pure none
linked_record (some rid) contract_id = do
  r ← get_billing_record_for_contract rid contract_id
  pure (some r)

-- `_apply_payment_to_billing_record`
unfoldable pub apply_payment_to_billing_record : Option BillingRecord → Action (Unit {0})
apply_payment_to_billing_record none = pure tt
apply_payment_to_billing_record (some r) = do
  cumulative_paid ← query (λ t. paid_on r.id t.payments)
  settled ← lift (apply_payment r cumulative_paid)
  flush billing_record_repo settled
  pure tt

abbrev pub new_payment : PaymentCreate → Option Text → ℕ → Payment
new_payment payload reference id = record {
  id = id;
  contract_id = payload.contract_id;
  billing_record_id = payload.billing_record_id;
  amount = payload.amount;
  paid_at = payload.paid_at;
  payment_method = payload.payment_method;
  status = payload.status;
  reference_number = reference;
  corrects_payment_id = none;
}

unfoldable pub create_payment : PaymentCreate → User → Action Payment
create_payment payload current_user = do
  prepare_payment_context current_user payload.contract_id
  linked ← linked_record payload.billing_record_id payload.contract_id
  reference ← resolve_reference_number payload.payment_method payload.reference_number
  payment ← create payment_repo (new_payment payload reference)
  write_audit_log current_user AuditAction.create EntityType.payment payment.id
  apply_payment_to_billing_record linked
  commit
  pure payment

-- the loop over `updates.items()` of the repository, with every field of the schema
unfoldable pub set_fields : PaymentUpdate → Payment → Result Payment
set_fields payload p = Patch.◌>>=◌ (required payload.amount p.amount) λ amount.
    Patch.◌>>=◌ (required payload.paid_at p.paid_at) λ paid_at.
      Patch.◌>>=◌ (required payload.status p.status) λ status. ok (record p {
        amount = amount;
        paid_at = paid_at;
        status = status;
        payment_method = nullable payload.payment_method p.payment_method;
        reference_number = nullable payload.reference_number p.reference_number;
      })

-- the reference number is resolved again if it comes with a method
unfoldable pub resolve_update : PaymentUpdate → Action PaymentUpdate
resolve_update payload = elim (payload.payment_method) [
  | value method ↦ elim (payload.reference_number) [
    | value reference ↦ do
      resolved ← resolve_reference_number (some method) (some reference)
      pure (record payload { reference_number = elim resolved [ none ↦ null | some t ↦ value t ] })
    | _ ↦ pure payload
  ]
  | _ ↦ pure payload
]

unfoldable pub update_payment : ℕ → PaymentUpdate → User → Action (Option Payment)
update_payment payment_id payload current_user = do
  payment ← get_payment_or_404 payment_id
  prepare_payment_context current_user payment.contract_id
  raise_if (is_voided payment.status) payment_already_voided
  resolved ← resolve_update payload
  updated ← update payment_repo payment_id (set_fields resolved)
  write_audit_log current_user AuditAction.update EntityType.payment payment_id
  commit
  pure updated

-- The row of a correction. No billing record is named, so the column takes its default.
abbrev pub correction : PaymentCorrection → Payment → Option Text → ℕ → Payment
correction payload original reference id = record {
  id = id;
  contract_id = original.contract_id;
  billing_record_id = none;
  amount = payload.amount;
  paid_at = payload.paid_at;
  payment_method = payload.payment_method;
  status = payload.status;
  reference_number = reference;
  corrects_payment_id = some original.id;
}

unfoldable pub void_and_correct_payment : ℕ → PaymentCorrection → User → Action Payment
void_and_correct_payment payment_id payload current_user = do
  original ← get_payment_or_404 payment_id
  prepare_payment_context current_user original.contract_id
  raise_if (is_voided original.status) payment_already_voided
  reference ← resolve_reference_number payload.payment_method payload.reference_number
  new ← create payment_repo (correction payload original reference)
  update payment_repo original.id (λ p. ok (record p { status = voided }))
  write_audit_log current_user AuditAction.create EntityType.payment new.id
  write_audit_log current_user AuditAction.update EntityType.payment original.id
  commit
  pure new

unfoldable pub delete_payment : ℕ → User → Action (Option Payment)
delete_payment payment_id current_user = do
  payment ← get_payment_or_404 payment_id
  prepare_payment_context current_user payment.contract_id
  deleted ← delete payment_repo payment_id
  write_audit_log current_user AuditAction.delete EntityType.payment payment_id
  commit
  pure deleted

unfoldable pub get_payment : ℕ → User → Action Payment
get_payment payment_id current_user = do
  payment ← get_payment_or_404 payment_id
  authorize_user_to_property payment_forbidden current_user none (some payment.contract_id) none
  pure payment
