-- ===== src/Tests/Runs.antt =====
-- The theorems on calls that succeed, applied to runs on the small store.
use propnest_api.Tests.{root, ana, january, let_flat, store}
use propnest_api.Base.{String, ℕ, true, ◌≡◌, refl, none, some, [], ◌∷◌, ◌+◌}
use propnest_api.Core.Schema.{Tables}
use propnest_api.Core.Session.{begin}
use propnest_api.Models.BillingRecord.{BillingRecord, partially_paid}
use propnest_api.Billing.Money.{percent_of}
use propnest_api.Billing.Status.{apply_payment}
use propnest_api.Billing.Reference.{cash_reference, prefixed}
use propnest_api.Billing.LeaseBilling.{generate_billing_record}
use propnest_api.Core.Access
use propnest_api.Core.Access.{authorize_user_to_property, resolve_property}
use propnest_api.Core.Repository.{get_by_id, create}
use propnest_api.Core.Constraints.{billing_record_violation}
use propnest_api.Core.Session.{◌>>=◌, rethrow}
use propnest_api.Core.Audit.{write_audit_log}
use propnest_api.Models.AuditLog.{AuditAction}
use propnest_api.Models.AuditLog.EntityType
use propnest_api.Billing.LeaseBilling.{load_lease, attach_one}
use propnest_api.Billing.LeaseBilling.Periods.{IsNextRecord, generate_billing_record-IsNextRecord}
use propnest_api.Billing.Calendar.{latest_for_lease, next_period_start, add_days}
use propnest_api.Base.{◌++◌}
use propnest_api.Core.Session.{Session}
use propnest_api.Core.Schema.{find, lease_key, billing_record_key}
use propnest_api.Core.Repository.{flush}
use propnest_api.Core.Constraints.{payment_violation}
use propnest_api.Models.BillingRecord.{overdue}
use propnest_api.Models.Lease.{Lease}
use propnest_api.Models.Payment.{Payment, PaymentStatus, cash}
use propnest_api.Billing.Status.{transition}
use propnest_api.Billing.LeaseBilling.{
  evaluate_overdue, load_record, mark_overdue, charge_late_fee, save_record,
}
use propnest_api.Billing.LeaseBilling.Overdue.{Evaluated, evaluate_overdue-Evaluated}
use propnest_api.Billing.Payments.{
  PaymentCreate, create_payment, new_payment, prepare_payment_context, linked_record,
  get_billing_record_for_contract, resolve_reference_number, next_cash_reference_number,
  apply_payment_to_billing_record,
}
use propnest_api.Billing.Payments.Settled.{IsPaymentOf, Settles, create_payment-Settles}
use propnest_api.Base.{length}
use propnest_api.Jobs.{generate_each, generate_due_billing_records, get_active}
use propnest_api.Jobs.Growth.{Billed, records, generate_due_billing_records-grows}
use propnest_api.Base.{ℕ, false}
use propnest_api.Core.Schema.{replace, payment_key}
use propnest_api.Core.Repository.{update}
use propnest_api.Models.AuditLog.{AuditLog}
use propnest_api.Models.Payment.{is_voided}
use propnest_api.Billing.Payments.{
  PaymentCorrection, correction, get_payment_or_404, void_and_correct_payment,
}
use propnest_api.Billing.Payments.Corrected.{Corrects, void, void_and_correct_payment-Corrects}

abbrev february : BillingRecord
february = record january {
  id = 100;
  period_start = 739031;
  period_end = 739061;
  due_date = 739036;
}

abbrev next_month : Tables
next_month = record let_flat {
  billing_records = january ∷ february ∷ [];
  audit_logs =
      record {
        actor_id = some 2;
        action = AuditAction.create;
        entity_type = EntityType.billing_record;
        entity_id = 100;
      }
      ∷ [];
}

generate_billing_record-IsNextRecord_example :
    IsNextRecord 40 let_flat february
    × (next_month.billing_records ≡ let_flat.billing_records ++ february ∷ [])
unfolding generate_billing_record load_lease attach_one ◌>>=◌ rethrow get_by_id create
    authorize_user_to_property resolve_property billing_record_violation latest_for_lease
    next_period_start add_days write_audit_log Access.get_property Access.get_contract
generate_billing_record-IsNextRecord_example =
    generate_billing_record-IsNextRecord 40 ana (begin store)
      {b = record { billing_record = february; remaining_balance = 1000000 }}
      {s' = record { committed = next_month; working = next_month; next_id = 101; cash_seq = 41 }}
      refl

abbrev late_january : BillingRecord
late_january = record january {
  status = overdue;
  late_fee_applied = true;
  late_fee_amount_charged = some 50000;
}

-- after an action of ana on a row, with the tables `t` otherwise
abbrev logged : AuditAction → String → ℕ → Tables → Tables
logged action type i t = record t {
  audit_logs =
      record { actor_id = some 2; action = action; entity_type = type; entity_id = i } ∷ [];
}

abbrev after_january : Tables
after_january =
    logged AuditAction.update EntityType.billing_record 50
      (record let_flat { billing_records = late_january ∷ [] })

abbrev evaluated : Session
evaluated = record {
  committed = after_january;
  working = after_january;
  next_id = 100;
  cash_seq = 41;
}

evaluate_overdue-Evaluated_example :
    (r : BillingRecord) × (l : Lease) × (find 50 let_flat.billing_records ≡ some r)
    × (find r.lease_id let_flat.leases ≡ some l)
    × Evaluated 739009 l r (begin store) late_january evaluated
unfolding evaluate_overdue load_record load_lease attach_one ◌>>=◌ get_by_id flush
    authorize_user_to_property resolve_property billing_record_violation add_days write_audit_log
    Access.get_property Access.get_contract mark_overdue transition charge_late_fee percent_of
    save_record
evaluate_overdue-Evaluated_example =
    evaluate_overdue-Evaluated 50 ana 739009 (begin store)
      {b = record { billing_record = late_january; remaining_balance = 1050000 }} {s' = evaluated}
      refl

-- 3,000.00 in cash for january
abbrev part : PaymentCreate
part = record {
  contract_id = 30;
  billing_record_id = some 50;
  amount = 300000;
  paid_at = 63850000000;
  payment_method = some cash;
  status = PaymentStatus.paid;
  reference_number = none;
}

abbrev part_payment : Payment
part_payment = new_payment part (some (cash_reference 42)) 100

abbrev part_paid : Tables
part_paid = logged AuditAction.create EntityType.payment 100 (record let_flat {
  billing_records = record january { status = partially_paid } ∷ [];
  payments = part_payment ∷ [];
})

create_payment-Settles_example :
    IsPaymentOf part 41 part_payment
    × (part_paid.payments ≡ let_flat.payments ++ part_payment ∷ [])
    × Settles (some 50) part_payment let_flat part_paid
unfolding create_payment prepare_payment_context linked_record get_billing_record_for_contract
    resolve_reference_number next_cash_reference_number apply_payment_to_billing_record ◌>>=◌
    get_by_id flush create authorize_user_to_property resolve_property billing_record_violation
    write_audit_log Access.get_property Access.get_contract apply_payment payment_violation
create_payment-Settles_example =
    create_payment-Settles part ana (begin store) {p = part_payment}
      {s' = record { committed = part_paid; working = part_paid; next_id = 101; cash_seq = 42 }}
      refl

-- it was 4,000.00
abbrev fixed : PaymentCorrection
fixed = record {
  amount = 400000;
  paid_at = 63850000000;
  payment_method = none;
  status = PaymentStatus.paid;
  reference_number = none;
}

abbrev fixed_payment : Payment
fixed_payment = correction fixed part_payment none 101

abbrev entry : AuditAction → ℕ → AuditLog
entry action i = record {
  actor_id = some 2;
  action = action;
  entity_type = EntityType.payment;
  entity_id = i;
}

abbrev after_fix : Tables
after_fix = record part_paid {
  payments = void part_payment ∷ fixed_payment ∷ [];
  audit_logs =
      entry AuditAction.create 100
      ∷ entry AuditAction.create 101
      ∷ entry AuditAction.update 100
      ∷ [];
}

void_and_correct_payment-Corrects_example :
    (old : Payment) × (find 100 part_paid.payments ≡ some old)
    × (is_voided old.status ≡ false)
    × Corrects fixed old fixed_payment
    × (after_fix.payments ≡ replace (void old) (part_paid.payments ++ fixed_payment ∷ []))
    × (after_fix.billing_records ≡ part_paid.billing_records)
unfolding void_and_correct_payment get_payment_or_404 prepare_payment_context
    resolve_reference_number ◌>>=◌ get_by_id create update authorize_user_to_property
    resolve_property write_audit_log Access.get_property Access.get_contract payment_violation
    prefixed flush
void_and_correct_payment-Corrects_example =
    void_and_correct_payment-Corrects 100 fixed ana
      (begin (record { tables = part_paid; next_id = 101; cash_seq = 42 })) {new = fixed_payment}
      {s' = record { committed = after_fix; working = after_fix; next_id = 102; cash_seq = 42 }}
      refl

generate_due_billing_records-grows_example :
    Billed root (get_active let_flat) 1 0 store (generate_due_billing_records root store).1
    × (records (generate_due_billing_records root store).1 ≡ records store + 1)
    × (1 + 0 ≡ length (get_active let_flat))
unfolding generate_due_billing_records generate_each generate_billing_record load_lease attach_one
    ◌>>=◌ rethrow get_by_id create authorize_user_to_property billing_record_violation
    latest_for_lease next_period_start add_days write_audit_log
generate_due_billing_records-grows_example = generate_due_billing_records-grows root store 1 0 refl
