-- ===== src/Billing/LeaseBilling.antt =====
-- `LeaseBillingService` (app/billing/services/lease_billing_service.py): generating a record,
-- marking it overdue, writing it off, correcting its late fee, and reading records.
pub mod Atomic
pub mod Periods
pub mod Overdue
pub mod Contiguous
use propnest_api.Base.{
  ℕ, Bool, true, false, Option, none, some, List, not, ltb, leb, ◌==◌, ◌&&◌, take, drop, filter,
  if◌then◌else◌,
}
use mathlib.Core.List.{map}
use propnest_api.Core.Error.{
  Constraint, Error, Result, ok, err, integrity, related_resource_not_found,
  billing_record_forbidden, billing_record_already_generated, billing_record_correction_not_allowed,
  type_error, validation, map_ok,
}
use propnest_api.Core.Schema.{Tables}
use propnest_api.Core.Session.{
  Action, ◌>>=◌, ◌>>◌, pure, raise_if, or_raise, lift, query, commit, rethrow,
}
use propnest_api.Core.Repository.{
  get_by_id, create, flush, count_rows, lease_repo, billing_record_repo,
}
use propnest_api.Core.Audit.{write_audit_log}
use propnest_api.Core.Access.{authorize_user_to_property, Page}
use propnest_api.Models.User.{User}
use propnest_api.Models.AuditLog.{AuditAction}
use propnest_api.Models.AuditLog.EntityType
use propnest_api.Models.Lease.{Lease}
use propnest_api.Models.BillingRecord.{
  BillingRecord, BillingRecordStatus, pending, partially_paid, overdue, written_off, is_terminal,
}
use propnest_api.Billing.Money.{total_owed, paid_on, remaining_of, percent_of}
use propnest_api.Billing.Status.{transition}
use propnest_api.Billing.Calendar.{add_days, cycle_length_days, latest_for_lease, next_period_start}

-- A record with its transient `remaining_balance`.
pub record BilledRecord : Type 0 where
  pub billing_record : BillingRecord
  pub remaining_balance : ℕ

abbrev pub billed : Tables → BillingRecord → BilledRecord
billed t r = record {
  billing_record = r;
  remaining_balance = remaining_of (total_owed r) (paid_on r.id t.payments);
}

-- `attach_remaining_balance(db, records)`, and for one record
unfoldable pub attach_remaining_balance : List BillingRecord → Action (List BilledRecord)
attach_remaining_balance rs = query (λ t. map (billed t) rs)

unfoldable pub attach_one : BillingRecord → Action BilledRecord
attach_one r = query (λ t. billed t r)

-- `_raise_if_already_generated_conflict`, then the bare `raise`
abbrev pub already_generated : Error → Error
already_generated (integrity Constraint.uq_billing_record_lease_id_period_start) =
    billing_record_already_generated
already_generated e = e

-- the lease, if the user may bill it
unfoldable pub load_lease : ℕ → User → Action Lease
load_lease lease_id current_user = do
  found ← get_by_id lease_repo lease_id
  lease ← or_raise related_resource_not_found found
  authorize_user_to_property billing_record_forbidden current_user none (some lease.contract_id)
      none
  pure lease

-- the row that `BillingRecordCreate` makes
abbrev pub new_record : Lease → ℕ → ℕ → ℕ → ℕ → BillingRecord
new_record lease period_start period_end due_date id = record {
  id = id;
  lease_id = lease.id;
  period_start = period_start;
  period_end = period_end;
  due_date = due_date;
  amount_due = lease.monthly_rent;
  late_fee_applied = false;
  late_fee_amount_charged = none;
  overpaid_amount = none;
  status = pending;
}

unfoldable pub generate_billing_record : ℕ → User → Action BilledRecord
generate_billing_record lease_id current_user = do
  lease ← load_lease lease_id current_user
  latest ← query (λ t. latest_for_lease lease_id t.billing_records)
  period_start ← lift (next_period_start lease latest)
  period_end ← lift (add_days period_start (cycle_length_days lease.billing_cycle))
  due_date ← lift (add_days period_start lease.due_day)
  raise_if (not (ltb 0 lease.monthly_rent)) validation
  r ←
      rethrow already_generated
        (create billing_record_repo (new_record lease period_start period_end due_date))
  write_audit_log current_user AuditAction.create EntityType.billing_record r.id
  commit
  attach_one r

-- the record and its lease, if the user may see them: the start of the four methods below
unfoldable pub load_record : ℕ → User → Action (BillingRecord × Lease)
load_record id current_user = do
  found ← get_by_id billing_record_repo id
  r ← or_raise related_resource_not_found found
  lease ← load_lease r.lease_id current_user
  pure (r, lease)

-- the end of the methods that changed a record: flush, audit row, commit
unfoldable pub save_record : User → BillingRecord → Action BilledRecord
save_record current_user r = do
  flush billing_record_repo r
  write_audit_log current_user AuditAction.update EntityType.billing_record r.id
  commit
  attach_one r

unfoldable pub late_fee : Lease → BillingRecord → Result ℕ
late_fee lease r = elim (lease.late_fee_amount) [
  | some fee ↦ ok fee
  | none ↦ elim (lease.late_fee_percent) [
    | some percent ↦ ok (percent_of r.amount_due percent)
    | none ↦ err type_error
  ]
]

-- the fee is charged once
unfoldable pub charge_late_fee : Lease → BillingRecord → Result BillingRecord
unfolding late_fee
charge_late_fee lease r =
    if r.late_fee_applied
    then ok r
    else map_ok (λ fee. record r { late_fee_applied = true; late_fee_amount_charged = some fee })
        (late_fee lease r)

-- `status in (pending, partially_paid)`
abbrev pub can_fall_overdue : BillingRecordStatus → Bool
can_fall_overdue pending = true
can_fall_overdue partially_paid = true
can_fall_overdue _ = false

unfoldable pub mark_overdue : User → Lease → BillingRecord → Action BilledRecord
mark_overdue current_user lease r = do
  moved ← lift (transition r overdue)
  charged ← lift (charge_late_fee lease moved)
  save_record current_user charged

-- `as_of` is the date that the caller gives, or today
unfoldable pub evaluate_overdue : ℕ → User → ℕ → Action BilledRecord
evaluate_overdue id current_user as_of = do
  (r, lease) ← load_record id current_user
  if not (can_fall_overdue r.status) then attach_one r else do
    cutoff ← lift (add_days r.due_date lease.grace_period_days)
    if leb as_of cutoff then attach_one r else mark_overdue current_user lease r

unfoldable pub list_for_lease : ℕ → User → ℕ → ℕ → Action (Page BilledRecord)
list_for_lease lease_id current_user skip limit = do
  load_lease lease_id current_user
  items ←
      query (λ t. take limit (drop skip (filter (λ r. r.lease_id == lease_id) t.billing_records)))
  total ← count_rows billing_record_repo (λ r. r.lease_id == lease_id)
  billed_items ← attach_remaining_balance items
  pure (record { items = billed_items; total = total })

unfoldable pub get_billing_record : ℕ → User → Action BilledRecord
get_billing_record id current_user = do (r, lease) ← load_record id current_user; attach_one r

unfoldable pub write_off_billing_record : ℕ → User → Action BilledRecord
write_off_billing_record id current_user = do
  (r, lease) ← load_record id current_user
  moved ← lift (transition r written_off)
  save_record current_user moved

-- The body of `PATCH /billing-records/{id}/late-fee`.
pub record LateFeeCorrection : Type 0 where
  pub late_fee_applied : Bool
  pub late_fee_amount_charged : Option ℕ

-- `validate_consistency`, and the field's `gt=0`
unfoldable pub validate_correction : LateFeeCorrection → Result LateFeeCorrection
validate_correction c =
    if elim (c.late_fee_amount_charged) [
      | none ↦ not c.late_fee_applied
      | some fee ↦ ltb 0 fee && c.late_fee_applied
    ]
    then ok c
    else err validation

unfoldable pub correct_late_fee : ℕ → LateFeeCorrection → User → Action BilledRecord
correct_late_fee id payload current_user = do
  (r, lease) ← load_record id current_user
  raise_if (is_terminal r.status) billing_record_correction_not_allowed
  save_record current_user (record r {
    late_fee_applied = payload.late_fee_applied;
    late_fee_amount_charged = payload.late_fee_amount_charged;
  })
