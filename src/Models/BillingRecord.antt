-- ===== src/Models/BillingRecord.antt =====
-- One charge of a lease for one billing period (app/billing/models/billing_record.py).
use propnest_api.Base.{ℕ, Bool, true, false, Option}

pub data BillingRecordStatus : Type 0 where
  pending partially_paid paid overdue written_off : BillingRecordStatus

pub record BillingRecord : Type 0 where
  pub id : ℕ
  pub lease_id : ℕ
  pub period_start : ℕ
  pub period_end : ℕ
  pub due_date : ℕ
  pub amount_due : ℕ
  pub late_fee_applied : Bool
  pub late_fee_amount_charged : Option ℕ
  pub overpaid_amount : Option ℕ
  pub status : BillingRecordStatus

abbrev pub same_status : BillingRecordStatus → BillingRecordStatus → Bool
same_status pending pending = true
same_status partially_paid partially_paid = true
same_status paid paid = true
same_status overdue overdue = true
same_status written_off written_off = true
same_status _ _ = false

-- `status in UNPAID_STATUSES`
abbrev pub is_unpaid : BillingRecordStatus → Bool
is_unpaid pending = true
is_unpaid partially_paid = true
is_unpaid overdue = true
is_unpaid _ = false

-- `status in (paid, written_off)`
abbrev pub is_terminal : BillingRecordStatus → Bool
is_terminal paid = true
is_terminal written_off = true
is_terminal _ = false
