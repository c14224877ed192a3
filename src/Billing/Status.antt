-- ===== src/Billing/Status.antt =====
-- The state machine of a billing record: `_VALID_TRANSITIONS`, `_transition` and `apply_payment`
-- (app/billing/services/lease_billing_service.py).
pub mod Settlement
use propnest_api.Base.{ℕ, ◌-◌, Bool, true, false, Option, none, some, ltb, leb, if◌then◌else◌}
use propnest_api.Core.Error.{Result, ok, err, invalid_billing_record_transition, map_ok}
use propnest_api.Models.BillingRecord.{
  BillingRecord, BillingRecordStatus, pending, partially_paid, paid, overdue, written_off,
  same_status, is_terminal,
}
use propnest_api.Billing.Money.{total_owed}

-- `_VALID_TRANSITIONS[old]` contains `new`
abbrev pub is_allowed : BillingRecordStatus → BillingRecordStatus → Bool
is_allowed pending overdue = true
is_allowed pending partially_paid = true
is_allowed pending paid = true
is_allowed partially_paid paid = true
is_allowed partially_paid overdue = true
is_allowed partially_paid written_off = true
is_allowed overdue partially_paid = true
is_allowed overdue paid = true
is_allowed overdue written_off = true
is_allowed _ _ = false

unfoldable pub transition : BillingRecord → BillingRecordStatus → Result BillingRecord
transition r new =
    if is_allowed r.status new
    then ok (record r { status = new })
    else err invalid_billing_record_transition

-- `PAID if cumulative_paid >= total_due else PARTIALLY_PAID`
abbrev pub target_status : ℕ → ℕ → BillingRecordStatus
target_status owed cumulative = if leb owed cumulative then paid else partially_paid

-- the status change of a record that is not terminal
unfoldable pub settle : BillingRecord → ℕ → Result BillingRecord
unfolding transition
settle r cumulative =
    let target = target_status (total_owed r) cumulative in
    if is_terminal r.status
    then ok r
    else if same_status target r.status
    then ok r
    else transition r target

-- `excess if excess > 0 else None`
abbrev pub excess : ℕ → ℕ → Option ℕ
excess owed cumulative = if ltb owed cumulative then some (cumulative - owed) else none

abbrev pub set_overpaid : ℕ → BillingRecord → BillingRecord
set_overpaid cumulative r =
    if same_status r.status paid
    then record r { overpaid_amount = excess (total_owed r) cumulative }
    else r

unfoldable pub apply_payment : BillingRecord → ℕ → Result BillingRecord
unfolding settle
apply_payment r cumulative = map_ok (set_overpaid cumulative) (settle r cumulative)
