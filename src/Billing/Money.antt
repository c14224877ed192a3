-- ===== src/Billing/Money.antt =====
-- Amounts in cents: what a record owes, what was paid, and percentages of an amount
-- (app/core/services/utils.py, app/billing/repositories/payment.py).
pub mod Rounding
use propnest_api.Base.{
  ℕ, ◌+◌, ◌-◌, ◌*◌, ◌/◌, ◌%◌, Bool, List, [], ◌∷◌, ltb, ◌==◌, is_id, not, ◌&&◌, or_default,
  if◌then◌else◌,
}
use propnest_api.Models.BillingRecord.{BillingRecord}
use propnest_api.Models.Payment.{Payment, is_voided}

-- `amount_due + (late_fee_amount_charged or 0)`
abbrev pub total_owed : BillingRecord → ℕ
total_owed r = r.amount_due + or_default r.late_fee_amount_charged 0

-- a payment linked to the record that is not voided
abbrev pub counts_for : ℕ → Payment → Bool
counts_for rid p = is_id p.billing_record_id rid && not (is_voided p.status)

-- the entry of `sum_by_billing_record_ids` for a record, 0 if there is none
abbrev pub paid_on : ℕ → List Payment → ℕ
paid_on rid [] = 0
paid_on rid (p ∷ ps) = (if counts_for rid p then p.amount else 0) + paid_on rid ps

-- `remaining if remaining > 0 else 0`
abbrev pub remaining_of : ℕ → ℕ → ℕ
remaining_of owed cumulative = if ltb cumulative owed then owed - cumulative else 0

-- the numerator over the denominator, rounded half to even: `Decimal.quantize` in the default context
unfoldable pub round_half_even : ℕ → ℕ → ℕ
round_half_even n d =
    let q = n / d in
    let r = n % d in
    if ltb (2 * r) d then q else if ltb d (2 * r) then q + 1 else if q % 2 == 0 then q else q + 1

-- A percentage in hundredths of an amount in cents, to whole cents.
unfoldable pub percent_of : ℕ → ℕ → ℕ
unfolding round_half_even
percent_of amount percent = round_half_even (amount * percent) 10000
