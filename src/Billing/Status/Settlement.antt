-- ===== src/Billing/Status/Settlement.antt =====
-- What `apply_payment` does to a record, at once and in instalments.
use propnest_api.Base.{
  ◌<◌, ◌+◌, ◌≤◌, none, ◌↔◌, or_default, ℕ, ◌≡◌, ◌⊎◌, if◌then◌else◌, true, false, arith,
}
use propnest_api.Core.Error.{ok}
use propnest_api.Models.BillingRecord.{
  BillingRecord, BillingRecordStatus, partially_paid, paid, is_terminal,
}
use propnest_api.Billing.Money.{total_owed, remaining_of}
use propnest_api.Billing.Status.{is_allowed, target_status, set_overpaid, apply_payment}

-- A step of the state machine, or none.
abbrev pub Moves : BillingRecordStatus → BillingRecordStatus → Type 0
Moves a b = (a ≡ b) ⊎ (is_allowed a b ≡ true)

-- what the tenant is charged for, which a payment leaves alone
pub record SameCharge (a b : BillingRecord) : Type 0 where
  pub id : a.id ≡ b.id
  pub lease_id : a.lease_id ≡ b.lease_id
  pub period_start : a.period_start ≡ b.period_start
  pub period_end : a.period_end ≡ b.period_end
  pub due_date : a.due_date ≡ b.due_date
  pub owed : total_owed a ≡ total_owed b

-- A payment against an open record never fails: the record becomes paid exactly if the payments
-- cover what it owes, and partially paid exactly if they do not; the change of status, if any, is
-- an allowed transition; and the charge stays as it was.
pub apply_payment_open :
    (r : BillingRecord) (c : ℕ)
    → is_terminal r.status ≡ false
    → (r' : BillingRecord) × (apply_payment r c ≡ ok r')
      × ((r'.status ≡ paid) ↔ (total_owed r ≤ c))
      × ((r'.status ≡ partially_paid) ↔ (c < total_owed r))
      × Moves r.status r'.status
      × SameCharge r r'
unfolding apply_payment
apply_payment_open r c open_record = (
  set_overpaid c (record r { status = target_status (total_owed r) c }),
  ground arith,
  ground arith,
  ground arith,
  ground arith,
  ground arith,
)

-- Settling a record by what was paid first, and later by all that was paid by then, is settling it
-- once by all that was paid: no instalment is lost, and none is refused as a transition.
pub apply_payment-apply_payment :
    (r : BillingRecord) (c more : ℕ)
    → (r' : BillingRecord) × (apply_payment r c ≡ ok r')
      × (apply_payment r' (c + more) ≡ apply_payment r (c + more))
unfolding apply_payment
apply_payment-apply_payment r c more =
    let r' =
      set_overpaid c (
        if is_terminal r.status then r else record r { status = target_status (total_owed r) c }) in
    (r', ground arith, ground arith)

-- Every cent is accounted for: for an open record with no credit, what was paid and what remains
-- are what is owed and what is credited.
pub apply_payment_accounts :
    (r : BillingRecord) (c : ℕ) {r' : BillingRecord}
    → is_terminal r.status ≡ false
    → r.overpaid_amount ≡ none
    → apply_payment r c ≡ ok r'
    → c + remaining_of (total_owed r') c ≡ total_owed r' + or_default r'.overpaid_amount 0
unfolding apply_payment
apply_payment_accounts r c open_record no_credit h = ground arith
