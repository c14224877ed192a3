-- ===== src/Billing/Payments/Consistent.antt =====
-- `PaymentService` keeps the tables consistent.
use propnest_api.Base.{ℕ, Option, none, some}
use propnest_api.Core.Patch.{Patch, absent, null, value}
use propnest_api.Core.Session.Keeps.{Keeps}
use propnest_api.Core.Constraints.Consistent.{IsConsistent}
use propnest_api.Core.Access.Consistent.{shared_rules}
use propnest_api.Models.User.{User}
use propnest_api.Models.BillingRecord.{BillingRecord}
use propnest_api.Models.Payment.{PaymentMethod, cash}
use propnest_api.Billing.Reference.{Text}
use propnest_api.Billing.Payments.{
  PaymentCreate, PaymentUpdate, PaymentCorrection, next_cash_reference_number,
  resolve_reference_number, get_payment_or_404, prepare_payment_context,
  get_billing_record_for_contract, linked_record, apply_payment_to_billing_record, create_payment,
  resolve_update, update_payment, void_and_correct_payment, delete_payment,
}

Keeps-next_cash_reference_number : Keeps IsConsistent next_cash_reference_number
unfolding next_cash_reference_number
Keeps-next_cash_reference_number = record { keeps = λ s h. h }

Keeps-resolve_reference_number :
    (m : Option PaymentMethod) (t : Option Text) → Keeps IsConsistent (resolve_reference_number m t)
unfolding resolve_reference_number
Keeps-resolve_reference_number (some cash) none =
    search (shared_rules, Keeps-next_cash_reference_number)
Keeps-resolve_reference_number none t = search shared_rules
Keeps-resolve_reference_number (some _) t = search shared_rules

Keeps-get_payment_or_404 : (i : ℕ) → Keeps IsConsistent (get_payment_or_404 i)
unfolding get_payment_or_404
Keeps-get_payment_or_404 i = search shared_rules

Keeps-prepare_payment_context :
    (u : User) (i : ℕ) → Keeps IsConsistent (prepare_payment_context u i)
unfolding prepare_payment_context
Keeps-prepare_payment_context u i = search shared_rules depth 8

Keeps-get_billing_record_for_contract :
    (r c : ℕ) → Keeps IsConsistent (get_billing_record_for_contract r c)
unfolding get_billing_record_for_contract
Keeps-get_billing_record_for_contract r c = search shared_rules depth 12

Keeps-linked_record : (r : Option ℕ) (c : ℕ) → Keeps IsConsistent (linked_record r c)
unfolding linked_record
Keeps-linked_record none c = search shared_rules
Keeps-linked_record (some r) c = search (shared_rules, Keeps-get_billing_record_for_contract)

Keeps-apply_payment_to_billing_record :
    (r : Option BillingRecord) → Keeps IsConsistent (apply_payment_to_billing_record r)
unfolding apply_payment_to_billing_record
Keeps-apply_payment_to_billing_record none = search shared_rules
Keeps-apply_payment_to_billing_record (some r) = search shared_rules depth 8

resolve_update-Keeps :
    (p : PaymentUpdate) (m : Patch PaymentMethod) (t : Patch Text)
    → Keeps IsConsistent (resolve_update (record p { payment_method = m; reference_number = t }))
unfolding resolve_update
resolve_update-Keeps p (value m) (value t) = search (shared_rules, Keeps-resolve_reference_number)
resolve_update-Keeps p (value m) absent = search shared_rules
resolve_update-Keeps p (value m) null = search shared_rules
resolve_update-Keeps p absent t = search shared_rules
resolve_update-Keeps p null t = search shared_rules

Keeps-resolve_update : (p : PaymentUpdate) → Keeps IsConsistent (resolve_update p)
Keeps-resolve_update p = resolve_update-Keeps p p.payment_method p.reference_number

ruleset payment_rules = (
  shared_rules, Keeps-resolve_reference_number, Keeps-get_payment_or_404,
  Keeps-prepare_payment_context, Keeps-linked_record, Keeps-apply_payment_to_billing_record,
  Keeps-resolve_update,
)

pub Keeps-create_payment : (p : PaymentCreate) (u : User) → Keeps IsConsistent (create_payment p u)
unfolding create_payment
Keeps-create_payment p u = search payment_rules depth 20

pub Keeps-update_payment :
    (i : ℕ) (p : PaymentUpdate) (u : User) → Keeps IsConsistent (update_payment i p u)
unfolding update_payment
Keeps-update_payment i p u = search payment_rules depth 20

pub Keeps-void_and_correct_payment :
    (i : ℕ) (p : PaymentCorrection) (u : User) → Keeps IsConsistent (void_and_correct_payment i p u)
unfolding void_and_correct_payment
Keeps-void_and_correct_payment i p u = search payment_rules depth 24

pub Keeps-delete_payment : (i : ℕ) (u : User) → Keeps IsConsistent (delete_payment i u)
unfolding delete_payment
Keeps-delete_payment i u = search payment_rules depth 20
