-- ===== src/Billing/Payments/Atomic.antt =====
-- `PaymentService` commits last: a method that raises has committed nothing.
use propnest_api.Base.{ℕ, Option, none, some, refl}
use propnest_api.Core.Patch.{Patch, absent, null, value}
use propnest_api.Core.Session.Atomic.{NoCommit, Atomic, total_rules, Atomic-Total, atomic_rules}
use propnest_api.Core.Access.Atomic.{access_rules}
use propnest_api.Models.User.{User}
use propnest_api.Models.BillingRecord.{BillingRecord}
use propnest_api.Models.Payment.{PaymentMethod, cash}
use propnest_api.Billing.Reference.{Text}
use propnest_api.Billing.Payments.{
  PaymentCreate, PaymentUpdate, PaymentCorrection, next_cash_reference_number,
  resolve_reference_number, get_payment_or_404, prepare_payment_context,
  get_billing_record_for_contract, linked_record, apply_payment_to_billing_record, create_payment,
  resolve_update, update_payment, void_and_correct_payment, delete_payment, get_payment,
}

NoCommit-next_cash_reference_number : NoCommit next_cash_reference_number
unfolding next_cash_reference_number
NoCommit-next_cash_reference_number = record { keeps = λ s. refl }

NoCommit-resolve_reference_number :
    (m : Option PaymentMethod) (t : Option Text) → NoCommit (resolve_reference_number m t)
unfolding resolve_reference_number
NoCommit-resolve_reference_number (some cash) none =
    search (access_rules, NoCommit-next_cash_reference_number)
NoCommit-resolve_reference_number none t = search access_rules
NoCommit-resolve_reference_number (some _) t = search access_rules

NoCommit-get_payment_or_404 : (i : ℕ) → NoCommit (get_payment_or_404 i)
unfolding get_payment_or_404
NoCommit-get_payment_or_404 i = search access_rules

NoCommit-prepare_payment_context : (u : User) (i : ℕ) → NoCommit (prepare_payment_context u i)
unfolding prepare_payment_context
NoCommit-prepare_payment_context u i = search access_rules depth 8

NoCommit-get_billing_record_for_contract :
    (r c : ℕ) → NoCommit (get_billing_record_for_contract r c)
unfolding get_billing_record_for_contract
NoCommit-get_billing_record_for_contract r c = search access_rules depth 12

NoCommit-linked_record : (r : Option ℕ) (c : ℕ) → NoCommit (linked_record r c)
unfolding linked_record
NoCommit-linked_record none c = search access_rules
NoCommit-linked_record (some r) c = search (access_rules, NoCommit-get_billing_record_for_contract)

NoCommit-apply_payment_to_billing_record :
    (r : Option BillingRecord) → NoCommit (apply_payment_to_billing_record r)
unfolding apply_payment_to_billing_record
NoCommit-apply_payment_to_billing_record none = search access_rules
NoCommit-apply_payment_to_billing_record (some r) = search access_rules depth 8

resolve_update_keeps :
    (p : PaymentUpdate) (m : Patch PaymentMethod) (t : Patch Text)
    → NoCommit (resolve_update (record p { payment_method = m; reference_number = t }))
unfolding resolve_update
resolve_update_keeps p (value m) (value t) =
    search (access_rules, NoCommit-resolve_reference_number)
resolve_update_keeps p (value m) absent = search access_rules
resolve_update_keeps p (value m) null = search access_rules
resolve_update_keeps p absent t = search access_rules
resolve_update_keeps p null t = search access_rules

NoCommit-resolve_update : (p : PaymentUpdate) → NoCommit (resolve_update p)
NoCommit-resolve_update p = resolve_update_keeps p p.payment_method p.reference_number

ruleset payment_rules = (
  atomic_rules, access_rules, Atomic-Total, total_rules, NoCommit-resolve_reference_number,
  NoCommit-get_payment_or_404, NoCommit-prepare_payment_context, NoCommit-linked_record,
  NoCommit-apply_payment_to_billing_record, NoCommit-resolve_update,
)

pub Atomic-create_payment : (p : PaymentCreate) (u : User) → Atomic (create_payment p u)
unfolding create_payment
Atomic-create_payment p u = search payment_rules depth 20

pub Atomic-update_payment : (i : ℕ) (p : PaymentUpdate) (u : User) → Atomic (update_payment i p u)
unfolding update_payment
Atomic-update_payment i p u = search payment_rules depth 20

pub Atomic-void_and_correct_payment :
    (i : ℕ) (p : PaymentCorrection) (u : User) → Atomic (void_and_correct_payment i p u)
unfolding void_and_correct_payment
Atomic-void_and_correct_payment i p u = search payment_rules depth 24

pub Atomic-delete_payment : (i : ℕ) (u : User) → Atomic (delete_payment i u)
unfolding delete_payment
Atomic-delete_payment i u = search payment_rules depth 20

pub Atomic-get_payment : (i : ℕ) (u : User) → Atomic (get_payment i u)
unfolding get_payment
Atomic-get_payment i u = search payment_rules depth 20
