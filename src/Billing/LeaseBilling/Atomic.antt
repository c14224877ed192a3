-- ===== src/Billing/LeaseBilling/Atomic.antt =====
-- `LeaseBillingService` commits last: a method that raises has committed nothing.
use propnest_api.Base.{ℕ, List}
use propnest_api.Core.Session.Atomic.{
  NoCommit, Total, Atomic, total_rules, atomic_rules, Atomic-NoCommit, Atomic-Total,
}
use propnest_api.Core.Access.Atomic.{access_rules}
use propnest_api.Models.User.{User}
use propnest_api.Models.Lease.{Lease}
use propnest_api.Models.BillingRecord.{BillingRecord}
use propnest_api.Billing.LeaseBilling.{
  attach_remaining_balance, attach_one, load_lease, generate_billing_record, load_record,
  save_record, mark_overdue, evaluate_overdue, list_for_lease, get_billing_record,
  write_off_billing_record, LateFeeCorrection, correct_late_fee,
}

NoCommit-attach_one : (r : BillingRecord) → NoCommit (attach_one r)
unfolding attach_one
NoCommit-attach_one r = search access_rules

Total-attach_one : (r : BillingRecord) → Total (attach_one r)
unfolding attach_one
Total-attach_one r = search total_rules

NoCommit-attach_remaining_balance :
    (rs : List BillingRecord) → NoCommit (attach_remaining_balance rs)
unfolding attach_remaining_balance
NoCommit-attach_remaining_balance rs = search access_rules

NoCommit-load_lease : (i : ℕ) (u : User) → NoCommit (load_lease i u)
unfolding load_lease
NoCommit-load_lease i u = search access_rules depth 12

NoCommit-load_record : (i : ℕ) (u : User) → NoCommit (load_record i u)
unfolding load_record
NoCommit-load_record i u = search (access_rules, NoCommit-load_lease) depth 12

ruleset read_rules = (
  access_rules, NoCommit-attach_one, NoCommit-attach_remaining_balance, NoCommit-load_lease,
  NoCommit-load_record,
)

pub Atomic-generate_billing_record : (i : ℕ) (u : User) → Atomic (generate_billing_record i u)
unfolding generate_billing_record
Atomic-generate_billing_record i u =
    search (atomic_rules, read_rules, Atomic-Total, total_rules, Total-attach_one) depth 20

Atomic-save_record : (u : User) (r : BillingRecord) → Atomic (save_record u r)
unfolding save_record
Atomic-save_record u r =
    search (atomic_rules, read_rules, Atomic-Total, total_rules, Total-attach_one) depth 20

Atomic-mark_overdue : (u : User) (l : Lease) (r : BillingRecord) → Atomic (mark_overdue u l r)
unfolding mark_overdue
Atomic-mark_overdue u l r = search (atomic_rules, read_rules, Atomic-save_record) depth 20

pub Atomic-evaluate_overdue : (i : ℕ) (u : User) (d : ℕ) → Atomic (evaluate_overdue i u d)
unfolding evaluate_overdue
Atomic-evaluate_overdue i u d = search (atomic_rules, read_rules, Atomic-mark_overdue) depth 20

pub Atomic-list_for_lease :
    (i : ℕ) (u : User) (skip limit : ℕ) → Atomic (list_for_lease i u skip limit)
unfolding list_for_lease
Atomic-list_for_lease i u skip limit = search (Atomic-NoCommit, read_rules) depth 20

pub Atomic-get_billing_record : (i : ℕ) (u : User) → Atomic (get_billing_record i u)
unfolding get_billing_record
Atomic-get_billing_record i u = search (Atomic-NoCommit, read_rules) depth 20

pub Atomic-write_off_billing_record : (i : ℕ) (u : User) → Atomic (write_off_billing_record i u)
unfolding write_off_billing_record
Atomic-write_off_billing_record i u = search (atomic_rules, read_rules, Atomic-save_record) depth 20

pub Atomic-correct_late_fee :
    (i : ℕ) (c : LateFeeCorrection) (u : User) → Atomic (correct_late_fee i c u)
unfolding correct_late_fee
Atomic-correct_late_fee i c u = search (atomic_rules, read_rules, Atomic-save_record) depth 20
