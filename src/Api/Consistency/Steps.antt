-- ===== src/Api/Consistency/Steps.antt =====
-- The steps of the services of contracts, leases, properties and billing keep the tables consistent.
use propnest_api.Base.{ℕ, Option, none, some}
use propnest_api.Core.Session.Keeps.{Keeps}
use propnest_api.Core.Constraints.Consistent.{IsConsistent}
use propnest_api.Core.Access.Consistent.{shared_rules}
use propnest_api.Models.User.{User}
use propnest_api.Models.BillingRecord.{BillingRecord}
use propnest_api.Models.Lease.{Lease}
use propnest_api.Models.Property.{PropertyStatus}
use propnest_api.Billing.LeaseBilling
use propnest_api.Leasing.Contracts
use propnest_api.Leasing.Leases
use propnest_api.Properties

pub Keeps-load_lease : (i : ℕ) (u : User) → Keeps IsConsistent (LeaseBilling.load_lease i u)
unfolding LeaseBilling.load_lease
Keeps-load_lease i u = search shared_rules depth 10

pub Keeps-load_record : (i : ℕ) (u : User) → Keeps IsConsistent (LeaseBilling.load_record i u)
unfolding LeaseBilling.load_record
Keeps-load_record i u = search (shared_rules, Keeps-load_lease) depth 10

pub Keeps-attach_one : (r : BillingRecord) → Keeps IsConsistent (LeaseBilling.attach_one r)
unfolding LeaseBilling.attach_one
Keeps-attach_one r = search shared_rules

pub Keeps-save_record :
    (u : User) (r : BillingRecord) → Keeps IsConsistent (LeaseBilling.save_record u r)
unfolding LeaseBilling.save_record
Keeps-save_record u r = search (shared_rules, Keeps-attach_one) depth 12

pub Keeps-mark_overdue :
    (u : User) (l : Lease) (r : BillingRecord)
    → Keeps IsConsistent (LeaseBilling.mark_overdue u l r)
unfolding LeaseBilling.mark_overdue
Keeps-mark_overdue u l r = search (shared_rules, Keeps-save_record) depth 12

pub Keeps-sync_property_status :
    (i : ℕ) (s : Option PropertyStatus) → Keeps IsConsistent (Contracts.sync_property_status i s)
unfolding Contracts.sync_property_status
Keeps-sync_property_status i none = search shared_rules
Keeps-sync_property_status i (some s) = search shared_rules depth 8

pub Keeps-get_contract : (i : ℕ) (u : User) → Keeps IsConsistent (Contracts.get_contract i u)
unfolding Contracts.get_contract
Keeps-get_contract i u = search shared_rules depth 10

pub Keeps-prepare_contract_context :
    (u : User) (p t : ℕ) → Keeps IsConsistent (Contracts.prepare_contract_context u p t)
unfolding Contracts.prepare_contract_context
Keeps-prepare_contract_context u p t = search shared_rules depth 10

pub Keeps-get_lease : (i : ℕ) (u : User) → Keeps IsConsistent (Leases.get_lease i u)
unfolding Leases.get_lease
Keeps-get_lease i u = search shared_rules depth 10

pub Keeps-prepare_lease_context :
    (u : User) (i : ℕ) → Keeps IsConsistent (Leases.prepare_lease_context u i)
unfolding Leases.prepare_lease_context
Keeps-prepare_lease_context u i = search shared_rules depth 10

pub Keeps-get_property : (i : ℕ) (u : User) → Keeps IsConsistent (Properties.get_property i u)
unfolding Properties.get_property
Keeps-get_property i u = search shared_rules depth 10

pub Keeps-require_admin : (u : User) → Keeps IsConsistent (Properties.require_admin u)
unfolding Properties.require_admin
Keeps-require_admin u = search shared_rules
