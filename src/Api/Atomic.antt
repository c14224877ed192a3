-- ===== src/Api/Atomic.antt =====
-- Every request is atomic.
use propnest_api.Base.{◌≡◌}
use propnest_api.Core.Error.{Error, err}
use propnest_api.Core.Session.{Store, run}
use propnest_api.Core.Session.Atomic.{Atomic, Atomic-ignore, Atomic-bind, run-Atomic}
use propnest_api.Models.User.{User}
use propnest_api.Billing.LeaseBilling.Atomic.{
  Atomic-generate_billing_record, Atomic-evaluate_overdue, Atomic-write_off_billing_record,
  Atomic-correct_late_fee,
}
use propnest_api.Billing.Payments.Atomic.{
  Atomic-create_payment, Atomic-update_payment, Atomic-void_and_correct_payment,
  Atomic-delete_payment,
}
use propnest_api.Leasing.Contracts.Atomic.{
  Atomic-create_contract, Atomic-update_contract, Atomic-delete_contract,
}
use propnest_api.Leasing.Leases.Atomic.{
  Atomic-create_lease, Atomic-update_lease, Atomic-delete_lease,
}
use propnest_api.Properties.Atomic.{
  Atomic-create_property, Atomic-update_property, Atomic-delete_property, Atomic-assign_manager,
}
use propnest_api.Identity.Passwords.{Passwords}
use propnest_api.Identity.Users.Atomic.{
  NoCommit-require_admin, Atomic-create_user, Atomic-update_user, Atomic-delete_user,
}
use propnest_api.Tenants.Atomic.{
  Atomic-create_tenant, Atomic-update_tenant, Atomic-delete_tenant, Atomic-link_user,
  Atomic-unlink_user,
}
use propnest_api.Collections.Atomic.{
  Atomic-create_collection, Atomic-update_collection, Atomic-delete_collection,
}
use propnest_api.Documents.Links.Atomic.{Atomic-update_document}
use propnest_api.Api.{Request, handle, generate_billing_record}

ruleset service_rules = (
  Atomic-ignore, Atomic-generate_billing_record, Atomic-evaluate_overdue,
  Atomic-write_off_billing_record, Atomic-correct_late_fee, Atomic-create_payment,
  Atomic-update_payment, Atomic-void_and_correct_payment, Atomic-delete_payment,
  Atomic-create_contract, Atomic-update_contract, Atomic-delete_contract, Atomic-create_lease,
  Atomic-update_lease, Atomic-delete_lease, Atomic-create_property, Atomic-update_property,
  Atomic-delete_property, Atomic-assign_manager, Atomic-create_tenant, Atomic-update_tenant,
  Atomic-delete_tenant, Atomic-link_user, Atomic-unlink_user, Atomic-bind, NoCommit-require_admin,
  Atomic-create_user, Atomic-update_user, Atomic-delete_user, Atomic-create_collection,
  Atomic-update_collection, Atomic-delete_collection, Atomic-update_document,
)

pub handle-Atomic : (pw : Passwords) (u : User) (q : Request) → Atomic (handle pw u q)
unfolding handle
handle-Atomic pw u (generate_billing_record i) = search service_rules
handle-Atomic pw u _ = search service_rules

-- A request that raises, whatever it is and wherever it raises, leaves every table as it was.
pub handle_all_or_nothing :
    (pw : Passwords) (u : User) (q : Request) (d : Store) (e : Error)
    → (run (handle pw u q) d).0 ≡ err e
    → (run (handle pw u q) d).1.tables ≡ d.tables
handle_all_or_nothing pw u q d e h = run-Atomic (handle pw u q) d e (handle-Atomic pw u q) h
