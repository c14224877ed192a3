-- ===== src/Api/Consistency.antt =====
-- Whatever is asked, in whatever order, the tables stay consistent.
pub mod Steps
pub mod People
use propnest_api.Base.{List, [], ◌∷◌}
use propnest_api.Core.Session.{Store, begin}
use propnest_api.Core.Session.Keeps.{Keeps, Keeps-ignore}
use propnest_api.Core.Constraints.Consistent.{IsConsistent}
use propnest_api.Core.Access.Consistent.{shared_rules}
use propnest_api.Models.User.{User}
use propnest_api.Billing.LeaseBilling
use propnest_api.Billing.Payments.Consistent.{
  Keeps-create_payment, Keeps-update_payment, Keeps-void_and_correct_payment, Keeps-delete_payment,
}
use propnest_api.Leasing.Contracts
use propnest_api.Leasing.Leases
use propnest_api.Properties
use propnest_api.Collections
use propnest_api.Documents.Links
use propnest_api.Tenants
use propnest_api.Identity.Passwords.{Passwords}
use propnest_api.Identity.Users
use propnest_api.Api.{Request, handle, serve, serve_all, generate_billing_record}
use propnest_api.Api.Consistency.Steps.{
  Keeps-load_lease, Keeps-load_record, Keeps-attach_one, Keeps-save_record, Keeps-mark_overdue,
  Keeps-sync_property_status, Keeps-get_contract, Keeps-prepare_contract_context, Keeps-get_lease,
  Keeps-prepare_lease_context, Keeps-get_property, Keeps-require_admin,
}
use propnest_api.Api.Consistency.People.{
  Keeps-prepare_document_context, Keeps-get_document, Keeps-user_admin,
  Keeps-authorize_self_or_admin, Keeps-user_email, Keeps-check_username, Keeps-reauthenticate,
  Keeps-get_tenant, Keeps-tenant_email, Keeps-prepare_collection_context, Keeps-get_collection,
  Keeps-check_update,
}

ruleset request_rules = (
  shared_rules, Keeps-ignore, Keeps-load_lease, Keeps-load_record, Keeps-attach_one,
  Keeps-save_record, Keeps-mark_overdue, Keeps-sync_property_status, Keeps-get_contract,
  Keeps-prepare_contract_context, Keeps-get_lease, Keeps-prepare_lease_context, Keeps-get_property,
  Keeps-require_admin, Keeps-create_payment, Keeps-update_payment, Keeps-void_and_correct_payment,
  Keeps-delete_payment, Keeps-user_admin, Keeps-authorize_self_or_admin, Keeps-user_email,
  Keeps-check_username, Keeps-reauthenticate, Keeps-get_tenant, Keeps-tenant_email,
  Keeps-prepare_collection_context, Keeps-get_collection, Keeps-check_update,
  Keeps-prepare_document_context, Keeps-get_document,
)

handle-Keeps : (pw : Passwords) (u : User) (q : Request) → Keeps IsConsistent (handle pw u q)
unfolding handle LeaseBilling.generate_billing_record LeaseBilling.evaluate_overdue
    LeaseBilling.write_off_billing_record LeaseBilling.correct_late_fee Contracts.create_contract
    Contracts.update_contract Contracts.delete_contract Leases.create_lease Leases.update_lease
    Leases.delete_lease Properties.create_property Properties.update_property
    Properties.delete_property Properties.assign_manager Tenants.create_tenant Tenants.update_tenant
    Tenants.delete_tenant Tenants.link_user Tenants.unlink_user Users.create_user Users.update_user
    Users.delete_user Collections.create_collection Collections.update_collection
    Collections.delete_collection Links.update_document
handle-Keeps pw u (generate_billing_record i) = search request_rules depth 24
handle-Keeps pw u _ = search request_rules depth 24

serve-IsConsistent :
    (pw : Passwords) (u : User) (q : Request) (d : Store)
    → IsConsistent d.tables
    → IsConsistent (serve pw u q d).tables
unfolding serve
serve-IsConsistent pw u q d h = ((handle-Keeps pw u q).keeps (begin d) (h, h)).1

-- Start from consistent tables: contracts, billing records, tenants and users have distinct ids, no
-- property has two active contracts, no lease has two billing records of one period start, every
-- contract and every billing record passes its CHECKs, no two tenants have one email or one user
-- account, and no two users have one username or one email. After any requests of any users, one
-- after the other, each in a session of its own and each free to fail, the tables are consistent
-- again.
pub serve_all-IsConsistent :
    (pw : Passwords) (requests : List (User × Request)) (d : Store)
    → IsConsistent d.tables
    → IsConsistent (serve_all pw requests d).tables
unfolding serve_all
serve_all-IsConsistent pw [] d h = h
serve_all-IsConsistent pw ((u, q) ∷ rest) d h =
    serve_all-IsConsistent pw rest (serve pw u q d) (serve-IsConsistent pw u q d h)
