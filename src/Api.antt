-- ===== src/Api.antt =====
-- The calls that the routes make of the modelled services (app/*/routes/*.py), as one type, so that
-- what holds of every request can be stated once. A request runs in a session of its own.
pub mod Atomic
pub mod Refusal
pub mod Tenancy
pub mod Consistency
use propnest_api.Base.{ℕ, List, [], ◌∷◌}
use propnest_api.Core.Session.{Action, Store, run, ◌>>=◌, ◌>>◌}
use propnest_api.Core.Session.Atomic.{ignore}
use propnest_api.Models.User.{User}
use propnest_api.Billing.LeaseBilling
use propnest_api.Billing.LeaseBilling.{LateFeeCorrection}
use propnest_api.Billing.Payments
use propnest_api.Billing.Payments.{PaymentCreate, PaymentUpdate, PaymentCorrection}
use propnest_api.Leasing.Contracts
use propnest_api.Leasing.Contracts.{ContractCreate, ContractUpdate}
use propnest_api.Leasing.Leases
use propnest_api.Leasing.Leases.{LeaseCreate, LeaseUpdate}
use propnest_api.Collections
use propnest_api.Collections.{CollectionCreate, CollectionUpdate}
use propnest_api.Documents.Links
use propnest_api.Documents.Links.{Links}
use propnest_api.Identity.Passwords.{Passwords}
use propnest_api.Identity.Users
use propnest_api.Identity.Users.{UserCreate, UserUpdate}
use propnest_api.Tenants
use propnest_api.Tenants.{TenantCreate, TenantUpdate}
use propnest_api.Properties
use propnest_api.Properties.{PropertyCreate, PropertyUpdate}

-- `evaluate_overdue` comes with the date that the service uses.
pub data Request : Type 0 where
  generate_billing_record : ℕ → Request
  evaluate_overdue : ℕ → ℕ → Request
  write_off_billing_record : ℕ → Request
  correct_late_fee : ℕ → LateFeeCorrection → Request
  create_payment : PaymentCreate → Request
  update_payment : ℕ → PaymentUpdate → Request
  void_and_correct_payment : ℕ → PaymentCorrection → Request
  delete_payment : ℕ → Request
  create_contract : ContractCreate → Request
  update_contract : ℕ → ContractUpdate → Request
  delete_contract : ℕ → Request
  create_lease : LeaseCreate → Request
  update_lease : ℕ → LeaseUpdate → Request
  delete_lease : ℕ → Request
  create_property : PropertyCreate → Request
  update_property : ℕ → PropertyUpdate → Request
  delete_property : ℕ → Request
  assign_manager : ℕ → ℕ → Request
  create_tenant : TenantCreate → Request
  update_tenant : ℕ → TenantUpdate → Request
  delete_tenant : ℕ → Request
  link_user : ℕ → ℕ → Request
  unlink_user : ℕ → Request
  create_user : UserCreate → Request
  update_user : ℕ → UserUpdate → Request
  delete_user : ℕ → Request
  create_collection : CollectionCreate → Request
  update_collection : ℕ → CollectionUpdate → Request
  delete_collection : ℕ → Request
  update_document : ℕ → Links → Request

unfoldable pub handle : Passwords → User → Request → Action (Unit {0})
handle pw u (generate_billing_record i) = ignore (LeaseBilling.generate_billing_record i u)
handle pw u (evaluate_overdue i as_of) = ignore (LeaseBilling.evaluate_overdue i u as_of)
handle pw u (write_off_billing_record i) = ignore (LeaseBilling.write_off_billing_record i u)
handle pw u (correct_late_fee i c) = ignore (LeaseBilling.correct_late_fee i c u)
handle pw u (create_payment p) = ignore (Payments.create_payment p u)
handle pw u (update_payment i p) = ignore (Payments.update_payment i p u)
handle pw u (void_and_correct_payment i p) = ignore (Payments.void_and_correct_payment i p u)
handle pw u (delete_payment i) = ignore (Payments.delete_payment i u)
handle pw u (create_contract p) = ignore (Contracts.create_contract p u)
handle pw u (update_contract i p) = ignore (Contracts.update_contract i p u)
handle pw u (delete_contract i) = ignore (Contracts.delete_contract i u)
handle pw u (create_lease p) = ignore (Leases.create_lease p u)
handle pw u (update_lease i p) = ignore (Leases.update_lease i p u)
handle pw u (delete_lease i) = ignore (Leases.delete_lease i u)
handle pw u (create_property p) = ignore (Properties.create_property p u)
handle pw u (update_property i p) = ignore (Properties.update_property i p u)
handle pw u (delete_property i) = ignore (Properties.delete_property i u)
handle pw u (assign_manager i m) = ignore (Properties.assign_manager i m u)
handle pw u (create_tenant p) = ignore (Tenants.create_tenant p u)
handle pw u (update_tenant i p) = ignore (Tenants.update_tenant i p u)
handle pw u (delete_tenant i) = ignore (Tenants.delete_tenant i u)
handle pw u (link_user i v) = ignore (Tenants.link_user i v u)
handle pw u (unlink_user i) = ignore (Tenants.unlink_user i u)
-- the route depends on `require_admin`
handle pw u (create_user p) = do Users.require_admin u; ignore (Users.create_user pw p u)
handle pw u (update_user i p) = ignore (Users.update_user pw i p u)
handle pw u (delete_user i) = ignore (Users.delete_user i u)
handle pw u (create_collection p) = ignore (Collections.create_collection p u)
handle pw u (update_collection i p) = ignore (Collections.update_collection i p u)
handle pw u (delete_collection i) = ignore (Collections.delete_collection i u)
handle pw u (update_document i l) = ignore (Links.update_document i l u)

-- A request is served in a session of its own.
unfoldable pub serve : Passwords → User → Request → Store → Store
unfolding handle
serve pw u q d = (run (handle pw u q) d).1

-- Requests one after the other, each with its user.
unfoldable pub serve_all : Passwords → List (User × Request) → Store → Store
serve_all pw [] d = d
serve_all pw ((u, q) ∷ rest) d = serve_all pw rest (serve pw u q d)
