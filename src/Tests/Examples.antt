-- ===== src/Tests/Examples.antt =====
-- The theorems that have hypotheses, applied to the small store.
use propnest_api.Core.Constraints.TenantTable.{TenantRules-append, TenantRules}
use propnest_api.Tests.{tenant, User, marked, root, ana, guest, january, let_flat, store}
use propnest_api.Base.{
  true, List, ◌≡◌, refl, ◌≤◌, ◌<◌, none, some, [], ◌∷◌, arith, ◌+◌, ◌*◌, ◌%◌, or_default, ◌↔◌, ◌⊎◌,
}
use propnest_api.Core.Error.{ok, contract_active}
use propnest_api.Core.Session.{run}
use propnest_api.Core.Session.Atomic.{ignore}
use propnest_api.Core.Constraints.Consistent.{IsConsistent}
use propnest_api.Models.Contract
use propnest_api.Models.Contract.{Contract, long_term, direct}
use propnest_api.Models.BillingRecord.{BillingRecord, paid, partially_paid}
use propnest_api.Billing.Money.{total_owed, remaining_of, percent_of}
use propnest_api.Billing.Money.Rounding.{percent_of_nearest, percent_of_le, percent_of_zero}
use propnest_api.Billing.Status.{apply_payment}
use propnest_api.Billing.Status.Settlement.{
  Moves, SameCharge, apply_payment_open, apply_payment-apply_payment, apply_payment_accounts,
}
use propnest_api.Billing.Reference.{codes, cash_reference, prefixed}
use propnest_api.Billing.Reference.Serial.{serial, serial-cash_reference}
use propnest_api.Billing.Reference.Prefix.{prefixed-prefixed}
use propnest_api.Billing.Calendar.Schedule.{IsSchedule}
use propnest_api.Billing.LeaseBilling.{generate_billing_record}
use propnest_api.Billing.LeaseBilling.Contiguous.{generate_billing_record-IsSchedule}
use propnest_api.Leasing.Contracts.{ContractCreate}
use propnest_api.Leasing.Contracts.Sync.{Tenancy}
use propnest_api.Leasing.Contracts
use propnest_api.Core.Access
use propnest_api.Core.Access.{
  validate_related_resources, get_tenant, authorize_user_to_property, resolve_property,
}
use propnest_api.Core.Repository.{get_by_id, create}
use propnest_api.Core.Constraints.{tenant_violation, user_violation, contract_violation}
use propnest_api.Core.Session.{◌>>=◌, rethrow}
use propnest_api.Core.Schema.{Tables, lease_key, billing_record_key}
use propnest_api.Core.Schema.{payment_key}
use propnest_api.Core.Constraints.UserTable.{UserRules-append, UserRules}
use propnest_api.Core.Constraints.TenantTable.{TenantRules}
use propnest_api.Api
use propnest_api.Api.{Request, handle, serve, serve_all}
use propnest_api.Api.Atomic.{handle_all_or_nothing}
use propnest_api.Api.Consistency.{serve_all-IsConsistent}
use propnest_api.Api.Refusal.{Refused, is_own_account, serve_plain_user}
use propnest_api.Identity.Users
use propnest_api.Identity.Users.Own.{OwnChange}
use propnest_api.Core.Patch.{absent, value}
use propnest_api.Api.Tenancy.{serve-Tenancy}

abbrev nobody : Tables
nobody = record let_flat { users = [] }

-- the users come in one by one
let_flat-UserRules : UserRules let_flat.users
unfolding user_violation
let_flat-UserRules =
    UserRules-append guest (record nobody { users = root ∷ ana ∷ [] }) refl
      (UserRules-append ana (record nobody { users = root ∷ [] }) refl
        (UserRules-append root nobody refl
          (record { ids = tt; one_username = λ t. omega arith; one_email = λ t. omega arith }) refl)
        refl)
      refl

let_flat-TenantRules : TenantRules let_flat.tenants
unfolding tenant_violation
let_flat-TenantRules =
    TenantRules-append tenant (record let_flat { tenants = [] }) refl
      (record { ids = tt; one_email = λ t. omega arith; one_link = λ i. omega arith }) refl

let_flat-IsConsistent : IsConsistent let_flat
let_flat-IsConsistent = record {
  contracts = record { ids = (refl, tt); one_active = λ pid. ground arith; well_formed = refl };
  records = record {
    ids = (refl, tt);
    one_per_period = λ lid start. ground arith;
    well_formed = refl;
  };
  tenants = let_flat-TenantRules;
  users = let_flat-UserRules;
}

abbrev three_requests : List (User × Request)
three_requests =
    (ana, Api.generate_billing_record 40)
    ∷ (root, Api.delete_user 3)
    ∷ (root, Api.delete_contract 30)
    ∷ []

serve_all-IsConsistent_example : IsConsistent (serve_all marked three_requests store).tables
serve_all-IsConsistent_example =
    serve_all-IsConsistent marked three_requests store let_flat-IsConsistent

let_flat-Tenancy : Tenancy let_flat
let_flat-Tenancy = record {
  contract_ids = (refl, tt);
  property_ids = (refl, tt);
  single = λ pid. ground arith;
  status = λ pid p h. ground arith;
}

serve-Tenancy_example : Tenancy (serve marked ana (Api.delete_contract 30) store).tables
serve-Tenancy_example =
    serve-Tenancy marked ana (Api.delete_contract 30) store refl let_flat-Tenancy

-- a second active contract of the flat
abbrev second : ContractCreate
second = record {
  property_id = 10;
  tenant_id = 20;
  rental_type = long_term;
  start_date = 739100;
  end_date = none;
  rent_amount = 900000;
  deposit = none;
  booking_source = direct;
  status = Contract.active;
}

generate_billing_record-IsSchedule_example :
    IsSchedule (run (ignore (generate_billing_record 40 ana)) store).1.tables.billing_records
generate_billing_record-IsSchedule_example =
    generate_billing_record-IsSchedule 40 ana store (tt, tt)

-- the record of january after a payment of 12,000.00
abbrev settled_january : BillingRecord
settled_january = record january { status = paid; overpaid_amount = some 200000 }

apply_payment_accounts_example :
    1200000 + remaining_of (total_owed settled_january) 1200000
    ≡ total_owed settled_january + or_default settled_january.overpaid_amount 0
unfolding apply_payment
apply_payment_accounts_example =
    apply_payment_accounts january 1200000 {r' = settled_january} refl refl refl

apply_payment_open_example :
    (r' : BillingRecord) × (apply_payment january 300000 ≡ ok r')
    × ((r'.status ≡ paid) ↔ (total_owed january ≤ 300000))
    × ((r'.status ≡ partially_paid) ↔ (300000 < total_owed january))
    × Moves january.status r'.status
    × SameCharge january r'
apply_payment_open_example = apply_payment_open january 300000 refl

apply_payment-apply_payment_example :
    (r' : BillingRecord) × (apply_payment january 300000 ≡ ok r')
    × (apply_payment r' (300000 + 900000) ≡ apply_payment january (300000 + 900000))
apply_payment-apply_payment_example = apply_payment-apply_payment january 300000 900000

percent_of_nearest_example :
    (2 * (1001 * 250) ≤ 2 * (percent_of 1001 250 * 10000) + 10000)
    × (2 * (percent_of 1001 250 * 10000) ≤ 2 * (1001 * 250) + 10000)
    × ((percent_of 1001 250 % 2 ≡ 0)
        ⊎ (2 * (1001 * 250) < 2 * (percent_of 1001 250 * 10000) + 10000)
          × (2 * (percent_of 1001 250 * 10000) < 2 * (1001 * 250) + 10000))
percent_of_nearest_example = percent_of_nearest 1001 250

percent_of_zero_example : (percent_of 50 100 ≡ 0) ↔ (50 * 100 ≤ 5000)
percent_of_zero_example = percent_of_zero 50 100

handle_all_or_nothing_example :
    (run (handle marked ana (Api.create_contract second)) store).1.tables ≡ let_flat
unfolding handle Contracts.create_contract Contracts.prepare_contract_context ignore ◌>>=◌ rethrow
    validate_related_resources Access.get_property Access.get_contract get_tenant get_by_id create
    authorize_user_to_property resolve_property contract_violation
handle_all_or_nothing_example =
    handle_all_or_nothing marked ana (Api.create_contract second) store contract_active refl

-- the guest gives the own account another full name
abbrev renamed : Users.UserUpdate
renamed = record {
  full_name = value "Guest";
  username = absent;
  email = absent;
  password = absent;
  current_password = none;
  role = absent;
  is_active = absent;
  updated_at = 0;
}

serve_plain_user_example :
    Refused guest refl marked (Api.update_user guest.id renamed) store
    ⊎ (is_own_account guest (Api.update_user guest.id renamed) ≡ true)
      × OwnChange guest let_flat
          (serve marked guest (Api.update_user guest.id renamed) store).tables
serve_plain_user_example =
    serve_plain_user guest refl marked (Api.update_user guest.id renamed) store

percent_of_le_example : percent_of 12345 500 ≤ 12345
percent_of_le_example = percent_of_le 12345 500 (omega arith)

serial-cash_reference_example : serial (cash_reference 12345) ≡ 12345
serial-cash_reference_example = serial-cash_reference 12345

prefixed-prefixed_example :
    prefixed none (prefixed none (some (codes "7"))) ≡ prefixed none (some (codes "7"))
prefixed-prefixed_example = prefixed-prefixed none (some (codes "7"))
