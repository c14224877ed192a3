-- ===== src/Tests.antt =====
-- Runs of the definitions on a small store, and the theorems applied to it.
mod Examples
mod Runs
mod Logins
mod Files
use propnest_api.Core.Text.{same_text}
use propnest_api.Identity.Passwords.{Passwords}
use propnest_api.Base.{◌++◌, String, ℕ, ◌≡◌, refl, true, false, none, some, [], ◌∷◌}
use propnest_api.Core.Schema.{Tables}
use propnest_api.Core.Session.{Store}
use propnest_api.Models.User.{User, UserRole, admin, manager, user}
use propnest_api.Models.Property.{Property, occupied}
use propnest_api.Models.Tenant.{Tenant}
use propnest_api.Models.Contract
use propnest_api.Models.Contract.{Contract, long_term, direct}
use propnest_api.Models.Lease
use propnest_api.Models.Lease.{Lease, monthly, auto}
use propnest_api.Models.BillingRecord.{BillingRecord, pending}
use propnest_api.Billing.Reference.{codes, cash_reference, digits_rev, pad4}

abbrev pub account : ℕ → String → UserRole → User
account i name role = record {
  id = i;
  username = codes name;
  email = codes name ++ codes "@example.com";
  full_name = name;
  password_hash = codes "$x";
  password_changed_at = 0;
  role = role;
  is_active = true;
}

abbrev pub root : User
root = account 1 "root" admin

abbrev pub ana : User
ana = account 2 "ana" manager

abbrev pub guest : User
guest = account 3 "guest" user

-- a toy: the hash is the password, marked
abbrev pub marked : Passwords
marked = record { hash = λ p. 36 ∷ p; verify = λ p h. same_text (36 ∷ p) h }

abbrev pub flat : Property
flat = record {
  id = 10;
  name = "Flat";
  address = "1 Main St";
  description = none;
  manager_id = some 2;
  status = occupied;
  is_active = true;
}

abbrev pub tenant : Tenant
tenant = record {
  id = 20;
  full_name = "Ben";
  email = codes "ben@example.com";
  phone_number = "0917";
  current_address = "2 Main St";
  date_of_birth = 720000;
  occupation = none;
  notes = none;
  is_active = true;
  user_id = none;
}

abbrev pub contract : Contract
contract = record {
  id = 30;
  property_id = 10;
  tenant_id = 20;
  rental_type = long_term;
  start_date = 739000;
  end_date = none;
  rent_amount = 1000000;
  deposit = none;
  booking_source = direct;
  status = Contract.active;
}

abbrev pub lease : Lease
lease = record {
  id = 40;
  contract_id = 30;
  monthly_rent = 1000000;
  due_day = 5;
  billing_cycle = monthly;
  security_deposit = none;
  advance_payment = none;
  late_fee_amount = none;
  late_fee_percent = some 500;
  grace_period_days = 3;
  renewal_option = auto;
  status = Lease.active;
  start_date = 739000;
  end_date = none;
}

abbrev pub january : BillingRecord
january = record {
  id = 50;
  lease_id = 40;
  period_start = 739000;
  period_end = 739030;
  due_date = 739005;
  amount_due = 1000000;
  late_fee_applied = false;
  late_fee_amount_charged = none;
  overpaid_amount = none;
  status = pending;
}

abbrev pub let_flat : Tables
let_flat = record {
  users = root ∷ ana ∷ guest ∷ [];
  properties = flat ∷ [];
  tenants = tenant ∷ [];
  contracts = contract ∷ [];
  leases = lease ∷ [];
  billing_records = january ∷ [];
  payments = [];
  audit_logs = [];
  collections = [];
  documents = [];
}

abbrev pub store : Store
store = record { tables = let_flat; next_id = 100; cash_seq = 41 }

-- `CASH-` and four digits, or as many as there are
four_digits : cash_reference 42 ≡ codes "CASH-0042"
unfolding cash_reference digits_rev pad4
four_digits = refl

five_digits : cash_reference 12345 ≡ codes "CASH-12345"
unfolding cash_reference digits_rev pad4
five_digits = refl
