-- ===== src/Core/Schema.antt =====
-- The tables of the database, and reading a table by id. Rows stand in order of creation.
pub mod Rows
pub mod Counts
use propnest_api.Base.{ℕ, Option, none, some, List, [], ◌∷◌, ◌==◌, if◌then◌else◌}
use propnest_api.Models.User.{User}
use propnest_api.Models.Property.{Property}
use propnest_api.Models.Tenant.{Tenant}
use propnest_api.Models.Contract.{Contract}
use propnest_api.Models.Lease.{Lease}
use propnest_api.Models.BillingRecord.{BillingRecord}
use propnest_api.Models.Payment.{Payment}
use propnest_api.Models.AuditLog.{AuditLog}
use propnest_api.Models.Collection.{Collection}
use propnest_api.Models.Document.{Document}

pub record Tables : Type 0 where
  pub users : List User
  pub properties : List Property
  pub tenants : List Tenant
  pub contracts : List Contract
  pub leases : List Lease
  pub billing_records : List BillingRecord
  pub payments : List Payment
  pub audit_logs : List AuditLog
  pub collections : List Collection
  pub documents : List Document

-- A type of rows with a primary key.
pub record HasId (A : Type 0) : Type 0 where
  pub id_of : A → ℕ

instance abbrev pub user_key : HasId User
user_key = record { id_of = λ r. r.id }

instance abbrev pub property_key : HasId Property
property_key = record { id_of = λ r. r.id }

instance abbrev pub tenant_key : HasId Tenant
tenant_key = record { id_of = λ r. r.id }

instance abbrev pub contract_key : HasId Contract
contract_key = record { id_of = λ r. r.id }

instance abbrev pub lease_key : HasId Lease
lease_key = record { id_of = λ r. r.id }

instance abbrev pub billing_record_key : HasId BillingRecord
billing_record_key = record { id_of = λ r. r.id }

instance abbrev pub payment_key : HasId Payment
payment_key = record { id_of = λ r. r.id }

instance abbrev pub collection_key : HasId Collection
collection_key = record { id_of = λ r. r.id }

instance abbrev pub document_key : HasId Document
document_key = record { id_of = λ r. r.id }

module _ {A : Type 0} ⦃k : HasId A⦄ where
  -- SELECT … WHERE id = i
  abbrev pub find : ℕ → List A → Option A
  find i [] = none
  find i (r ∷ rs) = if k.id_of r == i then some r else find i rs

  -- UPDATE … WHERE id = (the row's)
  abbrev pub replace : A → List A → List A
  replace n [] = []
  replace n (r ∷ rs) = if k.id_of r == k.id_of n then n ∷ rs else r ∷ replace n rs

  -- DELETE … WHERE id = i
  abbrev pub remove : ℕ → List A → List A
  remove i [] = []
  remove i (r ∷ rs) = if k.id_of r == i then rs else r ∷ remove i rs

  -- the other rows, which a unique constraint compares a row with
  abbrev pub others : ℕ → List A → List A
  others i [] = []
  others i (r ∷ rs) = if k.id_of r == i then others i rs else r ∷ others i rs
