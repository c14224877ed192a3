-- ===== src/Core/Repository.antt =====
-- The generic repository (app/core/repositories/base.py), and the repositories that have a table.
-- `create`, `update` and a flushed change ask the database's constraints, and raise IntegrityError.
pub mod Atomic
pub mod Returns
pub mod Keeps
use propnest_api.Models.Document.{Document}
use propnest_api.Models.Collection.{Collection}
use propnest_api.Models.Tenant.{Tenant}
use propnest_api.Models.User.{User}
use propnest_api.Base.{
  ℕ, ◌+◌, min, Bool, Option, none, some, List, [], ◌∷◌, ◌++◌, filter, count, head?, take, drop,
}
use propnest_api.Core.Error.{integrity, Constraint, Result, ok, err}
use propnest_api.Core.Schema.{
  document_key, collection_key, Tables, HasId, find, replace, remove, user_key, property_key,
  tenant_key, contract_key, lease_key, billing_record_key, payment_key,
}
use propnest_api.Core.Session.{◌>>=◌, Action, pure, query, lift}
use propnest_api.Core.Constraints.{
  document_violation, collection_violation, tenant_violation, user_violation, property_violation,
  contract_violation, lease_violation, billing_record_violation, payment_violation,
}
use propnest_api.Core.References.{
  property_referenced, contract_referenced, lease_referenced, payment_referenced, tenant_referenced,
  user_referenced, unlink_user, unlink_collection,
}
use propnest_api.Models.Property.{Property}
use propnest_api.Models.Contract.{Contract}
use propnest_api.Models.Lease.{Lease}
use propnest_api.Models.BillingRecord.{BillingRecord}
use propnest_api.Models.Payment.{Payment}

-- A mapped class: where its rows stand, the constraints on them, and their deletion.
pub record Repo (A : Type 0) : Type 0 where
  pub key : HasId A
  pub rows : Tables → List A
  pub with_rows : Tables → List A → Tables
  pub violation : A → Tables → Option Constraint
  pub referenced : ℕ → Tables → Option Constraint
  -- what happens to the rows that point to a deleted one, where the deletion is not refused
  pub unlink : ℕ → Tables → Tables

module _ {A : Type 0} (repo : Repo A) where
  -- `_all(*criteria)`
  unfoldable pub all : (A → Bool) → Action (List A)
  all p = query (λ t. filter p (repo.rows t))

  -- `_first(*criteria)`
  unfoldable pub first : (A → Bool) → Action (Option A)
  first p = query (λ t. head? (filter p (repo.rows t)))

  -- `_count(*criteria)`
  unfoldable pub count_rows : (A → Bool) → Action ℕ
  count_rows p = query (λ t. count p (repo.rows t))

  -- `get_all(skip, limit)`: negative values do not occur, and a page has at most 100 rows
  pub get_all : ℕ → ℕ → Action (List A)
  get_all skip limit = query (λ t. take (min limit 100) (drop skip (repo.rows t)))

  unfoldable pub get_by_id : ℕ → Action (Option A)
  get_by_id i = query (λ t. find ⦃k = repo.key⦄ i (repo.rows t))

  -- the primary key, and then the other constraints
  abbrev insert_violation : A → Tables → Option Constraint
  insert_violation r t = elim (find ⦃k = repo.key⦄ (repo.key.id_of r) (repo.rows t)) [
    | some old ↦ some Constraint.primary_key
    | none ↦ repo.violation r t
  ]

  -- the INSERT of a flush
  insert : A → Option Constraint → Action A
  insert r (some c) s = (err (integrity c), s)
  insert r none s =
      (ok r, record s { working = repo.with_rows s.working (repo.rows s.working ++ r ∷ []) })

  -- `create(payload)`; the payload makes a row of its generated id
  unfoldable pub create : (ℕ → A) → Action A
  unfolding insert
  create make s =
      let r = make s.next_id in
      insert r (insert_violation r s.working) (record s { next_id = s.next_id + 1 })

  -- the UPDATE of a flush
  write : A → Option Constraint → Action A
  write r (some c) s = (err (integrity c), s)
  write r none s = (
    ok r,
    record s {
      working = repo.with_rows s.working (replace ⦃k = repo.key⦄ r (repo.rows s.working));
    },
  )

  -- `db.flush()` after the fields of a loaded row were set
  unfoldable pub flush : A → Action A
  unfolding write
  flush r s = write r (repo.violation r s.working) s

  -- the loop over `updates.items()`, if there is a row
  assign : (A → Result A) → Option A → Action (Option A)
  assign change none = pure none
  assign change (some r) = do r' ← lift (change r); r'' ← flush r'; pure (some r'')

  -- `update(id, payload)`
  unfoldable pub update : ℕ → (A → Result A) → Action (Option A)
  unfolding assign
  update i change = do found ← get_by_id i; assign change found

  -- the DELETE of a flush
  erase : A → Option Constraint → Action (Option A)
  erase r (some c) s = (err (integrity c), s)
  erase r none s = (
    ok (some r),
    record s {
      working = repo.unlink (repo.key.id_of r) (
          repo.with_rows s.working
            (remove ⦃k = repo.key⦄ (repo.key.id_of r) (repo.rows s.working)));
    },
  )

  discard : Option A → Action (Option A)
  unfolding erase
  discard none s = (ok none, s)
  discard (some r) s = erase r (repo.referenced (repo.key.id_of r) s.working) s

  -- `delete(id)`
  unfoldable pub delete : ℕ → Action (Option A)
  unfolding discard
  delete i = do found ← get_by_id i; discard found

abbrev pub property_repo : Repo Property
property_repo = record {
  key = property_key;
  rows = λ t. t.properties;
  with_rows = λ t rs. record t { properties = rs };
  violation = property_violation;
  referenced = property_referenced;
  unlink = λ i t. t;
}

abbrev pub contract_repo : Repo Contract
contract_repo = record {
  key = contract_key;
  rows = λ t. t.contracts;
  with_rows = λ t rs. record t { contracts = rs };
  violation = contract_violation;
  referenced = contract_referenced;
  unlink = λ i t. t;
}

abbrev pub lease_repo : Repo Lease
lease_repo = record {
  key = lease_key;
  rows = λ t. t.leases;
  with_rows = λ t rs. record t { leases = rs };
  violation = lease_violation;
  referenced = lease_referenced;
  unlink = λ i t. t;
}

-- No service deletes a billing record.
abbrev pub billing_record_repo : Repo BillingRecord
billing_record_repo = record {
  key = billing_record_key;
  rows = λ t. t.billing_records;
  with_rows = λ t rs. record t { billing_records = rs };
  violation = billing_record_violation;
  referenced = λ i t. none;
  unlink = λ i t. t;
}

abbrev pub payment_repo : Repo Payment
payment_repo = record {
  key = payment_key;
  rows = λ t. t.payments;
  with_rows = λ t rs. record t { payments = rs };
  violation = payment_violation;
  referenced = payment_referenced;
  unlink = λ i t. t;
}

abbrev pub user_repo : Repo User
user_repo = record {
  key = user_key;
  rows = λ t. t.users;
  with_rows = λ t rs. record t { users = rs };
  violation = user_violation;
  referenced = user_referenced;
  unlink = unlink_user;
}

abbrev pub tenant_repo : Repo Tenant
tenant_repo = record {
  key = tenant_key;
  rows = λ t. t.tenants;
  with_rows = λ t rs. record t { tenants = rs };
  violation = tenant_violation;
  referenced = tenant_referenced;
  unlink = λ i t. t;
}

abbrev pub collection_repo : Repo Collection
collection_repo = record {
  key = collection_key;
  rows = λ t. t.collections;
  with_rows = λ t rs. record t { collections = rs };
  violation = collection_violation;
  referenced = λ i t. none;
  unlink = unlink_collection;
}

-- Receipts, which would hold a document back, have no table here.
abbrev pub document_repo : Repo Document
document_repo = record {
  key = document_key;
  rows = λ t. t.documents;
  with_rows = λ t rs. record t { documents = rs };
  violation = document_violation;
  referenced = λ i t. none;
  unlink = λ i t. t;
}
