-- ===== src/Core/References.antt =====
-- What the database does when a row that others point to is deleted: the foreign keys of the
-- models.
use propnest_api.Base.{ℕ, Option, none, [], ◌∷◌, not, ◌==◌, is_id, any, if◌then◌else◌}
use propnest_api.Core.Error.{Constraint}
use propnest_api.Core.Schema.{
  Tables, others, user_key, property_key, tenant_key, contract_key, lease_key, billing_record_key,
  payment_key, collection_key,
}
use mathlib.Core.List.{map}
use propnest_api.Models.AuditLog.{AuditLog}
use propnest_api.Models.Tenant.{Tenant}
use propnest_api.Models.Document.{Document}
use propnest_api.Core.Constraints.{first_failed}

-- Foreign keys that refuse the deletion of the row they point to (RESTRICT, or no action given).
unfoldable pub property_referenced : ℕ → Tables → Option Constraint
property_referenced i t = first_failed (
    (not (any (λ c. c.property_id == i) t.contracts), Constraint.fk_contract_property)
    ∷ (not (any (λ c. c.property_id == i) t.collections), Constraint.fk_collection_property)
    ∷ (not (any (λ d. is_id d.property_id i) t.documents), Constraint.fk_document_property)
    ∷ [])

unfoldable pub contract_referenced : ℕ → Tables → Option Constraint
contract_referenced i t = first_failed (
    (not (any (λ l. l.contract_id == i) t.leases), Constraint.fk_lease_contract)
    ∷ (not (any (λ p. p.contract_id == i) t.payments), Constraint.fk_payment_contract)
    ∷ (not (any (λ c. is_id c.contract_id i) t.collections), Constraint.fk_collection_contract)
    ∷ (not (any (λ d. is_id d.contract_id i) t.documents), Constraint.fk_document_contract)
    ∷ [])

unfoldable pub tenant_referenced : ℕ → Tables → Option Constraint
tenant_referenced i t = first_failed (
    (not (any (λ c. c.tenant_id == i) t.contracts), Constraint.fk_contract_tenant)
    ∷ (not (any (λ d. is_id d.tenant_id i) t.documents), Constraint.fk_document_tenant)
    ∷ [])

unfoldable pub user_referenced : ℕ → Tables → Option Constraint
user_referenced i t =
    first_failed
      ((not (any (λ p. is_id p.manager_id i) t.properties), Constraint.fk_property_manager) ∷ [])

-- ON DELETE SET NULL
abbrev pub without : ℕ → Option ℕ → Option ℕ
without i o = if is_id o i then none else o

-- of a user: the tenant keeps its history, and the audit trail its rows
abbrev pub unlink_user : ℕ → Tables → Tables
unlink_user i t = record t {
  tenants = map (λ (n : Tenant). record n { user_id = without i n.user_id }) t.tenants;
  audit_logs = map (λ (a : AuditLog). record a { actor_id = without i a.actor_id }) t.audit_logs;
}

-- of a collection: its documents stay
abbrev pub unlink_collection : ℕ → Tables → Tables
unlink_collection i t = record t {
  documents =
      map (λ (d : Document). record d { collection_id = without i d.collection_id }) t.documents;
}

unfoldable pub lease_referenced : ℕ → Tables → Option Constraint
lease_referenced i t =
    first_failed (
      (not (any (λ r. r.lease_id == i) t.billing_records), Constraint.fk_billing_record_lease) ∷ [])

-- A row that corrects itself does not hold itself back.
unfoldable pub payment_referenced : ℕ → Tables → Option Constraint
payment_referenced i t = first_failed (
    (
      not (any (λ p. is_id p.corrects_payment_id i) (others i t.payments)),
      Constraint.fk_payment_corrects,
    )
    ∷ [])
