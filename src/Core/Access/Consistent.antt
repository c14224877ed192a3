-- ===== src/Core/Access/Consistent.antt =====
-- What every service shares keeps the tables consistent.
use propnest_api.Base.{String, ℕ, Option}
use propnest_api.Core.Error.{Error}
use propnest_api.Core.Session.Keeps.{Keeps, Keeps-Reads, keeps_rules}
use propnest_api.Core.Repository.Keeps.{
  Keeps-get_by_id, Keeps-create, Keeps-flush, Keeps-update, Keeps-delete, Keeps-first,
}
use propnest_api.Core.Constraints.Consistent.{
  IsConsistent, Admits-contract, Admits-billing_record, Admits-property, Admits-lease,
  Admits-payment, Admits-tenant, Admits-user, Admits-collection, Admits-document,
}
use propnest_api.Core.Audit.{write_audit_log}
use propnest_api.Core.Access.{authorize_user_to_property, validate_related_resources, get_contract}
use propnest_api.Core.Access.Reads.{
  Reads-authorize_user_to_property, Reads-validate_related_resources, Reads-get_contract,
}
use propnest_api.Models.User.{User}
use propnest_api.Models.AuditLog.{AuditAction}

pub audit-Keeps :
    (u : User) (a : AuditAction) (e : String) (i : ℕ) → Keeps IsConsistent (write_audit_log u a e i)
unfolding write_audit_log
audit-Keeps u a e i = record {
  keeps = λ s (w, c). (
    record { contracts = w.contracts; records = w.records; tenants = w.tenants; users = w.users },
    c,
  );
}

pub authorize-Keeps :
    (e : Error) (u : User) (p c : Option ℕ) (given : Option _)
    → Keeps IsConsistent (authorize_user_to_property e u p c given)
authorize-Keeps e u p c given =
    Keeps-Reads IsConsistent _ (Reads-authorize_user_to_property e u p c given)

pub validate-Keeps : (p c t : Option ℕ) → Keeps IsConsistent (validate_related_resources p c t)
validate-Keeps p c t = Keeps-Reads IsConsistent _ (Reads-validate_related_resources p c t)

pub contract-Keeps : (i : ℕ) → Keeps IsConsistent (get_contract i)
contract-Keeps i = Keeps-Reads IsConsistent _ (Reads-get_contract i)

pub ruleset shared_rules = (
  keeps_rules, audit-Keeps, authorize-Keeps, validate-Keeps, contract-Keeps, Keeps-get_by_id,
  Keeps-create, Keeps-flush, Keeps-update, Keeps-delete, Admits-contract, Admits-billing_record,
  Admits-property, Admits-lease, Admits-payment, Admits-tenant, Admits-user, Admits-collection,
  Admits-document, Keeps-first,
)
