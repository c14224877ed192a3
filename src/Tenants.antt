-- ===== src/Tenants.antt =====
-- `TenantService` (app/crm/services/tenant_service.py) and the queries it uses
-- (app/crm/repositories/tenant.py).
pub mod Atomic
use propnest_api.Base.{
  ℕ, String, Bool, false, Option, none, some, not, ◌==◌, ◌&&◌, ◌||◌, is_id, is_some, any,
}
use propnest_api.Core.Text.{Text, normalize, same_text}
use propnest_api.Core.Error.{
  Constraint, Error, Result, ok, integrity, related_resource_not_found, user_not_found,
  tenant_forbidden, tenant_already_exists, tenant_already_linked, tenant_in_use,
}
use propnest_api.Core.Schema.{Tables, find, property_key}
use propnest_api.Core.Session.{
  Action, ◌>>=◌, ◌>>◌, pure, raise, raise_if, or_raise, query, commit, rethrow,
}
use propnest_api.Core.Repository.{first, get_by_id, create, update, delete, tenant_repo, user_repo}
use propnest_api.Core.Patch
use propnest_api.Core.Patch.{Patch, value, not_null, required, nullable}
use propnest_api.Core.Audit.{write_audit_log}
use propnest_api.Models.User.{User, UserRole, admin, manager, user, is_staff}
use propnest_api.Models.AuditLog.{AuditAction}
use propnest_api.Models.AuditLog.EntityType
use propnest_api.Models.Tenant.{Tenant}

-- `TenantCreate`, validated: the email is not empty
pub record TenantCreate : Type 0 where
  pub full_name : String
  pub email : Text
  pub phone_number : String
  pub date_of_birth : ℕ
  pub current_address : String
  pub occupation : Option String
  pub notes : Option String
  pub is_active : Bool

-- `TenantUpdate`, validated
pub record TenantUpdate : Type 0 where
  pub full_name : Patch String
  pub email : Patch Text
  pub phone_number : Patch String
  pub date_of_birth : Patch ℕ
  pub current_address : Patch String
  pub occupation : Patch String
  pub notes : Patch String
  pub is_active : Patch Bool

-- `get_by_email`
abbrev pub has_email : Text → Tenant → Bool
has_email email n = same_text n.email (normalize email)

-- `is_accessible_by_manager`: no contract yet, or one for a property of the manager
abbrev pub is_accessible_by_manager : ℕ → ℕ → Tables → Bool
is_accessible_by_manager tenant_id manager_id t =
    not (any (λ c. c.tenant_id == tenant_id) t.contracts)
    || any
        (λ c. c.tenant_id == tenant_id && elim (find c.property_id t.properties) [
          | none ↦ false
          | some p ↦ is_id p.manager_id manager_id
        ])
        t.contracts

unfoldable pub authorize_role_to_tenant : UserRole → ℕ → ℕ → Action (Unit {0})
authorize_role_to_tenant admin uid tenant_id = pure tt
authorize_role_to_tenant manager uid tenant_id = do
  accessible ← query (is_accessible_by_manager tenant_id uid)
  raise_if (not accessible) tenant_forbidden
authorize_role_to_tenant user uid tenant_id = raise tenant_forbidden

-- `_authorize_user_to_tenant`
unfoldable pub authorize_user_to_tenant : User → ℕ → Action (Unit {0})
authorize_user_to_tenant current_user tenant_id =
    authorize_role_to_tenant current_user.role current_user.id tenant_id

unfoldable pub get_tenant : ℕ → User → Action Tenant
get_tenant id current_user = do
  found ← get_by_id tenant_repo id
  tenant ← or_raise related_resource_not_found found
  authorize_user_to_tenant current_user id
  pure tenant

-- `_raise_conflict`: the driver's message names the column `email`
abbrev pub email_conflict : Error → Error
email_conflict (integrity Constraint.ix_tenants_email) = tenant_already_exists
email_conflict (integrity Constraint.not_null_email) = tenant_already_exists
email_conflict e = e

-- the row of `TenantRepository.create`
abbrev pub new_tenant : TenantCreate → ℕ → Tenant
new_tenant payload id = record {
  id = id;
  full_name = payload.full_name;
  email = normalize payload.email;
  phone_number = payload.phone_number;
  current_address = payload.current_address;
  date_of_birth = payload.date_of_birth;
  occupation = payload.occupation;
  notes = payload.notes;
  is_active = payload.is_active;
  user_id = none;
}

unfoldable pub create_tenant : TenantCreate → User → Action Tenant
create_tenant payload current_user = do
  raise_if (not (is_staff current_user.role)) tenant_forbidden
  existing ← first tenant_repo (has_email payload.email)
  raise_if (is_some existing) tenant_already_exists
  rethrow email_conflict do
    tenant ← create tenant_repo (new_tenant payload)
    write_audit_log current_user AuditAction.create EntityType.tenant tenant.id
    commit
    pure tenant

abbrev pub normalized : Patch Text → Patch Text
normalized (value e) = value (normalize e)
normalized p = p

-- `TenantRepository.update`
unfoldable pub set_fields : TenantUpdate → Tenant → Result Tenant
set_fields payload n = Patch.◌>>=◌ (required payload.full_name n.full_name) λ full_name.
    Patch.◌>>=◌ (not_null Constraint.not_null_email (normalized payload.email) n.email) λ email.
      Patch.◌>>=◌ (required payload.phone_number n.phone_number) λ phone_number.
        Patch.◌>>=◌ (required payload.date_of_birth n.date_of_birth) λ date_of_birth.
          Patch.◌>>=◌ (required payload.current_address n.current_address) λ current_address.
            Patch.◌>>=◌ (required payload.is_active n.is_active) λ is_active. ok (record n {
              full_name = full_name;
              email = email;
              phone_number = phone_number;
              date_of_birth = date_of_birth;
              current_address = current_address;
              occupation = nullable payload.occupation n.occupation;
              notes = nullable payload.notes n.notes;
              is_active = is_active;
            })

-- `existing and existing.id != id`
abbrev pub is_other : Option Tenant → ℕ → Bool
is_other none id = false
is_other (some n) id = not (n.id == id)

-- the check of an email that is given
unfoldable pub check_email : ℕ → Patch Text → Action (Unit {0})
check_email id (value email) = do
  existing ← first tenant_repo (has_email email)
  raise_if (is_other existing id) tenant_already_exists
check_email id _ = pure tt

unfoldable pub update_tenant : ℕ → TenantUpdate → User → Action (Option Tenant)
update_tenant id payload current_user = do
  get_tenant id current_user
  check_email id payload.email
  tenant ← rethrow email_conflict (update tenant_repo id (set_fields payload))
  write_audit_log current_user AuditAction.update EntityType.tenant id
  commit
  pure tenant

-- every IntegrityError of a deletion means that the tenant is referenced
abbrev pub in_use : Error → Error
in_use (integrity c) = tenant_in_use
in_use e = e

unfoldable pub delete_tenant : ℕ → User → Action (Option Tenant)
delete_tenant id current_user = do
  get_tenant id current_user
  rethrow in_use do
    tenant ← delete tenant_repo id
    write_audit_log current_user AuditAction.delete EntityType.tenant id
    commit
    pure tenant

-- `tenant.user_id is not None and tenant.user_id != user_id`
abbrev pub is_linked_elsewhere : Option ℕ → ℕ → Bool
is_linked_elsewhere none user_id = false
is_linked_elsewhere (some i) user_id = not (i == user_id)

abbrev pub link_conflict : Error → Error
link_conflict (integrity Constraint.ix_tenants_user_id) = tenant_already_linked
link_conflict e = e

-- The explicit rollback before an error is raised again is what the end of the session does.
unfoldable pub link_user : ℕ → ℕ → User → Action (Option Tenant)
link_user tenant_id user_id current_user = do
  tenant ← get_tenant tenant_id current_user
  found ← get_by_id user_repo user_id
  or_raise user_not_found found
  raise_if (is_linked_elsewhere tenant.user_id user_id) tenant_already_linked
  existing_link ← first tenant_repo (λ n. is_id n.user_id user_id)
  raise_if (is_other existing_link tenant_id) tenant_already_linked
  rethrow link_conflict do
    updated ← update tenant_repo tenant_id (λ n. ok (record n { user_id = some user_id }))
    write_audit_log current_user AuditAction.update EntityType.tenant tenant_id
    commit
    pure updated

unfoldable pub unlink_user : ℕ → User → Action (Option Tenant)
unlink_user tenant_id current_user = do
  get_tenant tenant_id current_user
  updated ← update tenant_repo tenant_id (λ n. ok (record n { user_id = none }))
  write_audit_log current_user AuditAction.update EntityType.tenant tenant_id
  commit
  pure updated
