-- ===== src/Properties.antt =====
-- `PropertyService` (app/properties/services/property_service.py).
pub mod Atomic
use propnest_api.Base.{ℕ, String, Bool, true, Option, none, some, not, ◌&&◌, ◌||◌, is_id}
use propnest_api.Core.Error.{
  Constraint, Error, Result, ok, integrity, related_resource_not_found, user_not_found,
  property_forbidden, property_already_exists, property_in_use, property_manager_assignment,
}
use propnest_api.Core.Schema.{find, user_key}
use propnest_api.Core.Session.{
  Action, ◌>>=◌, ◌>>◌, pure, or_raise, raise_if, query, commit, rethrow,
}
use propnest_api.Core.Repository.{get_by_id, create, update, delete, property_repo}
use propnest_api.Core.Patch
use propnest_api.Core.Patch.{Patch, required, nullable}
use propnest_api.Core.Audit.{write_audit_log}
use propnest_api.Models.User.{User, is_admin, is_manager}
use propnest_api.Models.AuditLog.{AuditAction}
use propnest_api.Models.AuditLog.EntityType
use propnest_api.Models.Property.{Property, PropertyStatus}

-- `PropertyCreate`
pub record PropertyCreate : Type 0 where
  pub name : String
  pub address : String
  pub description : Option String
  pub status : PropertyStatus

-- `PropertyUpdate`
pub record PropertyUpdate : Type 0 where
  pub name : Patch String
  pub address : Patch String
  pub description : Patch String
  pub status : Patch PropertyStatus
  pub is_active : Patch Bool

-- `_raise_if_name_address_conflict`
abbrev pub name_address_conflict : Error → Error
name_address_conflict (integrity Constraint.uq_property_name_address) = property_already_exists
name_address_conflict e = e

abbrev pub in_use : Error → Error
in_use (integrity c) = property_in_use
in_use e = e

-- `if current_user.role != UserRole.ADMIN: raise PropertyForbiddenError`
unfoldable pub require_admin : User → Action (Unit {0})
require_admin u = raise_if (not (is_admin u.role)) property_forbidden

-- admins, and the manager whom the property is assigned to
abbrev pub is_accessible : Property → User → Bool
is_accessible p u = is_admin u.role || (is_manager u.role && is_id p.manager_id u.id)

unfoldable pub get_property : ℕ → User → Action Property
get_property prop_id current_user = do
  found ← get_by_id property_repo prop_id
  prop ← or_raise related_resource_not_found found
  raise_if (not (is_accessible prop current_user)) property_forbidden
  pure prop

abbrev pub new_property : PropertyCreate → ℕ → Property
new_property payload id = record {
  id = id;
  name = payload.name;
  address = payload.address;
  description = payload.description;
  manager_id = none;
  status = payload.status;
  is_active = true;
}

unfoldable pub create_property : PropertyCreate → User → Action Property
create_property payload current_user = do
  require_admin current_user
  rethrow name_address_conflict do
    prop ← create property_repo (new_property payload)
    write_audit_log current_user AuditAction.create EntityType.property prop.id
    commit
    pure prop

unfoldable pub set_fields : PropertyUpdate → Property → Result Property
set_fields payload p = Patch.◌>>=◌ (required payload.name p.name) λ name.
    Patch.◌>>=◌ (required payload.address p.address) λ address.
      Patch.◌>>=◌ (required payload.status p.status) λ status.
        Patch.◌>>=◌ (required payload.is_active p.is_active) λ is_active. ok (record p {
          name = name;
          address = address;
          description = nullable payload.description p.description;
          status = status;
          is_active = is_active;
        })

unfoldable pub update_property : ℕ → PropertyUpdate → User → Action (Option Property)
update_property prop_id payload current_user = do
  get_property prop_id current_user
  rethrow name_address_conflict do
    prop ← update property_repo prop_id (set_fields payload)
    write_audit_log current_user AuditAction.update EntityType.property prop_id
    commit
    pure prop

unfoldable pub delete_property : ℕ → User → Action (Option Property)
delete_property prop_id current_user = do
  get_property prop_id current_user
  rethrow in_use do
    prop ← delete property_repo prop_id
    write_audit_log current_user AuditAction.delete EntityType.property prop_id
    commit
    pure prop

unfoldable pub assign_manager : ℕ → ℕ → User → Action (Option Property)
assign_manager prop_id manager_id current_user = do
  require_admin current_user
  get_property prop_id current_user
  found ← query (λ t. find manager_id t.users)
  manager ← or_raise user_not_found found
  raise_if (not (is_manager manager.role)) property_manager_assignment
  prop ← update property_repo prop_id (λ p. ok (record p { manager_id = some manager_id }))
  write_audit_log current_user AuditAction.update EntityType.property prop_id
  commit
  pure prop
