-- ===== src/Core/Access.antt =====
-- `ResourceAuthorizationMixin` (app/core/services/base.py). The repositories are those that
-- app/core/dependencies.py injects, so the RuntimeError of a missing one does not occur. An id is
-- a UUID, which Python always reads as true.
pub mod Atomic
pub mod Refusal
pub mod Reads
pub mod Consistent
use propnest_api.Base.{ℕ, Option, none, some, not, is_id, Bool, false, List}
use propnest_api.Core.Error.{Error, related_resource_not_found}
use propnest_api.Core.Schema.{find, tenant_key}
use propnest_api.Core.Session.{◌>>=◌, ◌>>◌, Action, pure, raise, raise_if, or_raise, query}
use propnest_api.Core.Repository.{property_repo, contract_repo, get_by_id}
use propnest_api.Models.User.{User, UserRole, admin, manager, user}
use propnest_api.Models.Property.{Property}
use propnest_api.Models.Contract.{Contract}
use propnest_api.Models.Tenant.{Tenant}

unfoldable pub get_property : ℕ → Action (Option Property)
get_property i = get_by_id property_repo i

unfoldable pub get_contract : ℕ → Action (Option Contract)
get_contract i = get_by_id contract_repo i

unfoldable pub get_tenant : ℕ → Action (Option Tenant)
get_tenant i = query (λ t. find i t.tenants)

-- the contract that the caller already has, or the one with that id
given_or_found : Option Contract → ℕ → Action (Option Contract)
given_or_found (some c) i = pure (some c)
given_or_found none i = get_contract i

-- `_resolve_property`: the contract is authoritative when an id of one is given
unfoldable pub resolve_property : Option ℕ → Option ℕ → Option Contract → Action (Option Property)
unfolding given_or_found
resolve_property property_id (some cid) contract = do
  found ← given_or_found contract cid
  c ← or_raise related_resource_not_found found
  prop ← get_property c.property_id
  p ← or_raise related_resource_not_found prop
  pure (some p)
resolve_property (some pid) none contract = do
  prop ← get_property pid
  p ← or_raise related_resource_not_found prop
  pure (some p)
resolve_property none none contract = pure none

-- a missing property, one with no manager, and one of another manager are refused alike
owns : Option Property → ℕ → Bool
owns none i = false
owns (some p) i = is_id p.manager_id i

authorize_role : UserRole → Error → ℕ → Option ℕ → Option ℕ → Option Contract → Action (Unit {0})
unfolding owns
authorize_role admin e uid property_id contract_id contract = pure tt
authorize_role manager e uid property_id contract_id contract = do
  prop ← resolve_property property_id contract_id contract
  raise_if (not (owns prop uid)) e
authorize_role user e uid property_id contract_id contract = raise e

-- `_authorize_user_to_property`, with the service's `forbidden_error`
unfoldable pub authorize_user_to_property :
    Error → User → Option ℕ → Option ℕ → Option Contract → Action (Unit {0})
unfolding authorize_role
authorize_user_to_property e current_user property_id contract_id contract =
    authorize_role current_user.role e current_user.id property_id contract_id contract

require_some : {A : Type 0} → (ℕ → Action (Option A)) → Option ℕ → Action (Unit {0})
require_some get none = pure tt
require_some get (some i) = do found ← get i; or_raise related_resource_not_found found; pure tt

-- `_validate_related_resources` for a property, a contract and a tenant
unfoldable pub validate_related_resources : Option ℕ → Option ℕ → Option ℕ → Action (Unit {0})
unfolding require_some
validate_related_resources property_id contract_id tenant_id = do
  require_some get_property property_id
  require_some get_contract contract_id
  require_some get_tenant tenant_id

pub record Page (A : Type 0) : Type 0 where
  pub items : List A
  pub total : ℕ

list_for_role :
    {A : Type 0} → UserRole → Error → Action (Page A) → Action (Page A) → Action (Page A)
list_for_role manager e own everything = own
list_for_role admin e own everything = everything
list_for_role user e own everything = raise e

-- `_list_scoped_by_manager`: `own` is the page of the manager's rows, `everything` that of all
unfoldable pub list_scoped_by_manager :
    {A : Type 0} → Error → User → Action (Page A) → Action (Page A) → Action (Page A)
unfolding list_for_role
list_scoped_by_manager e current_user own everything =
    list_for_role current_user.role e own everything
