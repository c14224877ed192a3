-- ===== src/Collections.antt =====
-- `CollectionService` (app/collections/services/collection_service.py). It writes no audit rows.
pub mod Atomic
use propnest_api.Base.{ℕ, String, Option, none, some, not, ◌==◌}
use propnest_api.Core.Error.{
  Result, ok, related_resource_not_found, collection_forbidden, collection_validation,
}
use propnest_api.Core.Session.{Action, ◌>>=◌, ◌>>◌, pure, raise_if, or_raise, commit}
use propnest_api.Core.Repository.{get_by_id, create, update, delete, collection_repo}
use propnest_api.Core.Patch
use propnest_api.Core.Patch.{Patch, value, required, nullable}
use propnest_api.Core.Access.{authorize_user_to_property, validate_related_resources, get_contract}
use propnest_api.Models.User.{User}
use propnest_api.Models.Collection.{Collection}

-- `CollectionCreate`, validated
pub record CollectionCreate : Type 0 where
  pub name : String
  pub description : Option String
  pub property_id : ℕ
  pub contract_id : Option ℕ

-- `CollectionUpdate`, validated
pub record CollectionUpdate : Type 0 where
  pub name : Patch String
  pub description : Patch String
  pub contract_id : Patch ℕ

-- the contract, if one is named, is one of the property
unfoldable pub check_contract : Option ℕ → ℕ → Action (Unit {0})
check_contract none property_id = pure tt
check_contract (some cid) property_id = do
  found ← get_contract cid
  contract ← or_raise related_resource_not_found found
  raise_if (not (contract.property_id == property_id)) collection_validation

-- `_prepare_collection_context`
unfoldable pub prepare_collection_context : User → ℕ → Option ℕ → Action (Unit {0})
prepare_collection_context current_user property_id contract_id = do
  validate_related_resources (some property_id) contract_id none
  check_contract contract_id property_id
  authorize_user_to_property collection_forbidden current_user (some property_id) none none

unfoldable pub get_collection : ℕ → User → Action Collection
get_collection collection_id current_user = do
  found ← get_by_id collection_repo collection_id
  collection ← or_raise related_resource_not_found found
  authorize_user_to_property collection_forbidden current_user (some collection.property_id) none
      none
  pure collection

abbrev pub new_collection : CollectionCreate → ℕ → Collection
new_collection payload id = record {
  id = id;
  name = payload.name;
  description = payload.description;
  property_id = payload.property_id;
  contract_id = payload.contract_id;
}

unfoldable pub create_collection : CollectionCreate → User → Action Collection
create_collection payload current_user = do
  prepare_collection_context current_user payload.property_id payload.contract_id
  collection ← create collection_repo (new_collection payload)
  commit
  pure collection

unfoldable pub set_fields : CollectionUpdate → Collection → Result Collection
set_fields payload c = Patch.◌>>=◌ (required payload.name c.name) λ name. ok (record c {
  name = name;
  description = nullable payload.description c.description;
  contract_id = nullable payload.contract_id c.contract_id;
})

-- a contract that is given must be one of the collection's property
unfoldable pub check_update : User → Collection → Patch ℕ → Action (Unit {0})
check_update current_user c (value cid) =
    prepare_collection_context current_user c.property_id (some cid)
check_update current_user c _ = pure tt

unfoldable pub update_collection : ℕ → CollectionUpdate → User → Action (Option Collection)
update_collection collection_id payload current_user = do
  c ← get_collection collection_id current_user
  check_update current_user c payload.contract_id
  updated ← update collection_repo collection_id (set_fields payload)
  commit
  pure updated

unfoldable pub delete_collection : ℕ → User → Action (Option Collection)
delete_collection collection_id current_user = do
  get_collection collection_id current_user
  deleted ← delete collection_repo collection_id
  commit
  pure deleted
