-- ===== src/Documents/Links.antt =====
-- What a document belongs to: the property, contract, tenant and collection
-- (app/documents/services/document_service.py).
pub mod Atomic
pub mod Agrees
use propnest_api.Base.{ℕ, Bool, false, Option, none, some, not, ◌==◌}
use propnest_api.Core.Error.{
  Result, ok, related_resource_not_found, document_forbidden, document_validation,
}
use propnest_api.Core.Session.{Action, ◌>>=◌, ◌>>◌, pure, raise_if, or_raise, commit}
use propnest_api.Core.Repository.{get_by_id, update, document_repo, collection_repo}
use propnest_api.Core.Audit.{write_audit_log}
use propnest_api.Core.Access.{authorize_user_to_property, validate_related_resources, get_contract}
use propnest_api.Models.User.{User}
use propnest_api.Models.Contract.{Contract}
use propnest_api.Models.Document.{Document}
use propnest_api.Models.AuditLog.{AuditAction}
use propnest_api.Models.AuditLog.EntityType

-- the ids of a document, or of a payload (`DocumentRelinkUpdate`)
pub record Links : Type 0 where
  pub property_id : Option ℕ
  pub contract_id : Option ℕ
  pub tenant_id : Option ℕ
  pub collection_id : Option ℕ

-- the ids, and the contract that they were read from
pub record Resolved : Type 0 where
  pub links : Links
  pub contract : Option Contract

-- the override, or what the document has
abbrev pub or_old : Option ℕ → Option ℕ → Option ℕ
or_old none old = old
or_old (some i) old = some i

-- `_resolve_ids`
abbrev pub resolve_ids : Option Document → Links → Links
resolve_ids none given = given
resolve_ids (some d) given = record {
  property_id = or_old given.property_id d.property_id;
  contract_id = or_old given.contract_id d.contract_id;
  tenant_id = or_old given.tenant_id d.tenant_id;
  collection_id = or_old given.collection_id d.collection_id;
}

unfoldable pub require_collection : Option ℕ → Action (Unit {0})
require_collection none = pure tt
require_collection (some i) = do
  found ← get_by_id collection_repo i
  or_raise related_resource_not_found found
  pure tt

-- `_validate_related_resources` for a property, a tenant and a collection
unfoldable pub validate_links : Links → Action (Unit {0})
validate_links links = do
  validate_related_resources links.property_id none links.tenant_id
  require_collection links.collection_id

-- an id that is given and is another one
abbrev pub differs : Option ℕ → ℕ → Bool
differs none id = false
differs (some i) id = not (i == id)

unfoldable pub resolve_by_contract : Links → Option ℕ → Action Resolved
resolve_by_contract links none = do
  validate_links links
  pure (record { links = record links { contract_id = none }; contract = none })
resolve_by_contract links (some cid) = do
  found ← get_contract cid
  contract ← or_raise related_resource_not_found found
  validate_links links
  raise_if (differs links.property_id contract.property_id) document_validation
  raise_if (differs links.tenant_id contract.tenant_id) document_validation
  pure (record {
    links = record {
      property_id = some contract.property_id;
      contract_id = some contract.id;
      tenant_id = some contract.tenant_id;
      collection_id = links.collection_id;
    };
    contract = some contract;
  })

-- `_resolve_document_relationship`
unfoldable pub resolve_document_relationship : Option Document → Links → Action Resolved
resolve_document_relationship doc given =
    let links = resolve_ids doc given in resolve_by_contract links links.contract_id

-- `_prepare_document_context`
unfoldable pub prepare_document_context : User → Option Document → Links → Action Links
prepare_document_context current_user doc given = do
  resolved ← resolve_document_relationship doc given
  authorize_user_to_property document_forbidden current_user resolved.links.property_id
      resolved.links.contract_id resolved.contract
  pure resolved.links

unfoldable pub get_document : ℕ → User → Action Document
get_document doc_id current_user = do
  found ← get_by_id document_repo doc_id
  doc ← or_raise related_resource_not_found found
  authorize_user_to_property document_forbidden current_user doc.property_id doc.contract_id none
  pure doc

-- every one of the ids is set, also those that are None
abbrev pub relinked : Links → Document → Document
relinked links d = record d {
  property_id = links.property_id;
  contract_id = links.contract_id;
  tenant_id = links.tenant_id;
  collection_id = links.collection_id;
}

abbrev pub relink : Links → Document → Result Document
relink links d = ok (relinked links d)

unfoldable pub update_document : ℕ → Links → User → Action (Option Document)
update_document doc_id payload current_user = do
  doc ← get_document doc_id current_user
  links ← prepare_document_context current_user (some doc) payload
  updated ← update document_repo doc_id (relink links)
  write_audit_log current_user AuditAction.update EntityType.document doc_id
  commit
  pure updated
