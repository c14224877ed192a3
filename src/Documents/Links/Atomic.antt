-- ===== src/Documents/Links/Atomic.antt =====
-- `update_document` commits last.
use propnest_api.Base.{ℕ, Option, none, some}
use propnest_api.Core.Session.Atomic.{NoCommit, Atomic, total_rules, Atomic-Total, atomic_rules}
use propnest_api.Core.Access.Atomic.{access_rules}
use propnest_api.Models.User.{User}
use propnest_api.Models.Document.{Document}
use propnest_api.Documents.Links.{
  Links, require_collection, validate_links, resolve_by_contract, resolve_document_relationship,
  prepare_document_context, get_document, update_document,
}

NoCommit-require_collection : (o : Option ℕ) → NoCommit (require_collection o)
unfolding require_collection
NoCommit-require_collection none = search access_rules
NoCommit-require_collection (some i) = search access_rules depth 8

NoCommit-validate_links : (l : Links) → NoCommit (validate_links l)
unfolding validate_links
NoCommit-validate_links l = search (access_rules, NoCommit-require_collection)

NoCommit-resolve_by_contract : (l : Links) (o : Option ℕ) → NoCommit (resolve_by_contract l o)
unfolding resolve_by_contract
NoCommit-resolve_by_contract l none = search (access_rules, NoCommit-validate_links)
NoCommit-resolve_by_contract l (some i) = search (access_rules, NoCommit-validate_links) depth 14

NoCommit-prepare_document_context :
    (u : User) (d : Option Document) (l : Links) → NoCommit (prepare_document_context u d l)
unfolding prepare_document_context resolve_document_relationship
NoCommit-prepare_document_context u d l =
    search (access_rules, NoCommit-resolve_by_contract) depth 10

NoCommit-get_document : (i : ℕ) (u : User) → NoCommit (get_document i u)
unfolding get_document
NoCommit-get_document i u = search access_rules depth 10

pub Atomic-update_document : (i : ℕ) (l : Links) (u : User) → Atomic (update_document i l u)
unfolding update_document
Atomic-update_document i l u =
    search
      (
        atomic_rules, access_rules, Atomic-Total, total_rules, NoCommit-get_document,
        NoCommit-prepare_document_context,
      )
      depth 20
