-- ===== src/Documents/Links/Agrees.antt =====
-- A document that names a contract belongs to the contract's property and tenant.
use propnest_api.Base.{ℕ, ◌≡◌, Option, none, some, refl, sym, ap, ◌∙◌, inl, inr, arith}
use mathlib.Core.Path.{subst}
use propnest_api.Core.Error.{ok}
use propnest_api.Core.Schema.{Tables, find, contract_key}
use propnest_api.Core.Schema.Rows.{id_of-find}
use propnest_api.Core.Session.{Session}
use propnest_api.Core.Session.Returns.{Returns, >>=-Returns, pure-Returns, or_raise-Returns}
use propnest_api.Core.Session.Reads.{Reads, Reads-step}
use propnest_api.Core.Repository.{document_repo, contract_repo, update}
use propnest_api.Core.Repository.Returns.{get_by_id-Returns, update-Returns}
use propnest_api.Core.Access.{get_contract}
use propnest_api.Core.Access.Reads.{access_reads}
use propnest_api.Core.Audit.Returns.{finish-Returns}
use propnest_api.Models.AuditLog.EntityType
use propnest_api.Models.User.{User}
use propnest_api.Models.Contract.{Contract}
use propnest_api.Models.Document.{Document}
use propnest_api.Documents.Links.{
  AuditAction, Links, Resolved, require_collection, validate_links, resolve_by_contract,
  resolve_document_relationship, prepare_document_context, get_document, relink, relinked,
  update_document,
}

-- with these contracts, what is named beside a contract is the contract's
abbrev pub Agrees : Tables → Option ℕ → Option ℕ → Option ℕ → Type 0
Agrees t none property_id tenant_id = Unit
Agrees t (some cid) property_id tenant_id =
    (c : Contract) × (find cid t.contracts ≡ some c)
    × (property_id ≡ some c.property_id)
    × (tenant_id ≡ some c.tenant_id)

Reads-require_collection : (o : Option ℕ) → Reads (require_collection o)
unfolding require_collection
Reads-require_collection none = search access_reads
Reads-require_collection (some i) = search access_reads depth 8

Reads-validate_links : (l : Links) → Reads (validate_links l)
unfolding validate_links
Reads-validate_links l = search (access_reads, Reads-require_collection)

Reads-resolve_by_contract : (l : Links) (o : Option ℕ) → Reads (resolve_by_contract l o)
unfolding resolve_by_contract
Reads-resolve_by_contract l none = search (access_reads, Reads-validate_links)
Reads-resolve_by_contract l (some i) = search (access_reads, Reads-validate_links) depth 14

Reads-prepare_document_context :
    (u : User) (d : Option Document) (l : Links) → Reads (prepare_document_context u d l)
unfolding prepare_document_context resolve_document_relationship
Reads-prepare_document_context u d l = search (access_reads, Reads-resolve_by_contract) depth 10

Reads-get_document : (i : ℕ) (u : User) → Reads (get_document i u)
unfolding get_document
Reads-get_document i u = search access_reads depth 10

abbrev LinksAgree : Tables → Links → Type 0
LinksAgree t l = Agrees t l.contract_id l.property_id l.tenant_id

contract_found :
    (cid : ℕ) (s : Session) {o : Option Contract} {s' : Session}
    → Returns (get_contract cid) s o s'
    → o ≡ find cid s.working.contracts
unfolding get_contract
contract_found cid s h = (get_by_id-Returns contract_repo cid s h).0

resolve_by_contract-Agrees :
    (l : Links) (o : Option ℕ) (s : Session) {r : Resolved} {s' : Session}
    → Returns (resolve_by_contract l o) s r s'
    → LinksAgree s.working r.links
unfolding resolve_by_contract
resolve_by_contract-Agrees l none s h =
    let (x, s₁, h₁, h₂) = >>=-Returns (validate_links l) _ s h in
    let (e, p) = pure-Returns _ s₁ h₂ in
    subst (LinksAgree s.working) (ap (λ (r : Resolved). r.links) (sym e)) tt
resolve_by_contract-Agrees l (some cid) s h =
    let (o, s₁, h₁, h₂) = >>=-Returns (get_contract cid) _ s h in
    let (c, s₂, h₃, h₄) = >>=-Returns _ _ s₁ h₂ in
    let (found, p₂) = or_raise-Returns _ o s₁ h₃ in
    let (x, s₃, h₅, h₆) = >>=-Returns _ _ s₂ h₄ in
    let (y, s₄, h₇, h₈) = >>=-Returns _ _ s₃ h₆ in
    let (z, s₅, h₉, h₁₀) = >>=-Returns _ _ s₄ h₈ in
    let (e, p) = pure-Returns _ s₅ h₁₀ in
    let there : find cid s.working.contracts ≡ some c = sym (contract_found cid s h₁) ∙ found in
    let same : c.id ≡ cid = id_of-find cid s.working.contracts c there in
    subst (LinksAgree s.working) (ap (λ (r : Resolved). r.links) (sym e))
      (c, ap (λ i. find i s.working.contracts) same ∙ there, refl, refl)

prepare_document_context-Agrees :
    (u : User) (d : Option Document) (given : Links) (s : Session) {l : Links} {s' : Session}
    → Returns (prepare_document_context u d given) s l s'
    → LinksAgree s.working l
unfolding prepare_document_context resolve_document_relationship
prepare_document_context-Agrees u d given s h =
    let (r, s₁, h₁, h₂) = >>=-Returns _ _ s h in
    let (x, s₂, h₃, h₄) = >>=-Returns _ _ s₁ h₂ in
    let (e, p) = pure-Returns r.links s₂ h₄ in
    subst (LinksAgree s.working) (sym e) (resolve_by_contract-Agrees _ _ s h₁)

-- the row that is written has the links
linked :
    (t : Tables) (l : Links) (old d : Document)
    → relink l old ≡ ok d
    → LinksAgree t l
    → Agrees t d.contract_id d.property_id d.tenant_id
linked t l old d h agrees =
    let row : relinked l old ≡ d = cc in
    subst (λ (d : Document). Agrees t d.contract_id d.property_id d.tenant_id) row agrees

-- After an update of what a document belongs to that returns a document: if the document names a
-- contract, the contract exists, and the document's property and tenant are those of the contract.
pub update_document-Agrees :
    (i : ℕ) (payload : Links) (u : User) (s : Session) {d : Document} {s' : Session}
    → Returns (update_document i payload u) s (some d) s'
    → Agrees s.working d.contract_id d.property_id d.tenant_id
unfolding update_document
update_document-Agrees i payload u s {d} {s'} h =
    let (doc, h₁, h₂) = Reads-step (get_document i u) _ s (Reads-get_document i u) h in
    let (l, h₃, h₄) =
      Reads-step (prepare_document_context u (some doc) payload) _ s
        (Reads-prepare_document_context u (some doc) payload) h₂ in
    let agrees = prepare_document_context-Agrees u (some doc) payload s h₃ in
    let (o, s₁, h₅, h₆) = >>=-Returns (update document_repo i (relink l)) _ s h₄ in
    let (c, e) = finish-Returns u AuditAction.update EntityType.document i o s₁ h₆ in
    elim (update-Returns document_repo i (relink l) s h₅) [
      | inl (missing, a, b) ↦ ground (arith, e, a)
      | inr (old, new, found, changed, holds, a, b) ↦
          let same : relink l old ≡ ok d = changed ∙ cc in linked s.working l old d same agrees
    ]
