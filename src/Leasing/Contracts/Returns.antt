-- ===== src/Leasing/Contracts/Returns.antt =====
-- What the steps of `ContractService` that returned have done.
use propnest_api.Base.{ℕ, ◌≡◌, sym, ap, ◌∙◌, Option, none, some, inl, inr, arith}
use propnest_api.Core.Error.{ok}
use propnest_api.Core.Schema.{find, contract_key, property_key}
use propnest_api.Core.Session.{Session}
use propnest_api.Core.Session.Returns.{Returns, >>=-Returns, pure-Returns, or_raise-Returns}
use propnest_api.Core.Session.Reads.{Reads, Reads-Returns}
use propnest_api.Core.Repository.{contract_repo, property_repo, get_by_id, update}
use propnest_api.Core.Repository.Returns.{get_by_id-Returns, update-Returns}
use propnest_api.Core.Access.Reads.{Reads-authorize_user_to_property, access_reads}
use propnest_api.Models.User.{User}
use propnest_api.Models.Property.{PropertyStatus}
use propnest_api.Models.Contract.{Contract}
use propnest_api.Leasing.Contracts.{
  prepare_contract_context, ContractUpdate, set_fields, sync_property_status, get_contract,
}
use propnest_api.Leasing.Contracts.Occupancy.{with_status}

pub sync_property_status-Returns :
    (i : ℕ) (st : Option PropertyStatus) (s : Session) {u : Unit {0}} {s' : Session}
    → Returns (sync_property_status i st) s u s'
    → (s'.working.properties ≡ with_status i st s.working.properties)
      × (s'.working.contracts ≡ s.working.contracts)
unfolding sync_property_status
sync_property_status-Returns i none s h = let (e, p) = pure-Returns tt s h in ground arith
sync_property_status-Returns i (some st) s h =
    let (o, s₁, h₁, h₂) = >>=-Returns (update property_repo i _) _ s h in
    let (e, p) = pure-Returns tt s₁ h₂ in
    elim (update-Returns property_repo i _ s h₁) [
      | inl (missing, a, b) ↦ ground arith
      | inr (old, new, found, changed, holds, a, b) ↦ ground arith
    ]

pub set_fields_keeps :
    (payload : ContractUpdate) (c c' : Contract)
    → set_fields payload c ≡ ok c'
    → (c'.id ≡ c.id) × (c'.property_id ≡ c.property_id)
unfolding set_fields
set_fields_keeps payload c c' h = ground arith

pub get_contract-Returns :
    (i : ℕ) (u : User) (s : Session) {c : Contract} {s' : Session}
    → Returns (get_contract i u) s c s'
    → (find i s.working.contracts ≡ some c) × (s' ≡ s)
unfolding get_contract
get_contract-Returns i u s h =
    let (o, s₁, h₁, h₂) = >>=-Returns (get_by_id contract_repo i) _ s h in
    let (e, p) = get_by_id-Returns contract_repo i s h₁ in
    let (c, s₂, h₃, h₄) = >>=-Returns _ _ s₁ h₂ in
    let (e₂, p₂) = or_raise-Returns _ o s₁ h₃ in
    let (x, s₃, h₅, h₆) = >>=-Returns _ _ s₂ h₄ in
    let p₃ = Reads-Returns _ s₂ (Reads-authorize_user_to_property _ u _ none none) h₅ in
    let (e₄, p₄) = pure-Returns c s₃ h₆ in (sym e ∙ e₂ ∙ ap some (sym e₄), p₄ ∙ p₃ ∙ p₂ ∙ p)

pub prepare_contract_context-Reads : (u : User) (p t : ℕ) → Reads (prepare_contract_context u p t)
unfolding prepare_contract_context
prepare_contract_context-Reads u p t = search access_reads
