-- ===== src/Leasing/Contracts/Sync.antt =====
-- Every contract operation keeps a property's status in step with its contracts.
use propnest_api.Leasing.Contracts.Returns.{
  sync_property_status-Returns, set_fields_keeps, get_contract-Returns,
  prepare_contract_context-Reads,
}
use propnest_api.Leasing.Contracts.Occupancy.Steps.{
  IsSynced-append, IsSynced-remove, IsSynced-replace,
}
use propnest_api.Core.Schema.Rows.{id_of-find}
use propnest_api.Core.Constraints.{contract_violation}
use propnest_api.Core.Audit.Returns.{finish-Returns}
use mathlib.Core.Path.{subst, subst₂}
use propnest_api.Base.{
  List, [], ◌∷◌, ◌++◌, refl, ℕ, ◌≡◌, sym, ap, ◌∙◌, Option, none, some, inl, inr,
}
use propnest_api.Core.Error.{ok}
use propnest_api.Core.Schema.{remove, replace, Tables, find, contract_key, property_key}
use propnest_api.Core.Session.{Session}
use propnest_api.Core.Session.Returns.{rethrow-Returns, Returns, >>=-Returns}
use propnest_api.Core.Session.Reads.{Reads-Returns}
use propnest_api.Core.Repository.{create, delete, contract_repo, update}
use propnest_api.Core.Repository.Returns.{create-Returns, delete-Returns, update-Returns}
use propnest_api.Models.User.{User}
use propnest_api.Models.AuditLog.{AuditAction}
use propnest_api.Models.AuditLog.EntityType
use propnest_api.Models.Property.{PropertyStatus}
use propnest_api.Models.Contract.{Contract}
use propnest_api.Leasing.Contracts.{
  new_contract, status_without, ContractCreate, delete_contract, create_contract,
  prepare_contract_context, resolve_property_status_transition, status_after, update_contract,
  ContractUpdate, set_fields, sync_property_status, get_contract,
}
use propnest_api.Leasing.Contracts.Occupancy.{IsSynced, with_status}

-- In every table of the session, each property has at most one active contract, and is occupied
-- exactly while it has one.
abbrev pub Tenancy : Tables → Type 0
Tenancy t = IsSynced t.properties t.contracts

-- What the last steps commit, from the tables that the first have written: the contracts `cs`, with
-- the status `st` set on one property.
settled :
    (t : Tables) (pid : ℕ) (st st' : Option PropertyStatus) (cs : List Contract)
    (s₁ s₂ s' : Session)
    → IsSynced (with_status pid st t.properties) cs
    → st' ≡ st
    → (s₁.working.contracts ≡ cs) × (s₁.working.properties ≡ t.properties)
    → (s₂.working.properties ≡ with_status pid st' s₁.working.properties)
      × (s₂.working.contracts ≡ s₁.working.contracts)
    → (s'.committed.properties ≡ s₂.working.properties)
      × (s'.committed.contracts ≡ s₂.working.contracts)
    → Tenancy s'.committed
settled t pid st st' cs s₁ s₂ s' synced es (a, b) (c, d) (e, f) =
    subst₂ IsSynced
      (sym
        (e ∙ c ∙ ap (λ x. with_status pid x s₁.working.properties) es ∙ ap (with_status pid st) b))
      (sym (f ∙ d ∙ a)) synced

module _ (s : Session) (tenancy : Tenancy s.working) where
  -- the contract that was read and the one that was updated are one
  replaced :
      (i : ℕ) (p : ContractUpdate) (c old new : Contract) (o : Option Contract)
      → find i s.working.contracts ≡ some c
      → find i s.working.contracts ≡ some old
      → set_fields p old ≡ ok new
      → contract_violation new s.working ≡ none
      → o ≡ some new
      → IsSynced
          (with_status c.property_id
            (resolve_property_status_transition (some c.status) (some new.status))
            s.working.properties)
          (replace new s.working.contracts)
        × (status_after c.status o
            ≡ resolve_property_status_transition (some c.status) (some new.status))
  replaced i p c old new o found found' changed holds result =
      let same : old ≡ c = cc in
      let (ids, properties) = set_fields_keeps p c new (rw (← same) changed) in
      (
        IsSynced-replace c new s.working tenancy ids properties
            (subst (λ j. find j s.working.contracts ≡ some c)
              (sym (id_of-find i s.working.contracts c found)) found)
            holds,
        ap (status_after c.status) result,
      )

  pub update_contract-Tenancy :
      (i : ℕ) (p : ContractUpdate) (u : User) {o : Option Contract} {s' : Session}
      → Returns (update_contract i p u) s o s'
      → Tenancy s'.committed
  unfolding update_contract
  update_contract-Tenancy i p u {s' = s'} h =
      let (c, s₀, h₀, h₁) = >>=-Returns (get_contract i u) _ s h in
      let (found, same) = get_contract-Returns i u s h₀ in
      let body = rethrow-Returns _ _ s (rw same at h₁) in
      let (o, s₁, h₂, h₃) = >>=-Returns (update contract_repo i (set_fields p)) _ s body in
      let (x, s₂, h₄, h₅) =
        >>=-Returns (sync_property_status c.property_id (status_after c.status o)) _ s₁ h₃ in
      let (e, r) = finish-Returns u AuditAction.update EntityType.contract i o s₂ h₅ in
      elim (update-Returns contract_repo i (set_fields p) s h₂) [
        | inl (missing, a, b) ↦ cc
        | inr (old, new, found', changed, holds, a, b) ↦
            let (synced, es) = replaced i p c old new o found found' changed holds a in
            settled s.working c.property_id _ _ _ s₁ s₂ s' synced es
              (ap (λ t. t.working.contracts) b, ap (λ t. t.working.properties) b)
              (sync_property_status-Returns c.property_id (status_after c.status o) s₁ h₄)
              (ap (λ t. t.properties) e, ap (λ t. t.contracts) e)
      ]

  created :
      (c : Contract) (s₁ s₂ s' : Session)
      → find c.id s.working.contracts ≡ none
      → contract_violation c s.working ≡ none
      → (s₁.working.contracts ≡ s.working.contracts ++ c ∷ [])
        × (s₁.working.properties ≡ s.working.properties)
      → (s₂.working.properties
          ≡ with_status c.property_id
              (resolve_property_status_transition none (some c.status))
              s₁.working.properties)
        × (s₂.working.contracts ≡ s₁.working.contracts)
      → (s'.committed.properties ≡ s₂.working.properties)
        × (s'.committed.contracts ≡ s₂.working.contracts)
      → Tenancy s'.committed
  created c s₁ s₂ s' fresh holds written set finished =
      settled s.working c.property_id _ _ _ s₁ s₂ s'
        (IsSynced-append c s.working tenancy fresh holds) refl written set finished

  pub create_contract-Tenancy :
      (p : ContractCreate) (u : User) {c : Contract} {s' : Session}
      → Returns (create_contract p u) s c s'
      → Tenancy s'.committed
  unfolding create_contract
  create_contract-Tenancy p u {s' = s'} h =
      let (x, s₀, h₀, h₁) =
        >>=-Returns (prepare_contract_context u p.property_id p.tenant_id) _ s h in
      let same =
        Reads-Returns _ s (prepare_contract_context-Reads u p.property_id p.tenant_id) h₀ in
      let body = rethrow-Returns _ _ s (rw same at h₁) in
      let (c, s₁, h₂, h₃) = >>=-Returns (create contract_repo (new_contract p)) _ s body in
      let (y, s₂, h₄, h₅) = >>=-Returns (sync_property_status c.property_id _) _ s₁ h₃ in
      let (e, r) = finish-Returns u AuditAction.create EntityType.contract c.id c s₂ h₅ in
      let (made, fresh, holds, written) = create-Returns contract_repo (new_contract p) s h₂ in
      created c s₁ s₂ s'
        (subst (λ (r : Contract). find r.id s.working.contracts ≡ none) (sym made) fresh)
        (subst (λ r. contract_violation r s.working ≡ none) (sym made) holds)
        (
          ap (λ t. t.contracts) written ∙ ap (λ r. s.working.contracts ++ r ∷ []) (sym made),
          ap (λ t. t.properties) written,
        )
        (sync_property_status-Returns c.property_id _ s₁ h₄)
        (ap (λ t. t.properties) e, ap (λ t. t.contracts) e)

  -- the contract that was read and the one that was deleted are one
  removed :
      (i : ℕ) (c old : Contract) (o : Option Contract)
      → find i s.working.contracts ≡ some c
      → find i s.working.contracts ≡ some old
      → o ≡ some old
      → IsSynced
          (with_status c.property_id
            (resolve_property_status_transition (some c.status) none)
            s.working.properties)
          (remove old.id s.working.contracts)
        × (status_without c.status o ≡ resolve_property_status_transition (some c.status) none)
  removed i c old o found found' result =
      let same : c ≡ old = cc in
      let here =
        subst (λ j. find j s.working.contracts ≡ some c)
          (sym (id_of-find i s.working.contracts c found)) found in
      (
        subst
            (λ x.
              IsSynced
                (with_status c.property_id (resolve_property_status_transition (some c.status) none)
                  s.working.properties)
                (remove x.id s.working.contracts))
            same (IsSynced-remove c s.working.properties s.working.contracts tenancy here),
        ap (status_without c.status) result,
      )

  pub delete_contract-Tenancy :
      (i : ℕ) (u : User) {o : Option Contract} {s' : Session}
      → Returns (delete_contract i u) s o s'
      → Tenancy s'.committed
  unfolding delete_contract
  delete_contract-Tenancy i u {s' = s'} h =
      let (c, s₀, h₀, h₁) = >>=-Returns (get_contract i u) _ s h in
      let (found, same) = get_contract-Returns i u s h₀ in
      let body = rethrow-Returns _ _ s (rw same at h₁) in
      let (o, s₁, h₂, h₃) = >>=-Returns (delete contract_repo i) _ s body in
      let (x, s₂, h₄, h₅) =
        >>=-Returns (sync_property_status c.property_id (status_without c.status o)) _ s₁ h₃ in
      let (e, r) = finish-Returns u AuditAction.delete EntityType.contract i o s₂ h₅ in
      elim (delete-Returns contract_repo i s h₂) [
        | inl (missing, a, b) ↦ cc
        | inr (old, found', free, a, b) ↦
            let (synced, es) = removed i c old o found found' a in
            settled s.working c.property_id _ _ _ s₁ s₂ s' synced es
              (ap (λ t. t.working.contracts) b, ap (λ t. t.working.properties) b)
              (sync_property_status-Returns c.property_id (status_without c.status o) s₁ h₄)
              (ap (λ t. t.properties) e, ap (λ t. t.contracts) e)
      ]
