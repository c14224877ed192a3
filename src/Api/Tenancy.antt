-- ===== src/Api/Tenancy.antt =====
-- The contract requests keep the properties' status in step with the contracts.
use propnest_api.Base.{Bool, true, false, ◌≡◌, arith}
use propnest_api.Core.Session.{Store, begin}
use propnest_api.Core.Session.Served.{run-keeps}
use propnest_api.Models.User.{User}
use propnest_api.Leasing.Contracts
use propnest_api.Leasing.Contracts.Atomic.{
  Atomic-create_contract, Atomic-update_contract, Atomic-delete_contract,
}
use propnest_api.Leasing.Contracts.Sync.{
  Tenancy, create_contract-Tenancy, update_contract-Tenancy, delete_contract-Tenancy,
}
use propnest_api.Identity.Passwords.{Passwords}
use propnest_api.Api.{Request, handle, serve, create_contract, update_contract, delete_contract}

-- the requests of the contract routes
abbrev pub is_contract_request : Request → Bool
is_contract_request (create_contract p) = true
is_contract_request (update_contract i p) = true
is_contract_request (delete_contract i) = true
is_contract_request _ = false

-- If every property has at most one active contract and is occupied exactly while it has one, that
-- is still so after a request to create, update or delete a contract, whether it succeeds or not.
pub serve-Tenancy :
    (pw : Passwords) (u : User) (q : Request) (d : Store)
    → is_contract_request q ≡ true
    → Tenancy d.tables
    → Tenancy (serve pw u q d).tables
unfolding serve handle
serve-Tenancy pw u (create_contract p) d h t =
    run-keeps (Contracts.create_contract p u) Tenancy d (Atomic-create_contract p u)
      (λ a s'. create_contract-Tenancy (begin d) t p u) t
serve-Tenancy pw u (update_contract i p) d h t =
    run-keeps (Contracts.update_contract i p u) Tenancy d (Atomic-update_contract i p u)
      (λ a s'. update_contract-Tenancy (begin d) t i p u) t
serve-Tenancy pw u (delete_contract i) d h t =
    run-keeps (Contracts.delete_contract i u) Tenancy d (Atomic-delete_contract i u)
      (λ a s'. delete_contract-Tenancy (begin d) t i u) t
serve-Tenancy pw u _ d h t = ground arith
