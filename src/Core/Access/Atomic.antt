-- ===== src/Core/Access/Atomic.antt =====
-- Authorization, and the audit writer, commit nothing.
use propnest_api.Base.{String, ℕ, Option, none, some, refl}
use propnest_api.Core.Error.{Error}
use propnest_api.Core.Session.{Action}
use propnest_api.Core.Session.Atomic.{NoCommit}
use propnest_api.Core.Repository.Atomic.{repository_rules}
use propnest_api.Core.Audit.{write_audit_log}
use propnest_api.Core.Access.{
  get_property, get_contract, get_tenant, given_or_found, resolve_property, authorize_role,
  authorize_user_to_property, require_some, validate_related_resources,
}
use propnest_api.Models.User.{User, UserRole, admin, manager, user}
use propnest_api.Models.Contract.{Contract}
use propnest_api.Models.AuditLog.{AuditAction}

pub NoCommit-write_audit_log :
    (u : User) (a : AuditAction) (t : String) (i : ℕ) → NoCommit (write_audit_log u a t i)
unfolding write_audit_log
NoCommit-write_audit_log u a t i = record { keeps = λ s. refl }

pub NoCommit-get_property : (i : ℕ) → NoCommit (get_property i)
unfolding get_property
NoCommit-get_property i = search repository_rules

pub NoCommit-get_contract : (i : ℕ) → NoCommit (get_contract i)
unfolding get_contract
NoCommit-get_contract i = search repository_rules

pub NoCommit-get_tenant : (i : ℕ) → NoCommit (get_tenant i)
unfolding get_tenant
NoCommit-get_tenant i = search repository_rules

NoCommit-given_or_found : (c : Option Contract) (i : ℕ) → NoCommit (given_or_found c i)
unfolding given_or_found
NoCommit-given_or_found none i = search (repository_rules, NoCommit-get_contract)
NoCommit-given_or_found (some c) i = search repository_rules

NoCommit-resolve_property :
    (p c : Option ℕ) (given : Option Contract) → NoCommit (resolve_property p c given)
unfolding resolve_property
NoCommit-resolve_property p (some i) given =
    search (repository_rules, NoCommit-given_or_found, NoCommit-get_property) depth 12
NoCommit-resolve_property (some i) none given =
    search (repository_rules, NoCommit-get_property) depth 12
NoCommit-resolve_property none none given = search repository_rules

NoCommit-authorize_role :
    (r : UserRole) (e : Error) (i : ℕ) (p c : Option ℕ) (given : Option Contract)
    → NoCommit (authorize_role r e i p c given)
unfolding authorize_role
NoCommit-authorize_role admin e i p c given = search repository_rules
NoCommit-authorize_role manager e i p c given = search (repository_rules, NoCommit-resolve_property)
NoCommit-authorize_role user e i p c given = search repository_rules

pub NoCommit-authorize_user_to_property :
    (e : Error) (u : User) (p c : Option ℕ) (given : Option Contract)
    → NoCommit (authorize_user_to_property e u p c given)
unfolding authorize_user_to_property
NoCommit-authorize_user_to_property e u p c given = NoCommit-authorize_role u.role e u.id p c given

NoCommit-require_some :
    {A : Type 0} (get : ℕ → Action (Option A))
    → ((i : ℕ) → NoCommit (get i))
    → (o : Option ℕ) → NoCommit (require_some get o)
unfolding require_some
NoCommit-require_some get k none = search repository_rules
NoCommit-require_some get k (some i) = search (repository_rules, k) depth 8

pub NoCommit-validate_related_resources :
    (p c t : Option ℕ) → NoCommit (validate_related_resources p c t)
unfolding validate_related_resources
NoCommit-validate_related_resources p c t =
    search
      (
        repository_rules, NoCommit-require_some, NoCommit-get_property, NoCommit-get_contract,
        NoCommit-get_tenant,
      )
      depth 8

pub ruleset access_rules = (
  repository_rules, NoCommit-write_audit_log, NoCommit-get_property, NoCommit-get_contract,
  NoCommit-authorize_user_to_property, NoCommit-validate_related_resources,
)
