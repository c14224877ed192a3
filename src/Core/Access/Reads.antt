-- ===== src/Core/Access/Reads.antt =====
-- Authorization and lookups leave the session as it was.
use propnest_api.Base.{ℕ, Option, none, some}
use propnest_api.Core.Error.{Error}
use propnest_api.Core.Session.{Action}
use propnest_api.Core.Session.Reads.{Reads, read_rules}
use propnest_api.Core.Repository.Returns.{Reads-get_by_id}
use propnest_api.Core.Access.{
  get_property, get_contract, get_tenant, given_or_found, resolve_property, authorize_role,
  authorize_user_to_property, require_some, validate_related_resources,
}
use propnest_api.Models.User.{User, UserRole, admin, manager, user}
use propnest_api.Models.Contract.{Contract}

pub ruleset lookup_rules = (read_rules, Reads-get_by_id)

pub Reads-get_property : (i : ℕ) → Reads (get_property i)
unfolding get_property
Reads-get_property i = search lookup_rules

pub Reads-get_contract : (i : ℕ) → Reads (get_contract i)
unfolding get_contract
Reads-get_contract i = search lookup_rules

Reads-get_tenant : (i : ℕ) → Reads (get_tenant i)
unfolding get_tenant
Reads-get_tenant i = search lookup_rules

Reads-given_or_found : (c : Option Contract) (i : ℕ) → Reads (given_or_found c i)
unfolding given_or_found
Reads-given_or_found none i = search (lookup_rules, Reads-get_contract)
Reads-given_or_found (some c) i = search lookup_rules

Reads-resolve_property :
    (p c : Option ℕ) (given : Option Contract) → Reads (resolve_property p c given)
unfolding resolve_property
Reads-resolve_property p (some i) given =
    search (lookup_rules, Reads-given_or_found, Reads-get_property) depth 12
Reads-resolve_property (some i) none given = search (lookup_rules, Reads-get_property) depth 12
Reads-resolve_property none none given = search lookup_rules

Reads-authorize_role :
    (r : UserRole) (e : Error) (i : ℕ) (p c : Option ℕ) (given : Option Contract)
    → Reads (authorize_role r e i p c given)
unfolding authorize_role
Reads-authorize_role admin e i p c given = search lookup_rules
Reads-authorize_role manager e i p c given = search (lookup_rules, Reads-resolve_property)
Reads-authorize_role user e i p c given = search lookup_rules

pub Reads-authorize_user_to_property :
    (e : Error) (u : User) (p c : Option ℕ) (given : Option Contract)
    → Reads (authorize_user_to_property e u p c given)
unfolding authorize_user_to_property
Reads-authorize_user_to_property e u p c given = Reads-authorize_role u.role e u.id p c given

Reads-require_some :
    {A : Type 0} (get : ℕ → Action (Option A))
    → ((i : ℕ) → Reads (get i))
    → (o : Option ℕ) → Reads (require_some get o)
unfolding require_some
Reads-require_some get k none = search lookup_rules
Reads-require_some get k (some i) = search (lookup_rules, k) depth 8

pub Reads-validate_related_resources : (p c t : Option ℕ) → Reads (validate_related_resources p c t)
unfolding validate_related_resources
Reads-validate_related_resources p c t =
    search
      (lookup_rules, Reads-require_some, Reads-get_property, Reads-get_contract, Reads-get_tenant)
      depth 8

pub ruleset access_reads = (
  lookup_rules, Reads-get_property, Reads-get_contract, Reads-authorize_user_to_property,
  Reads-validate_related_resources,
)
