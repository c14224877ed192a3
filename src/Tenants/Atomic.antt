-- ===== src/Tenants/Atomic.antt =====
-- `TenantService` commits last: a method that raises has committed nothing.
use propnest_api.Base.{ℕ}
use propnest_api.Core.Patch.{Patch, absent, null, value}
use propnest_api.Core.Text.{Text}
use propnest_api.Core.Session.Atomic.{NoCommit, Atomic, total_rules, Atomic-Total, atomic_rules}
use propnest_api.Core.Access.Atomic.{access_rules}
use propnest_api.Models.User.{User, UserRole, admin, manager, user}
use propnest_api.Tenants.{
  TenantCreate, TenantUpdate, authorize_role_to_tenant, authorize_user_to_tenant, get_tenant,
  create_tenant, check_email, update_tenant, delete_tenant, link_user, unlink_user,
}

NoCommit-authorize_role_to_tenant :
    (r : UserRole) (u i : ℕ) → NoCommit (authorize_role_to_tenant r u i)
unfolding authorize_role_to_tenant
NoCommit-authorize_role_to_tenant admin u i = search access_rules
NoCommit-authorize_role_to_tenant manager u i = search access_rules
NoCommit-authorize_role_to_tenant user u i = search access_rules

NoCommit-authorize_user_to_tenant : (u : User) (i : ℕ) → NoCommit (authorize_user_to_tenant u i)
unfolding authorize_user_to_tenant
NoCommit-authorize_user_to_tenant u i = NoCommit-authorize_role_to_tenant u.role u.id i

NoCommit-get_tenant : (i : ℕ) (u : User) → NoCommit (get_tenant i u)
unfolding get_tenant
NoCommit-get_tenant i u = search (access_rules, NoCommit-authorize_user_to_tenant) depth 10

NoCommit-check_email : (i : ℕ) (p : Patch Text) → NoCommit (check_email i p)
unfolding check_email
NoCommit-check_email i (value e) = search access_rules
NoCommit-check_email i absent = search access_rules
NoCommit-check_email i null = search access_rules

ruleset tenant_rules = (
  atomic_rules, access_rules, Atomic-Total, total_rules, NoCommit-get_tenant, NoCommit-check_email,
)

pub Atomic-create_tenant : (p : TenantCreate) (u : User) → Atomic (create_tenant p u)
unfolding create_tenant
Atomic-create_tenant p u = search tenant_rules depth 20

pub Atomic-update_tenant : (i : ℕ) (p : TenantUpdate) (u : User) → Atomic (update_tenant i p u)
unfolding update_tenant
Atomic-update_tenant i p u = search tenant_rules depth 20

pub Atomic-delete_tenant : (i : ℕ) (u : User) → Atomic (delete_tenant i u)
unfolding delete_tenant
Atomic-delete_tenant i u = search tenant_rules depth 20

pub Atomic-link_user : (i j : ℕ) (u : User) → Atomic (link_user i j u)
unfolding link_user
Atomic-link_user i j u = search tenant_rules depth 24

pub Atomic-unlink_user : (i : ℕ) (u : User) → Atomic (unlink_user i u)
unfolding unlink_user
Atomic-unlink_user i u = search tenant_rules depth 20
