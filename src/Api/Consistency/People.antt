-- ===== src/Api/Consistency/People.antt =====
-- The steps of the services of users, tenants, collections and documents keep the tables consistent.
use propnest_api.Base.{ℕ, Option, none, some}
use propnest_api.Core.Session.Keeps.{Keeps}
use propnest_api.Core.Constraints.Consistent.{IsConsistent}
use propnest_api.Core.Access.Consistent.{shared_rules}
use propnest_api.Models.User.{User, UserRole, admin, manager, user}
use propnest_api.Models.Collection.{Collection}
use propnest_api.Collections
use propnest_api.Documents.Links
use propnest_api.Models.Document.{Document}
use propnest_api.Tenants
use propnest_api.Identity.Passwords.{Passwords}
use propnest_api.Identity.Users
use propnest_api.Core.Patch.{Patch, value, absent, null}
use propnest_api.Core.Text.{Text}

pub Keeps-user_admin : (u : User) → Keeps IsConsistent (Users.require_admin u)
unfolding Users.require_admin
Keeps-user_admin u = search shared_rules

pub Keeps-authorize_self_or_admin :
    (u : User) (i : ℕ) → Keeps IsConsistent (Users.authorize_self_or_admin u i)
unfolding Users.authorize_self_or_admin
Keeps-authorize_self_or_admin u i = search shared_rules

pub Keeps-user_email : (i : ℕ) (p : Patch Text) → Keeps IsConsistent (Users.check_email i p)
unfolding Users.check_email
Keeps-user_email i (value e) = search shared_rules
Keeps-user_email i absent = search shared_rules
Keeps-user_email i null = search shared_rules

pub Keeps-check_username : (i : ℕ) (p : Patch Text) → Keeps IsConsistent (Users.check_username i p)
unfolding Users.check_username
Keeps-check_username i (value e) = search shared_rules
Keeps-check_username i absent = search shared_rules
Keeps-check_username i null = search shared_rules

pub Keeps-verify_current_password :
    (pw : Passwords) (o : Option Text) (u : User)
    → Keeps IsConsistent (Users.verify_current_password pw o u)
unfolding Users.verify_current_password
Keeps-verify_current_password pw none u = search shared_rules
Keeps-verify_current_password pw (some p) u = search shared_rules

pub Keeps-reauthenticate :
    (pw : Passwords) (i : ℕ) (p : Users.UserUpdate) (u : User)
    → Keeps IsConsistent (Users.reauthenticate pw i p u)
unfolding Users.reauthenticate
Keeps-reauthenticate pw i p u = search (shared_rules, Keeps-verify_current_password)

pub Keeps-role_to_tenant :
    (r : UserRole) (u i : ℕ) → Keeps IsConsistent (Tenants.authorize_role_to_tenant r u i)
unfolding Tenants.authorize_role_to_tenant
Keeps-role_to_tenant admin u i = search shared_rules
Keeps-role_to_tenant manager u i = search shared_rules
Keeps-role_to_tenant user u i = search shared_rules

pub Keeps-get_tenant : (i : ℕ) (u : User) → Keeps IsConsistent (Tenants.get_tenant i u)
unfolding Tenants.get_tenant Tenants.authorize_user_to_tenant
Keeps-get_tenant i u = search (shared_rules, Keeps-role_to_tenant) depth 10

pub Keeps-tenant_email : (i : ℕ) (p : Patch Text) → Keeps IsConsistent (Tenants.check_email i p)
unfolding Tenants.check_email
Keeps-tenant_email i (value e) = search shared_rules
Keeps-tenant_email i absent = search shared_rules
Keeps-tenant_email i null = search shared_rules

pub Keeps-check_contract :
    (o : Option ℕ) (i : ℕ) → Keeps IsConsistent (Collections.check_contract o i)
unfolding Collections.check_contract
Keeps-check_contract none i = search shared_rules
Keeps-check_contract (some c) i = search shared_rules depth 10

pub Keeps-prepare_collection_context :
    (u : User) (p : ℕ) (c : Option ℕ)
    → Keeps IsConsistent (Collections.prepare_collection_context u p c)
unfolding Collections.prepare_collection_context
Keeps-prepare_collection_context u p c = search (shared_rules, Keeps-check_contract) depth 10

pub Keeps-get_collection : (i : ℕ) (u : User) → Keeps IsConsistent (Collections.get_collection i u)
unfolding Collections.get_collection
Keeps-get_collection i u = search shared_rules depth 10

pub Keeps-check_update :
    (u : User) (c : Collection) (p : Patch ℕ) → Keeps IsConsistent (Collections.check_update u c p)
unfolding Collections.check_update
Keeps-check_update u c (value i) = search (shared_rules, Keeps-prepare_collection_context)
Keeps-check_update u c absent = search shared_rules
Keeps-check_update u c null = search shared_rules

Keeps-require_collection : (o : Option ℕ) → Keeps IsConsistent (Links.require_collection o)
unfolding Links.require_collection
Keeps-require_collection none = search shared_rules
Keeps-require_collection (some i) = search shared_rules depth 8

Keeps-validate_links : (l : Links.Links) → Keeps IsConsistent (Links.validate_links l)
unfolding Links.validate_links
Keeps-validate_links l = search (shared_rules, Keeps-require_collection)

Keeps-resolve_by_contract :
    (l : Links.Links) (o : Option ℕ) → Keeps IsConsistent (Links.resolve_by_contract l o)
unfolding Links.resolve_by_contract
Keeps-resolve_by_contract l none = search (shared_rules, Keeps-validate_links)
Keeps-resolve_by_contract l (some i) = search (shared_rules, Keeps-validate_links) depth 14

pub Keeps-prepare_document_context :
    (u : User) (d : Option Document) (l : Links.Links)
    → Keeps IsConsistent (Links.prepare_document_context u d l)
unfolding Links.prepare_document_context Links.resolve_document_relationship
Keeps-prepare_document_context u d l = search (shared_rules, Keeps-resolve_by_contract) depth 10

pub Keeps-get_document : (i : ℕ) (u : User) → Keeps IsConsistent (Links.get_document i u)
unfolding Links.get_document
Keeps-get_document i u = search shared_rules depth 10
