-- ===== src/Api/Refusal.antt =====
-- Who may change anything: a plain user may only change the own account.
use mathlib.Core.Path.{ap, sym, subst}
use propnest_api.Core.Session.Returns.{pure-Returns, >>=-Returns}
use propnest_api.Identity.Users.Own.{update_user-OwnChange, OwnChange}
use propnest_api.Core.Error.{ok, Result, err, Error}
use propnest_api.Base.{
  refl, Bool-cases, arith, inr, inl, true, ◌⊎◌, not, false, Option, ◌==◌, Bool, ℕ, ◌≡◌,
}
use propnest_api.Core.Session.{begin, raise_if, Store}
use propnest_api.Core.Session.Atomic.{ignore}
use propnest_api.Core.Session.Denied.{
  Denied-ignore, Denied-first, Denied-raise, Denied, Denied-raise_if, denied_rules,
}
use propnest_api.Core.Access.Refusal.{Denied-authorize_user_to_property}
use propnest_api.Models.User.{is_staff, User, user}
use propnest_api.Billing.LeaseBilling
use propnest_api.Billing.LeaseBilling.{load_lease, load_record}
use propnest_api.Billing.Payments
use propnest_api.Billing.Payments.{prepare_payment_context}
use propnest_api.Leasing.Contracts
use propnest_api.Leasing.Contracts.{prepare_contract_context}
use propnest_api.Leasing.Leases
use propnest_api.Leasing.Leases.{prepare_lease_context}
use propnest_api.Properties
use propnest_api.Collections
use propnest_api.Documents.Links
use propnest_api.Tenants
use propnest_api.Identity.Passwords.{Passwords}
use propnest_api.Identity.Users
use propnest_api.Api.Atomic.{handle-Atomic}
use propnest_api.Api.{run, Request, handle, serve, update_user}

-- a change of the own account
abbrev pub is_own_account : User → Request → Bool
is_own_account u (update_user i p) = u.id == i
is_own_account u _ = false

module _ (u : User) (plain : u.role ≡ user) where
  ruleset refusals = (denied_rules, Denied-authorize_user_to_property)

  Denied-load_lease : (i : ℕ) → Denied (load_lease i u)
  unfolding load_lease
  Denied-load_lease i = search refusals depth 10

  Denied-load_record : (i : ℕ) → Denied (load_record i u)
  unfolding load_record
  Denied-load_record i = search (refusals, Denied-load_lease) depth 10

  Denied-prepare_payment_context : (i : ℕ) → Denied (prepare_payment_context u i)
  unfolding prepare_payment_context
  Denied-prepare_payment_context i = search refusals depth 10

  Denied-prepare_contract_context : (p t : ℕ) → Denied (prepare_contract_context u p t)
  unfolding prepare_contract_context
  Denied-prepare_contract_context p t = search refusals depth 10

  Denied-get_contract : (i : ℕ) → Denied (Contracts.get_contract i u)
  unfolding Contracts.get_contract
  Denied-get_contract i = search refusals depth 10

  Denied-prepare_lease_context : (i : ℕ) → Denied (prepare_lease_context u i)
  unfolding prepare_lease_context
  Denied-prepare_lease_context i = search refusals depth 10

  Denied-get_lease : (i : ℕ) → Denied (Leases.get_lease i u)
  unfolding Leases.get_lease
  Denied-get_lease i = search refusals depth 10

  Denied-get_property : (i : ℕ) → Denied (Properties.get_property i u)
  unfolding Properties.get_property
  Denied-get_property i = rw plain (search (refusals, Denied-raise_if) depth 10)

  -- the check that only admins pass
  Denied-admin_only : Denied (Properties.require_admin u)
  unfolding Properties.require_admin
  Denied-admin_only = rw plain (Denied-raise_if _)

  Denied-users_admin_only : Denied (Users.require_admin u)
  unfolding Users.require_admin
  Denied-users_admin_only = rw plain (Denied-raise_if _)

  Denied-authorize_self_or_admin :
      (i : ℕ) → (u.id == i) ≡ false → Denied (Users.authorize_self_or_admin u i)
  unfolding Users.authorize_self_or_admin
  Denied-authorize_self_or_admin i other = rw (plain, other) (Denied-raise_if _)

  Denied-staff_only : (e : Error) → Denied (raise_if (not (is_staff u.role)) e)
  Denied-staff_only e = rw plain (Denied-raise_if e)

  Denied-authorize_user_to_tenant : (i : ℕ) → Denied (Tenants.authorize_user_to_tenant u i)
  unfolding Tenants.authorize_user_to_tenant Tenants.authorize_role_to_tenant
  Denied-authorize_user_to_tenant i = rw (plain, Tenants.authorize_role_to_tenant) (Denied-raise _)

  Denied-get_tenant : (i : ℕ) → Denied (Tenants.get_tenant i u)
  unfolding Tenants.get_tenant
  Denied-get_tenant i = search (denied_rules, Denied-authorize_user_to_tenant) depth 10

  Denied-prepare_collection_context :
      (p : ℕ) (c : Option ℕ) → Denied (Collections.prepare_collection_context u p c)
  unfolding Collections.prepare_collection_context
  Denied-prepare_collection_context p c = search refusals depth 10

  Denied-get_collection : (i : ℕ) → Denied (Collections.get_collection i u)
  unfolding Collections.get_collection
  Denied-get_collection i = search refusals depth 10

  Denied-get_document : (i : ℕ) → Denied (Links.get_document i u)
  unfolding Links.get_document
  Denied-get_document i = search refusals depth 10

  ruleset entry_refusals = (
    Denied-get_document, refusals, Denied-load_lease, Denied-load_record,
    Denied-prepare_payment_context, Denied-prepare_contract_context, Denied-get_contract,
    Denied-prepare_lease_context, Denied-get_lease, Denied-get_property, Denied-admin_only,
    Denied-users_admin_only, Denied-staff_only, Denied-get_tenant,
    Denied-prepare_collection_context, Denied-get_collection,
  )

  module _ (pw : Passwords) where
    Denied-update_user :
        (i : ℕ) (p : Users.UserUpdate) → (u.id == i) ≡ false → Denied (Users.update_user pw i p u)
    unfolding Users.update_user
    Denied-update_user i p other = Denied-first _ _ (Denied-authorize_self_or_admin i other)

    handle-Denied : (q : Request) → is_own_account u q ≡ false → Denied (handle pw u q)
    unfolding handle LeaseBilling.generate_billing_record LeaseBilling.evaluate_overdue
        LeaseBilling.write_off_billing_record LeaseBilling.correct_late_fee Payments.create_payment
        Payments.update_payment Payments.void_and_correct_payment Payments.delete_payment
        Contracts.create_contract Contracts.update_contract Contracts.delete_contract
        Leases.create_lease Leases.update_lease Leases.delete_lease Properties.create_property
        Properties.update_property Properties.delete_property Properties.assign_manager
        Tenants.create_tenant Tenants.update_tenant Tenants.delete_tenant Tenants.link_user
        Tenants.unlink_user Users.delete_user Collections.create_collection
        Collections.update_collection Collections.delete_collection Links.update_document
    handle-Denied (update_user i p) other = Denied-ignore _ (Denied-update_user i p other)
    handle-Denied _ other = search entry_refusals

    -- the request raises, and no table changes
    abbrev pub Refused : Request → Store → Type 0
    Refused q d =
        (e : Error) × ((run (handle pw u q) d).0 ≡ err e) × ((serve pw u q d).tables ≡ d.tables)

    handle-Refused :
        (q : Request) (d : Store) (e : Error) → (run (handle pw u q) d).0 ≡ err e → Refused q d
    unfolding serve
    handle-Refused q d e h = (e, h, (handle-Atomic pw u q).on_error (begin d) e h)

    own_account :
        (i : ℕ) (p : Users.UserUpdate) (d : Store) (r : Result (Unit {0}))
        → (u.id == i) ≡ true
        → (run (handle pw u (update_user i p)) d).0 ≡ r
        → Refused (update_user i p) d ⊎ OwnChange u d.tables (serve pw u (update_user i p) d).tables
    unfolding serve handle ignore
    own_account i p d (err e) own h = inl (handle-Refused (update_user i p) d e h)
    own_account i p d (ok x) own h =
        let s = begin d in
        let (v, s₁, h₁, k₁) =
          >>=-Returns (Users.update_user pw i p u) _ s
            (λ j. (h j, (handle pw u (update_user i p) s).1)) in
        let (y, same) = pure-Returns tt s₁ k₁ in
        let own_id : i ≡ u.id = ground arith in
        inr (
          subst (OwnChange u d.tables) (sym (ap (λ t. t.committed) same))
            (update_user-OwnChange pw u p s plain (rw own_id at h₁)))

    -- A request of a user who is neither admin nor manager raises and changes no table, or it is an
    -- update of the user's own account, which replaces the user's row by one with the same id and
    -- role, adds an audit row, and changes nothing else.
    pub serve_plain_user :
        (q : Request) (d : Store)
        → Refused q d ⊎ (is_own_account u q ≡ true) × OwnChange u d.tables (serve pw u q d).tables
    serve_plain_user q d = elim (Bool-cases (is_own_account u q)) [
      | inr other ↦
          let (e, h) = (handle-Denied q other).error (begin d) in inl (handle-Refused q d e h)
      | inl own ↦ changed q d own
    ]
      where
        changed :
            (q : Request) (d : Store)
            → is_own_account u q ≡ true
            → Refused q d
              ⊎ (is_own_account u q ≡ true) × OwnChange u d.tables (serve pw u q d).tables
        changed (update_user i p) d own =
            elim (own_account i p d (run (handle pw u (update_user i p)) d).0 own refl) [
              | inl raised ↦ inl raised
              | inr change ↦ inr (own, change)
            ]
        changed _ d own = ground arith
