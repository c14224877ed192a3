-- ===== src/Core/Constraints/TenantTable.antt =====
-- What the constraints make of the table of tenants.
use propnest_api.Base.{
  refl, sym, ℕ, ◌≤◌, ◌≡◌, Bool, true, none, Option, some, [], ◌∷◌, ◌++◌, List, count, arith, is_id,
}
use mathlib.Core.List.{map}
use propnest_api.Core.Text.{Text, same_text}
use propnest_api.Core.Text.Normal.{same_text→eq}
use propnest_api.Core.Schema.{Tables, HasId, find, replace, remove, others, tenant_key, user_key}
use propnest_api.Core.Schema.Rows.{
  DistinctIds, DistinctIds-append, DistinctIds-replace, DistinctIds-remove, count-any-false,
}
use propnest_api.Core.Schema.Counts.{count-remove-le, single-append, single-replace}
use propnest_api.Core.Constraints.{tenant_violation}
use propnest_api.Core.References.{without}
use propnest_api.Models.Tenant.{Tenant}

abbrev pub tenant_at : Text → Tenant → Bool
tenant_at email n = same_text n.email email

abbrev pub linked_to : ℕ → Tenant → Bool
linked_to i n = is_id n.user_id i

-- Ids are distinct, no two tenants have one email, and no user is linked to two tenants.
pub record TenantRules (ns : List Tenant) : Type 0 where
  pub ids : DistinctIds ns
  pub one_email : (email : Text) → count (tenant_at email) ns ≤ 1
  pub one_link : (i : ℕ) → count (linked_to i) ns ≤ 1

tenant_email_alone :
    (n : Tenant) (t : Tables) (email : Text)
    → tenant_violation n t ≡ none
    → tenant_at email n ≡ true
    → count (tenant_at email) (others n.id t.tenants) ≡ 0
unfolding tenant_violation
tenant_email_alone n t email h a =
    rw (sym (same_text→eq n.email email a))
      (ground (arith, count-any-false (tenant_at n.email) (others n.id t.tenants)))

is_id→eq : (o : Option ℕ) (i : ℕ) → is_id o i ≡ true → o ≡ some i
is_id→eq none i h = cc
is_id→eq (some j) i h = let same : j ≡ i = ground arith in cc

tenant_link_alone :
    (n : Tenant) (t : Tables) (i : ℕ)
    → tenant_violation n t ≡ none
    → linked_to i n ≡ true
    → count (linked_to i) (others n.id t.tenants) ≡ 0
unfolding tenant_violation
tenant_link_alone n t i h a =
    let same : n.user_id ≡ some i = is_id→eq n.user_id i a in
    ground (arith, same, count-any-false (linked_to i) (others n.id t.tenants))

module _ (n : Tenant) (t : Tables) (holds : tenant_violation n t ≡ none)
    (rules : TenantRules t.tenants) where
  pub TenantRules-append : find n.id t.tenants ≡ none → TenantRules (t.tenants ++ n ∷ [])
  TenantRules-append fresh = record {
    ids = DistinctIds-append t.tenants n rules.ids fresh;
    one_email = λ email.
        single-append (tenant_at email) t.tenants n (tenant_email_alone n t email holds)
          (rules.one_email email) fresh;
    one_link = λ i.
        single-append (linked_to i) t.tenants n (tenant_link_alone n t i holds) (rules.one_link i)
          fresh;
  }

  pub TenantRules-replace : TenantRules (replace n t.tenants)
  TenantRules-replace = record {
    ids = DistinctIds-replace n t.tenants rules.ids;
    one_email = λ email.
        single-replace (tenant_at email) t.tenants n (tenant_email_alone n t email holds)
          (rules.one_email email) rules.ids;
    one_link = λ i.
        single-replace (linked_to i) t.tenants n (tenant_link_alone n t i holds) (rules.one_link i)
          rules.ids;
  }

pub TenantRules-remove : (i : ℕ) (ns : List Tenant) → TenantRules ns → TenantRules (remove i ns)
TenantRules-remove i ns rules = record {
  ids = DistinctIds-remove i ns rules.ids;
  one_email = λ email. omega (arith, count-remove-le (tenant_at email) ns i, rules.one_email email);
  one_link = λ j. omega (arith, count-remove-le (linked_to j) ns i, rules.one_link j);
}

-- A change of every row that keeps its id.
module _ {A : Type 0} ⦃k : HasId A⦄ (f : A → A) (same : (a : A) → k.id_of (f a) ≡ k.id_of a) where
  find-map-none : (i : ℕ) (rs : List A) → find i rs ≡ none → find i (map f rs) ≡ none
  find-map-none i [] h = refl
  find-map-none i (r ∷ rs) h = ground (arith, same r, find-map-none i rs)

  DistinctIds-map : (rs : List A) → DistinctIds rs → DistinctIds (map f rs)
  DistinctIds-map [] d = tt
  DistinctIds-map (r ∷ rs) d =
      ground (arith, same r, find-map-none (k.id_of r) rs d.0, DistinctIds-map rs d.1)

count-map-le :
    {A : Type 0} (f : A → A) (p : A → Bool)
    → ((a : A) → p (f a) ≡ true → p a ≡ true)
    → (rs : List A) → count p (map f rs) ≤ count p rs
count-map-le f p k [] = omega arith
count-map-le f p k (r ∷ rs) = ground (arith, k r, count-map-le f p k rs)

-- the tenants after a user is deleted
abbrev pub unlinked : ℕ → Tenant → Tenant
unlinked i n = record n { user_id = without i n.user_id }

unlinked-linked_to :
    (i j : ℕ) (n : Tenant) → linked_to j (unlinked i n) ≡ true → linked_to j n ≡ true
unlinked-linked_to i j n h = ground arith

pub TenantRules-unlink :
    (i : ℕ) (ns : List Tenant) → TenantRules ns → TenantRules (map (unlinked i) ns)
TenantRules-unlink i ns rules = record {
  ids = DistinctIds-map (unlinked i) (λ n. refl) ns rules.ids;
  one_email = λ email.
      omega
        (arith, count-map-le (unlinked i) (tenant_at email) (λ n h. h) ns, rules.one_email email);
  one_link = λ j. omega (
    arith,
    count-map-le (unlinked i) (linked_to j) (unlinked-linked_to i j) ns,
    rules.one_link j,
  );
}
