-- ===== src/Core/Constraints/UserTable.antt =====
-- What the constraints make of the table of users.
use propnest_api.Base.{sym, ℕ, ◌≤◌, ◌≡◌, Bool, true, none, [], ◌∷◌, ◌++◌, List, count, arith}
use propnest_api.Core.Text.{Text, same_text}
use propnest_api.Core.Text.Normal.{same_text→eq}
use propnest_api.Core.Schema.{Tables, find, replace, remove, others, tenant_key, user_key}
use propnest_api.Core.Schema.Rows.{
  DistinctIds, DistinctIds-append, DistinctIds-replace, DistinctIds-remove, count-any-false,
}
use propnest_api.Core.Schema.Counts.{count-remove-le, single-append, single-replace}
use propnest_api.Core.Constraints.{user_violation}
use propnest_api.Models.User.{User}

abbrev pub user_named : Text → User → Bool
user_named username u = same_text u.username username

abbrev pub user_at : Text → User → Bool
user_at email u = same_text u.email email

-- Ids are distinct, and no two users have one username or one email.
pub record UserRules (us : List User) : Type 0 where
  pub ids : DistinctIds us
  pub one_username : (username : Text) → count (user_named username) us ≤ 1
  pub one_email : (email : Text) → count (user_at email) us ≤ 1

username_alone :
    (u : User) (t : Tables) (username : Text)
    → user_violation u t ≡ none
    → user_named username u ≡ true
    → count (user_named username) (others u.id t.users) ≡ 0
unfolding user_violation
username_alone u t username h a =
    rw (sym (same_text→eq u.username username a))
      (ground (arith, count-any-false (user_named u.username) (others u.id t.users)))

user_email_alone :
    (u : User) (t : Tables) (email : Text)
    → user_violation u t ≡ none
    → user_at email u ≡ true
    → count (user_at email) (others u.id t.users) ≡ 0
unfolding user_violation
user_email_alone u t email h a =
    rw (sym (same_text→eq u.email email a))
      (ground (arith, count-any-false (user_at u.email) (others u.id t.users)))

module _ (u : User) (t : Tables) (holds : user_violation u t ≡ none)
    (rules : UserRules t.users) where
  pub UserRules-append : find u.id t.users ≡ none → UserRules (t.users ++ u ∷ [])
  UserRules-append fresh = record {
    ids = DistinctIds-append t.users u rules.ids fresh;
    one_username = λ name.
        single-append (user_named name) t.users u (username_alone u t name holds)
          (rules.one_username name) fresh;
    one_email = λ email.
        single-append (user_at email) t.users u (user_email_alone u t email holds)
          (rules.one_email email) fresh;
  }

  pub UserRules-replace : UserRules (replace u t.users)
  UserRules-replace = record {
    ids = DistinctIds-replace u t.users rules.ids;
    one_username = λ name.
        single-replace (user_named name) t.users u (username_alone u t name holds)
          (rules.one_username name) rules.ids;
    one_email = λ email.
        single-replace (user_at email) t.users u (user_email_alone u t email holds)
          (rules.one_email email) rules.ids;
  }

pub UserRules-remove : (i : ℕ) (us : List User) → UserRules us → UserRules (remove i us)
UserRules-remove i us rules = record {
  ids = DistinctIds-remove i us rules.ids;
  one_username =
      λ name. omega (arith, count-remove-le (user_named name) us i, rules.one_username name);
  one_email = λ email. omega (arith, count-remove-le (user_at email) us i, rules.one_email email);
}
