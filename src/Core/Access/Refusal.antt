-- ===== src/Core/Access/Refusal.antt =====
-- Authorization refuses every plain user.
use propnest_api.Base.{ℕ, Option, ◌≡◌}
use propnest_api.Core.Error.{Error}
use propnest_api.Core.Session.Denied.{Denied, Denied-raise}
use propnest_api.Core.Access.{authorize_user_to_property, authorize_role}
use propnest_api.Models.User.{User, user}
use propnest_api.Models.Contract.{Contract}

pub Denied-authorize_user_to_property :
    (u : User)
    → u.role ≡ user
    → (e : Error) (p c : Option ℕ) (given : Option Contract)
    → Denied (authorize_user_to_property e u p c given)
unfolding authorize_user_to_property
Denied-authorize_user_to_property u plain e p c given = rw (plain, authorize_role) (Denied-raise e)
