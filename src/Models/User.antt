-- ===== src/Models/User.antt =====
-- Portal accounts (app/identity/models/user.py).
use propnest_api.Core.Text.{Text}
use propnest_api.Base.{ℕ, String, Bool, true, false}

pub data UserRole : Type 0 where
  admin manager user : UserRole

pub record User : Type 0 where
  pub id : ℕ
  pub username : Text
  pub email : Text
  pub full_name : String
  pub password_hash : Text
  pub password_changed_at : ℕ
  pub role : UserRole
  pub is_active : Bool

abbrev pub is_admin : UserRole → Bool
is_admin admin = true
is_admin _ = false

abbrev pub is_manager : UserRole → Bool
is_manager manager = true
is_manager _ = false

-- `role in (ADMIN, MANAGER)`
abbrev pub is_staff : UserRole → Bool
is_staff user = false
is_staff _ = true
