-- ===== src/Models/Tenant.antt =====
-- Tenants (app/crm/models/tenant.py).
use propnest_api.Core.Text.{Text}
use propnest_api.Base.{ℕ, String, Bool, Option}

pub record Tenant : Type 0 where
  pub id : ℕ
  pub full_name : String
  pub email : Text
  pub phone_number : String
  pub current_address : String
  pub date_of_birth : ℕ
  pub occupation : Option String
  pub notes : Option String
  pub is_active : Bool
  pub user_id : Option ℕ
