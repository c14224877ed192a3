-- ===== src/Models/Property.antt =====
-- Managed properties (app/properties/models/property.py).
use propnest_api.Base.{ℕ, String, Bool, true, false, Option}

pub data PropertyStatus : Type 0 where
  vacant occupied : PropertyStatus

pub record Property : Type 0 where
  pub id : ℕ
  pub name : String
  pub address : String
  pub description : Option String
  pub manager_id : Option ℕ
  pub status : PropertyStatus
  pub is_active : Bool

abbrev pub is_vacant : PropertyStatus → Bool
is_vacant vacant = true
is_vacant occupied = false
