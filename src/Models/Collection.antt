-- ===== src/Models/Collection.antt =====
-- Groups of documents of one property (app/collections/models/collection.py).
use propnest_api.Base.{ℕ, String, Option}

pub record Collection : Type 0 where
  pub id : ℕ
  pub name : String
  pub description : Option String
  pub property_id : ℕ
  pub contract_id : Option ℕ
