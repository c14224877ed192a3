-- ===== src/Models/Document.antt =====
-- Stored files and what they belong to (app/documents/models/document.py).
use propnest_api.Base.{ℕ, Option}
use propnest_api.Core.Text.{Text}

pub record Document : Type 0 where
  pub id : ℕ
  pub file_name : Text
  pub file_url : Text
  pub file_type : Text
  pub contract_id : Option ℕ
  pub property_id : Option ℕ
  pub tenant_id : Option ℕ
  pub collection_id : Option ℕ
