-- ===== src/Models/AuditLog.antt =====
-- The audit trail (app/core/models/audit_log.py). `diff` is always None in this code base.
pub mod EntityType
use propnest_api.Base.{ℕ, Option, String}

pub data AuditAction : Type 0 where
  create update delete : AuditAction

pub record AuditLog : Type 0 where
  pub actor_id : Option ℕ
  pub action : AuditAction
  pub entity_type : String
  pub entity_id : ℕ
