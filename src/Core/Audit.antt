-- ===== src/Core/Audit.antt =====
-- `write_audit_log` (app/core/services/audit.py): a row of the session, neither flushed nor committed.
pub mod Returns
use propnest_api.Base.{String, some, ℕ, [], ◌∷◌, ◌++◌}
use propnest_api.Core.Error.{ok}
use propnest_api.Core.Session.{Action}
use propnest_api.Models.User.{User}
use propnest_api.Models.AuditLog.{AuditLog, AuditAction}

abbrev pub entry : User → AuditAction → String → ℕ → AuditLog
entry user action type id = record {
  actor_id = some user.id;
  action = action;
  entity_type = type;
  entity_id = id;
}

unfoldable pub write_audit_log : User → AuditAction → String → ℕ → Action (Unit {0})
write_audit_log user action type id s = (
  ok tt,
  record s {
    working = record (s.working) {
      audit_logs = s.working.audit_logs ++ entry user action type id ∷ [];
    };
  },
)
