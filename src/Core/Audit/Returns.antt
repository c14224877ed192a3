-- ===== src/Core/Audit/Returns.antt =====
-- The end of the mutating methods: audit row, commit, result.
use propnest_api.Base.{String, ℕ, ◌≡◌, ap, ◌∙◌, ◌++◌, ◌∷◌, [], arith}
use propnest_api.Core.Schema.{Tables}
use propnest_api.Core.Session.{Session, pure, commit, ◌>>◌}
use propnest_api.Core.Session.Returns.{Returns, >>=-Returns, pure-Returns, commit-Returns}
use propnest_api.Core.Audit.{write_audit_log, entry}
use propnest_api.Models.User.{User}
use propnest_api.Models.AuditLog.{AuditAction}

module _ (user : User) (action : AuditAction) (type : String) (id : ℕ) where
  -- the tables with the audit row
  abbrev pub audited : Tables → Tables
  audited t = record t { audit_logs = t.audit_logs ++ entry user action type id ∷ [] }

  pub write_audit_log-Returns :
      (s : Session) {u : Unit {0}} {s' : Session}
      → Returns (write_audit_log user action type id) s u s'
      → s' ≡ record s { working = audited s.working }
  unfolding write_audit_log
  write_audit_log-Returns s h = ground arith

  -- What is committed are the tables with the audit row.
  pub finish-Returns :
      {A : Type 0} (result : A) (s : Session) {a : A} {s' : Session}
      → Returns (do write_audit_log user action type id; commit; pure result) s a s'
      → (s'.committed ≡ audited s.working) × (a ≡ result)
  finish-Returns result s h =
      let (x, s₁, h₁, h₂) = >>=-Returns (write_audit_log user action type id) _ s h in
      let (y, s₂, h₃, h₄) = >>=-Returns commit _ s₁ h₂ in
      let e = commit-Returns s₁ h₃ in
      let (r, p) = pure-Returns result s₂ h₄ in
      (ap (λ t. t.committed) (p ∙ e) ∙ ap (λ t. t.working) (write_audit_log-Returns s h₁), r)
