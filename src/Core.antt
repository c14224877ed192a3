-- ===== src/Core.antt =====
-- What all services share: exceptions, the database with its constraints, the session and its
-- transactions, the generic repository, the audit trail, and authorization (app/core, app/db).
pub mod Text
pub mod Error
pub mod Schema
pub mod Constraints
pub mod References
pub mod Session
pub mod Repository
pub mod Audit
pub mod Access
pub mod Patch
