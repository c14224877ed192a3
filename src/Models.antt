-- ===== src/Models.antt =====
-- The rows of the database tables (app/*/models/*.py), one module per table. Ids (UUIDs) are only
-- compared, so they are numbers; a date is its proleptic ordinal (`date.toordinal`); an amount of
-- money, Numeric(12, 2), is a number of cents; a percentage, Numeric(5, 2), a number of hundredths.
-- `created_at` and `updated_at` are not kept: tables list their rows in order of creation.
pub mod User
pub mod Property
pub mod Tenant
pub mod Contract
pub mod Lease
pub mod BillingRecord
pub mod Payment
pub mod AuditLog
pub mod Collection
pub mod Document
