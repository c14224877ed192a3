-- ===== src/Billing.antt =====
-- Billing of leases and payments (app/billing).
pub mod Status
pub mod Money
pub mod Calendar
pub mod LeaseBilling
pub mod Reference
pub mod Payments
