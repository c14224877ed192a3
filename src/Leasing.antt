-- ===== src/Leasing.antt =====
-- Contracts and leases (app/leasing).
pub mod Contracts
pub mod Leases
