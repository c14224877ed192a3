-- ===== src/Models/Lease.antt =====
-- Billing terms of a long-term contract (app/leasing/models/lease.py).
use propnest_api.Base.{ℕ, Bool, true, false, Option}

pub data BillingCycle : Type 0 where
  monthly : BillingCycle

pub data RenewalOption : Type 0 where
  auto manual no_renewal : RenewalOption

pub data LeaseStatus : Type 0 where
  active ended : LeaseStatus

pub record Lease : Type 0 where
  pub id : ℕ
  pub contract_id : ℕ
  pub monthly_rent : ℕ
  pub due_day : ℕ
  pub billing_cycle : BillingCycle
  pub security_deposit : Option ℕ
  pub advance_payment : Option ℕ
  pub late_fee_amount : Option ℕ
  pub late_fee_percent : Option ℕ
  pub grace_period_days : ℕ
  pub renewal_option : RenewalOption
  pub status : LeaseStatus
  pub start_date : ℕ
  pub end_date : Option ℕ

abbrev pub is_active : LeaseStatus → Bool
is_active active = true
is_active ended = false
