-- ===== src/Models/Payment.antt =====
-- Payments against a contract (app/billing/models/payment.py). A reference number is the list of
-- its code points.
use propnest_api.Base.{ℕ, Bool, true, false, Option, List}

pub data PaymentStatus : Type 0 where
  paid pending voided refunded : PaymentStatus

-- the canonical values of PAYMENT_METHODS
pub data PaymentMethod : Type 0 where
  cash bank_transfer gcash maya check : PaymentMethod

pub record Payment : Type 0 where
  pub id : ℕ
  pub contract_id : ℕ
  pub billing_record_id : Option ℕ
  pub amount : ℕ
  pub paid_at : ℕ
  pub payment_method : Option PaymentMethod
  pub status : PaymentStatus
  pub reference_number : Option (List ℕ)
  pub corrects_payment_id : Option ℕ

abbrev pub is_voided : PaymentStatus → Bool
is_voided voided = true
is_voided _ = false

abbrev pub is_paid : PaymentStatus → Bool
is_paid paid = true
is_paid _ = false
