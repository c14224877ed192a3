-- ===== src/Models/Contract.antt =====
-- Tenancy contracts (app/leasing/models/contract.py).
use propnest_api.Base.{ℕ, Bool, true, false, Option}

pub data RentalType : Type 0 where
  long_term short_term : RentalType

pub data BookingSource : Type 0 where
  direct airbnb booking agoda : BookingSource

pub data ContractStatus : Type 0 where
  active expired terminated : ContractStatus

pub record Contract : Type 0 where
  pub id : ℕ
  pub property_id : ℕ
  pub tenant_id : ℕ
  pub rental_type : RentalType
  pub start_date : ℕ
  pub end_date : Option ℕ
  pub rent_amount : ℕ
  pub deposit : Option ℕ
  pub booking_source : BookingSource
  pub status : ContractStatus

abbrev pub is_active : ContractStatus → Bool
is_active active = true
is_active _ = false

abbrev pub is_long_term : RentalType → Bool
is_long_term long_term = true
is_long_term short_term = false

-- `==` on an enumeration
abbrev pub same_status : ContractStatus → ContractStatus → Bool
same_status active active = true
same_status expired expired = true
same_status terminated terminated = true
same_status _ _ = false
