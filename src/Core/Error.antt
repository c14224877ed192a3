-- ===== src/Core/Error.antt =====
-- Exceptions (app/core/services/exceptions.py), and the results of code that may raise. The
-- messages are not modelled.
use propnest_api.Base.{ℕ, Bool, true, false}

-- The constraints of the schema, as the migrations name them. `primary_key` and `not_null` stand
-- for those of every table, but for the columns `email` and `username`; the foreign keys are named
-- for their column.
pub data Constraint : Type 0 where
  primary_key not_null : Constraint
  uq_property_name_address fk_property_manager : Constraint
  ck_contract_dates ck_contract_rent_positive ck_contract_deposit_positive : Constraint
  uq_active_contract_property fk_contract_property fk_contract_tenant : Constraint
  ck_lease_monthly_rent_positive ck_lease_due_day_range : Constraint
  ck_lease_security_deposit_positive ck_lease_advance_payment_positive : Constraint
  ck_lease_late_fee_exactly_one ck_lease_late_fee_amount_positive : Constraint
  ck_lease_late_fee_percent_range ck_lease_dates uq_lease_contract_id fk_lease_contract : Constraint
  ck_billing_record_amount_due_positive ck_billing_record_late_fee_amount_positive : Constraint
  ck_billing_record_overpaid_amount_positive ck_billing_record_late_fee_consistency : Constraint
  ck_billing_record_period_dates ck_billing_record_due_date_after_period_start : Constraint
  uq_billing_record_lease_id_period_start fk_billing_record_lease : Constraint
  fk_payment_contract fk_payment_billing_record fk_payment_corrects : Constraint
  not_null_email not_null_username ix_users_email ix_users_username : Constraint
  ix_tenants_email ix_tenants_user_id fk_tenant_user : Constraint
  fk_collection_property fk_collection_contract : Constraint
  fk_document_contract fk_document_property fk_document_tenant fk_document_collection : Constraint

-- The exceptions of the services, without their base class; those of receipts, of templates, of the
-- activity feed and of storage, and the general ones, are raised by nothing that is modelled.
-- `integrity` is SQLAlchemy's IntegrityError, with the constraint that the driver's message names;
-- `overflow` and `type_error` are Python's; `validation` is the ValueError of a request schema. The
-- two errors of the throttles come with the seconds to wait. `user_no_longer_exists` and
-- `session_invalidated` are HTTPExceptions of `get_current_user`, and `invalid_token` and
-- `account_inactive` stand for its other two as well.
pub data Error : Type 0 where
  related_resource_not_found user_not_found : Error
  resource_forbidden contract_forbidden property_forbidden payment_forbidden : Error
  lease_forbidden billing_record_forbidden dashboard_forbidden : Error
  contract_active contract_in_use property_already_exists property_in_use : Error
  property_manager_assignment lease_rental_type lease_already_exists : Error
  billing_record_already_generated invalid_billing_record_transition : Error
  billing_record_correction_not_allowed payment_already_voided : Error
  tenant_forbidden tenant_already_exists tenant_already_linked tenant_in_use : Error
  user_forbidden email_already_exists username_already_exists : Error
  manager_assigned_to_property current_password_required invalid_credentials : Error
  collection_forbidden collection_validation : Error
  document_upload document_forbidden document_validation : Error
  unauthorized forbidden token_expired document_deletion document_storage_inconsistent : Error
  activity_feed_forbidden receipt_forbidden receipt_creation : Error
  receipt_template_forbidden receipt_template_upload receipt_template_validation : Error
  ip_rate_limit_exceeded account_locked : ℕ → Error
  login_throttle_unavailable : Error
  invalid_token user_no_longer_exists account_inactive session_invalidated : Error
  integrity : Constraint → Error
  overflow type_error validation : Error

-- `isinstance(e, ResourceForbiddenError)`
abbrev pub is_forbidden : Error → Bool
is_forbidden resource_forbidden = true
is_forbidden contract_forbidden = true
is_forbidden property_forbidden = true
is_forbidden payment_forbidden = true
is_forbidden lease_forbidden = true
is_forbidden billing_record_forbidden = true
is_forbidden dashboard_forbidden = true
is_forbidden tenant_forbidden = true
is_forbidden collection_forbidden = true
is_forbidden document_forbidden = true
is_forbidden activity_feed_forbidden = true
is_forbidden receipt_forbidden = true
is_forbidden receipt_template_forbidden = true
is_forbidden _ = false

pub data Result {ℓ} (A : Type ℓ) : Type ℓ where
  ok : A → Result A
  err : Error → Result A

abbrev pub map_ok {ℓ κ} : {A : Type ℓ} {B : Type κ} → (A → B) → Result A → Result B
map_ok f (ok a) = ok (f a)
map_ok f (err e) = err e
