-- ===== src/Models/AuditLog/EntityType.antt =====
-- The model names that the services write as `entity_type` of an audit row: strings, by convention.
use propnest_api.Base.{String}

abbrev pub property : String
property = "Property"

abbrev pub contract : String
contract = "Contract"

abbrev pub lease : String
lease = "Lease"

abbrev pub billing_record : String
billing_record = "BillingRecord"

abbrev pub payment : String
payment = "Payment"

abbrev pub tenant : String
tenant = "Tenant"

abbrev pub user : String
user = "User"

abbrev pub document : String
document = "Document"
