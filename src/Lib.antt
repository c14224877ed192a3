-- ===== src/Lib.antt =====
-- propnest-api is the backend of a property manager's portal: properties, the contracts and leases
-- on them, the monthly billing records of a lease, the payments that settle them, the tenants, and
-- the accounts that log in. This library models its services, what the database does for them and
-- what Redis does for the logins, and proves what they keep.
--
-- The parts, and where the code is:
--   Models.*          the rows of the tables (app/*/models/*.py)
--   Core.Error        exceptions (app/core/services/exceptions.py) and the names of constraints
--   Core.Schema       the tables, `find`, `replace`, `remove`; Core.Schema.Rows and .Counts are
--                     the lemmas on them
--   Core.Text         `strip`, `lower`, `upper`, `startswith` of Python on lists of code points
--   Core.Constraints  CHECK, UNIQUE and foreign keys (the `__table_args__` of the models); its
--                     children say what they make of whole tables, table by table in .Rules,
--                     .TenantTable and .UserTable
--   Core.References   the foreign keys when a row is deleted
--   Core.Session      one request's database session (`get_db`, app/db/session.py): an action
--                     takes a session to a result and a session, and `do` chains actions
--   Core.Repository   `BaseRepository` (app/core/repositories/base.py), for any table
--   Core.Audit        `write_audit_log` (app/core/services/audit.py)
--   Core.Access       `ResourceAuthorizationMixin` (app/core/services/base.py)
--   Core.Patch        the fields of an update schema: absent, null or a value
--   Billing.Status    the state machine of a billing record and `apply_payment`
--   Billing.Money     totals, remaining balances and percentages
--   Billing.Calendar  dates, and the periods of a lease
--   Billing.LeaseBilling   `LeaseBillingService` (app/billing/services/lease_billing_service.py)
--   Billing.Reference      reference numbers (app/billing/schemas/payment.py)
--   Billing.Payments       `PaymentService` (app/billing/services/payment_service.py)
--   Leasing.Contracts      `ContractService` (app/leasing/services/contract_service.py)
--   Leasing.Leases         `LeaseService` (app/leasing/services/lease_service.py)
--   Properties             `PropertyService` (app/properties/services/property_service.py)
--   Tenants                `TenantService` (app/crm/services/tenant_service.py)
--   Collections            `CollectionService` (app/collections/services/collection_service.py)
--   Documents.Links        what a document belongs to, and
--   Documents.Uploads      the reading of an uploaded file, of `DocumentService`
--                          (app/documents/services/document_service.py)
--   Identity.Users         `UserService` (app/identity/services/user_service.py)
--   Identity.Passwords     the hashing library as a parameter (app/core/security.py)
--   Identity.Redis         the commands of the Redis server as a parameter with its documented laws
--                          (`IsLawful`), a server in memory that has them, and in .Acts the rules
--                          for code that calls it
--   Identity.LoginAttempts the lockout (app/identity/repositories/login_attempt.py); .Throttle is
--                          its abstract description, and .Refinement compares the two
--   Identity.IpRateLimit   the rate limit (app/identity/repositories/ip_rate_limit.py)
--   Identity.Login         `AuthService.login` (app/identity/services/auth_service.py), and
--                          `get_current_user` (app/core/dependencies.py)
--   Jobs              the daily jobs (app/jobs/billing_jobs.py), each call in a session of its own
--   Api               the requests that change state, and serving them one after the other
--   Tests             a small store, runs of the definitions, and the theorems applied to it
-- A service method has the name that it has in the code. Children named Atomic, Returns, Reads,
-- Keeps, Consistent or Refusal hold the lemmas of that kind for their parent.
--
-- How the services use the rest: a request runs one method in a session. The method looks rows up,
-- asks Core.Access whether the user may manage the property, writes rows through the repository,
-- which checks the constraints, appends an audit row and commits. What it has not committed when it
-- raises is dropped (`run`). Generated ids and the sequence of cash references are outside of the
-- transaction. A login reads the users, and keeps its counters and locks in Redis: it asks the rate
-- limit of the address, then the lockout of the identifier, and only then looks at the password; a
-- call that Redis does not answer ends it.
--
-- Conventions. An id is a number: UUIDs are only compared, and `next_id` supplies new ones, whose
-- freshness the primary key checks. Money is in cents and a percentage in hundredths. A date is its
-- ordinal (`date.toordinal`); past `date.max`, ordinal 3652059, `add_days` gives Python's
-- OverflowError. A table is the list of its rows in order of creation. An IntegrityError carries
-- the constraint that failed, where the code searches the driver's message for its name; CHECKs
-- come first, then UNIQUE, then foreign keys. A text that the code looks into (a reference number, an
-- email, a username, a password) is a list of code points, and is taken to be ASCII. `Passwords` is
-- an argument of what hashes or compares; a hash is taken as a function of the password, since hashes
-- are only ever verified. Time is in seconds, and a login happens at one of them. Loops
-- are structural, but for two that run on fuel: `digits_rev`, which `cash_reference` gives one more
-- than the number, and a number has no more digits than that; and the chunks of an upload, which get
-- more than the largest file has bytes (Documents.Uploads.Whole).
--
-- Not modelled: the text of messages, logging, timestamps of rows, the overflow of NUMERIC columns,
-- payload validation by Pydantic (payloads are taken after it) except where a definition says so,
-- concurrent transactions and logins, the list queries, routes, the storage of files and what creates,
-- replaces and deletes documents, receipts and the dashboard. That a document with receipts cannot be deleted is therefore missing.
pub mod Base
pub mod Models
pub mod Core
pub mod Billing
pub mod Leasing
pub mod Properties
pub mod Tenants
pub mod Identity
pub mod Collections
pub mod Documents
pub mod Api
pub mod Jobs
pub mod Tests
