-- ===== src/Billing/Calendar.antt =====
-- Dates as ordinals, and the billing periods of a lease
-- (app/billing/services/lease_billing_service.py, `generate_billing_record`).
pub mod Schedule
use propnest_api.Base.{ℕ, ◌+◌, Option, none, some, List, [], ◌∷◌, leb, ltb, ◌==◌, if◌then◌else◌}
use propnest_api.Core.Error.{Result, ok, err, overflow}
use propnest_api.Models.BillingRecord.{BillingRecord}
use propnest_api.Models.Lease.{Lease, BillingCycle, monthly}

-- `date.max.toordinal()`
abbrev pub max_ordinal : ℕ
max_ordinal = 3652059

-- `d + timedelta(days=n)`
unfoldable pub add_days : ℕ → ℕ → Result ℕ
add_days d n = if leb (d + n) max_ordinal then ok (d + n) else err overflow

-- `_CYCLE_LENGTH_DAYS`
abbrev pub cycle_length_days : BillingCycle → ℕ
cycle_length_days monthly = 30

-- the later of two records by `period_end`; of equal ones the first
abbrev pub later : BillingRecord → Option BillingRecord → BillingRecord
later r none = r
later r (some q) = if ltb r.period_end q.period_end then q else r

-- `get_latest_for_lease`: ORDER BY period_end DESC LIMIT 1
unfoldable pub latest_for_lease : ℕ → List BillingRecord → Option BillingRecord
latest_for_lease lid [] = none
latest_for_lease lid (r ∷ rs) =
    let rest = latest_for_lease lid rs in if r.lease_id == lid then some (later r rest) else rest

-- the day after the latest record's period, or the lease's first day
unfoldable pub next_period_start : Lease → Option BillingRecord → Result ℕ
unfolding add_days
next_period_start lease none = ok lease.start_date
next_period_start lease (some latest) = add_days latest.period_end 1
