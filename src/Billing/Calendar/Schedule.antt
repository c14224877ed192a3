-- ===== src/Billing/Calendar/Schedule.antt =====
-- The periods of one lease follow one another: the pure part, on lists of records.
use propnest_api.Base.{
  sym, ℕ, ◌<◌, ◌≡◌, Option, none, some, List, [], ◌∷◌, ◌++◌, arith, Option-cases, inl, inr,
}
use propnest_api.Core.Error.{ok}
use propnest_api.Models.BillingRecord.{BillingRecord}
use propnest_api.Models.Lease.{Lease}
use propnest_api.Billing.Calendar.{latest_for_lease, next_period_start}

-- every period of the lease in the list ends before the day
abbrev pub EndsBefore : ℕ → ℕ → List BillingRecord → Type 0
EndsBefore lid day [] = Unit
EndsBefore lid day (r ∷ rs) = (r.lease_id ≡ lid → r.period_end < day) × EndsBefore lid day rs

-- every period of the record's lease in the list starts after the record's has ended
abbrev pub StartsAfter : BillingRecord → List BillingRecord → Type 0
StartsAfter r [] = Unit
StartsAfter r (q ∷ qs) =
    (q.lease_id ≡ r.lease_id → r.period_end < q.period_start) × StartsAfter r qs

-- In order of creation, the periods of each lease follow one another and never overlap.
abbrev pub IsSchedule : List BillingRecord → Type 0
IsSchedule [] = Unit
IsSchedule (r ∷ rs) = StartsAfter r rs × IsSchedule rs

-- the day is after the end of the record, if there is one
abbrev PastEnd : ℕ → Option BillingRecord → Type 0
PastEnd day none = Unit
PastEnd day (some q) = q.period_end < day

latest_for_lease-EndsBefore :
    (lid day : ℕ) (rs : List BillingRecord)
    → PastEnd day (latest_for_lease lid rs)
    → EndsBefore lid day rs
unfolding latest_for_lease
latest_for_lease-EndsBefore lid day [] h = tt
latest_for_lease-EndsBefore lid day (r ∷ rs) h = elim (Option-cases (latest_for_lease lid rs)) [
  | inl none_left ↦ ground (arith, latest_for_lease-EndsBefore lid day rs)
  | inr (q, found) ↦ ground (arith, latest_for_lease-EndsBefore lid day rs)
]

next_period_start-PastEnd :
    (lease : Lease) (o : Option BillingRecord) (day : ℕ)
    → next_period_start lease o ≡ ok day
    → PastEnd day o
unfolding next_period_start
next_period_start-PastEnd lease none day h = tt
next_period_start-PastEnd lease (some q) day h = ground arith

-- The next period starts after every period of the lease.
pub next_period_start-EndsBefore :
    (lease : Lease) (lid day : ℕ) (rs : List BillingRecord)
    → next_period_start lease (latest_for_lease lid rs) ≡ ok day
    → EndsBefore lid day rs
next_period_start-EndsBefore lease lid day rs h =
    latest_for_lease-EndsBefore lid day rs (next_period_start-PastEnd lease _ day h)

StartsAfter-append :
    (r : BillingRecord) (rs : List BillingRecord) (n : BillingRecord)
    → StartsAfter r rs
    → (n.lease_id ≡ r.lease_id → r.period_end < n.period_start)
    → StartsAfter r (rs ++ n ∷ [])
StartsAfter-append r [] n a h = (h, tt)
StartsAfter-append r (q ∷ qs) n (a, b) h = (a, StartsAfter-append r qs n b h)

pub IsSchedule-append :
    (rs : List BillingRecord) (n : BillingRecord)
    → IsSchedule rs
    → EndsBefore n.lease_id n.period_start rs
    → IsSchedule (rs ++ n ∷ [])
IsSchedule-append [] n s h = (tt, tt)
IsSchedule-append (r ∷ rs) n (a, s) (e, es) =
    (StartsAfter-append r rs n a (λ same. e (sym same)), IsSchedule-append rs n s es)
