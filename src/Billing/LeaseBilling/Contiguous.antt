-- ===== src/Billing/LeaseBilling/Contiguous.antt =====
-- Generated periods of one lease follow one another.
use propnest_api.Base.{ℕ, sym}
use mathlib.Core.Path.{subst}
use propnest_api.Core.Session.{Session, Store, begin, run}
use propnest_api.Core.Session.Atomic.{ignore}
use propnest_api.Core.Session.Served.{run-keeps}
use propnest_api.Core.Session.Returns.{Returns}
use propnest_api.Models.User.{User}
use propnest_api.Billing.Calendar.Schedule.{
  EndsBefore, IsSchedule, IsSchedule-append, next_period_start-EndsBefore,
}
use propnest_api.Billing.LeaseBilling.{BilledRecord, generate_billing_record}
use propnest_api.Billing.LeaseBilling.Atomic.{Atomic-generate_billing_record}
use propnest_api.Billing.LeaseBilling.Periods.{generate_billing_record-IsNextRecord}

generated-IsSchedule :
    (lid : ℕ) (u : User) (s : Session)
    → IsSchedule s.working.billing_records
    → (b : BilledRecord) (s' : Session) → Returns (generate_billing_record lid u) s b s'
    → IsSchedule s'.committed.billing_records
generated-IsSchedule lid u s schedule b s' h =
    let (next, kept) = generate_billing_record-IsNextRecord lid u s h in
    let ends = next_period_start-EndsBefore next.lease lid _ _ next.starts in
    subst IsSchedule (sym kept) (
      IsSchedule-append s.working.billing_records b.billing_record schedule (
        subst (λ i. EndsBefore i b.billing_record.period_start s.working.billing_records)
          (sym next.of_lease) ends))

-- If the billing periods of each lease follow one another without overlap, in the order in which
-- the records were created, they still do after a `generate_billing_record` request for any lease,
-- whether it succeeds or not.
pub generate_billing_record-IsSchedule :
    (lid : ℕ) (u : User) (d : Store)
    → IsSchedule d.tables.billing_records
    → IsSchedule (run (ignore (generate_billing_record lid u)) d).1.tables.billing_records
generate_billing_record-IsSchedule lid u d schedule =
    run-keeps (generate_billing_record lid u) (λ t. IsSchedule t.billing_records) d
      (Atomic-generate_billing_record lid u) (generated-IsSchedule lid u (begin d) schedule)
      schedule
