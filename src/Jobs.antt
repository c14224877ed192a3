-- ===== src/Jobs.antt =====
-- The two daily jobs (app/jobs/billing_jobs.py). Each lease or record is handled in a session of its
-- own; an exception other than the one that is caught ends the job, and what was committed stays.
pub mod Growth
use propnest_api.Base.{
  ℕ, ◌+◌, Bool, true, false, List, [], ◌∷◌, ◌&&◌, filter, is_some, if◌then◌else◌,
}
use propnest_api.Core.Error.{Error, Result, ok, err, billing_record_already_generated, map_ok}
use propnest_api.Core.Schema.{Tables, find, lease_key}
use propnest_api.Core.Session.{Store, run}
use propnest_api.Models.User.{User}
use propnest_api.Models.Lease
use propnest_api.Models.Lease.{Lease}
use propnest_api.Models.BillingRecord.{BillingRecord, is_unpaid}
use propnest_api.Billing.LeaseBilling.{BilledRecord, generate_billing_record, evaluate_overdue}

-- `get_active`
abbrev pub get_active : Tables → List Lease
get_active t = filter (λ l. Lease.is_active l.status) t.leases

-- the records of `get_unpaid_with_grace`: an inner join with the leases
abbrev pub get_unpaid : Tables → List BillingRecord
get_unpaid t =
    filter (λ r. is_unpaid r.status && is_some (find r.lease_id t.leases)) t.billing_records

-- `except BillingRecordAlreadyGeneratedError`
abbrev pub is_already_generated : Error → Bool
is_already_generated billing_record_already_generated = true
is_already_generated _ = false

-- the numbers that a job logs, and the exception that ended it
abbrev pub Outcome : Type 0
Outcome = Result (ℕ × ℕ) × Store

-- `generated += 1`, and `skipped += 1`
abbrev pub one_generated : ℕ × ℕ → ℕ × ℕ
one_generated (g, k) = (g + 1, k)

abbrev pub one_skipped : ℕ × ℕ → ℕ × ℕ
one_skipped (g, k) = (g, k + 1)

-- one turn of the loop: what the call gave, what the rest of the loop does, and what there is
abbrev pub turn : Result BilledRecord → Outcome → Store → Outcome
turn (ok b) (r, rest) d = (map_ok one_generated r, rest)
turn (err e) (r, rest) d =
    if is_already_generated e then (map_ok one_skipped r, rest) else (err e, d)

unfoldable pub generate_each : User → List Lease → Store → Outcome
generate_each u [] d = (ok (0, 0), d)
generate_each u (l ∷ ls) d =
    let (r, d') = run (generate_billing_record l.id u) d in turn r (generate_each u ls d') d'

unfoldable pub generate_due_billing_records : User → Store → Outcome
unfolding generate_each
generate_due_billing_records system_user d = generate_each system_user (get_active d.tables) d

-- the number that the second job logs
abbrev pub one_evaluated : Result BilledRecord → Result ℕ × Store → Store → Result ℕ × Store
one_evaluated (ok b) (r, rest) d = (map_ok (λ n. n + 1) r, rest)
one_evaluated (err e) rest d = (err e, d)

unfoldable pub evaluate_each : User → ℕ → List BillingRecord → Store → Result ℕ × Store
evaluate_each u today [] d = (ok 0, d)
evaluate_each u today (r ∷ rs) d =
    let (res, d') = run (evaluate_overdue r.id u today) d in
    one_evaluated res (evaluate_each u today rs d') d'

unfoldable pub evaluate_overdue_billing_records : User → ℕ → Store → Result ℕ × Store
unfolding evaluate_each
evaluate_overdue_billing_records system_user today d =
    evaluate_each system_user today (get_unpaid d.tables) d
