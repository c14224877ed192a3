-- ===== src/Billing/LeaseBilling/Periods.antt =====
-- What a successful `generate_billing_record` has added.
use propnest_api.Core.Schema.Rows.{id_of-find}
use propnest_api.Core.Repository.{billing_record_repo, create, lease_repo, get_by_id}
use propnest_api.Models.AuditLog.{AuditAction}
use propnest_api.Models.AuditLog.EntityType
use propnest_api.Base.{ℕ, ◌≡◌, none, some, [], ◌∷◌, ◌++◌, arith, ap, sym, ◌∙◌}
use propnest_api.Core.Error.{ok, validation}
use propnest_api.Core.Schema.{find, lease_key, Tables}
use propnest_api.Core.Session.{◌>>=◌, ◌>>◌, Session, commit, rethrow}
use propnest_api.Core.Session.Returns.{
  Returns, >>=-Returns, rethrow-Returns, pure-Returns, or_raise-Returns, query-Returns,
  lift-Returns, commit-Returns,
}
use propnest_api.Core.Session.Reads.{
  Reads, Reads-step, Reads-query, Reads-lift, Reads-raise_if, Reads-Returns,
}
use propnest_api.Core.Access.Reads.{access_reads, Reads-authorize_user_to_property}
use propnest_api.Core.Audit.{write_audit_log}
use propnest_api.Core.Audit.Returns.{write_audit_log-Returns}
use propnest_api.Core.Repository.Returns.{create-Returns, get_by_id-Returns}
use propnest_api.Models.User.{User}
use propnest_api.Models.Lease.{Lease}
use propnest_api.Models.BillingRecord.{BillingRecord, pending}
use propnest_api.Billing.Calendar.{latest_for_lease, next_period_start, add_days, cycle_length_days}
use propnest_api.Billing.LeaseBilling.{
  BilledRecord, billed, load_lease, new_record, generate_billing_record, attach_one,
  already_generated,
}

pub load_lease-Returns :
    (i : ℕ) (u : User) (s : Session) {l : Lease} {s' : Session}
    → Returns (load_lease i u) s l s'
    → (find i s.working.leases ≡ some l) × (s' ≡ s)
unfolding load_lease
load_lease-Returns i u s h =
    let (o, s₁, h₁, h₂) = >>=-Returns (get_by_id lease_repo i) _ s h in
    let (e, p) = get_by_id-Returns lease_repo i s h₁ in
    let (c, s₂, h₃, h₄) = >>=-Returns _ _ s₁ h₂ in
    let (e₂, p₂) = or_raise-Returns _ o s₁ h₃ in
    let (x, s₃, h₅, h₆) = >>=-Returns _ _ s₂ h₄ in
    let p₃ = Reads-Returns _ s₂ (Reads-authorize_user_to_property _ u none _ none) h₅ in
    let (e₄, p₄) = pure-Returns c s₃ h₆ in (sym e ∙ e₂ ∙ ap some (sym e₄), p₄ ∙ p₃ ∙ p₂ ∙ p)

pub Reads-load_lease : (i : ℕ) (u : User) → Reads (load_lease i u)
unfolding load_lease
Reads-load_lease i u = search access_reads

pub attach_one-Returns :
    (r : BillingRecord) (s : Session) {b : BilledRecord} {s' : Session}
    → Returns (attach_one r) s b s'
    → (b ≡ billed s.working r) × (s' ≡ s)
unfolding attach_one
attach_one-Returns r s h = query-Returns (λ t. billed t r) s h

-- the dates of the record, and the row
pub record IsNextRecord (lid : ℕ) (t : Tables) (r : BillingRecord) : Type 0 where
  pub lease : Lease
  pub found : find lid t.leases ≡ some lease
  pub of_lease : r.lease_id ≡ lid
  pub starts : next_period_start lease (latest_for_lease lid t.billing_records) ≡ ok r.period_start
  pub ends : add_days r.period_start 30 ≡ ok r.period_end
  pub due : add_days r.period_start lease.due_day ≡ ok r.due_date
  pub amount : r.amount_due ≡ lease.monthly_rent
  pub is_pending : r.status ≡ pending

-- the last steps: the audit row, the commit, the answer
pub saved :
    (u : User) (a : AuditAction) (r : BillingRecord) (s : Session) {b : BilledRecord} {s' : Session}
    → Returns (do write_audit_log u a EntityType.billing_record r.id; commit; attach_one r) s b s'
    → (b.billing_record ≡ r) × (s'.committed.billing_records ≡ s.working.billing_records)
saved u a r s h =
    let (x, s₁, h₁, h₂) = >>=-Returns (write_audit_log u a EntityType.billing_record r.id) _ s h in
    let (y, s₂, h₃, h₄) = >>=-Returns commit _ s₁ h₂ in
    let (e, p) = attach_one-Returns r s₂ h₄ in
    let written = write_audit_log-Returns u a EntityType.billing_record r.id s h₁ in
    (
      ap (λ b. b.billing_record) e,
      ap (λ t. t.committed.billing_records) (p ∙ commit-Returns s₁ h₃)
          ∙ ap (λ t. t.working.billing_records) written,
    )

-- the steps after the dates have been found
recorded :
    (lease : Lease) (start end due : ℕ) (u : User) (s : Session) {b : BilledRecord} {s' : Session}
    → Returns
        (do
          r ←
              rethrow already_generated
                (create billing_record_repo (new_record lease start end due))
          write_audit_log u AuditAction.create EntityType.billing_record r.id
          commit
          attach_one r)
        s
        b
        s'
    → (b.billing_record ≡ new_record lease start end due s.next_id)
      × (s'.committed.billing_records ≡ s.working.billing_records ++ b.billing_record ∷ [])
recorded lease start end due u s {b = b} h =
    let (r, s₁, h₁, h₂) = >>=-Returns (rethrow already_generated _) _ s h in
    let body = rethrow-Returns already_generated _ s h₁ in
    let (made, fresh, holds, written) =
      create-Returns billing_record_repo (new_record lease start end due) s body in
    let (same, kept) = saved u AuditAction.create r s₁ h₂ in
    let e = same ∙ made in
    (
      e,
      kept
          ∙ ap (λ t. t.billing_records) written
          ∙ ap (λ x. s.working.billing_records ++ x ∷ []) (sym e),
    )

next_record :
    (lid : ℕ) (lease : Lease) (start end due id : ℕ) (t : Tables) (r : BillingRecord)
    → r ≡ new_record lease start end due id
    → find lid t.leases ≡ some lease
    → next_period_start lease (latest_for_lease lid t.billing_records) ≡ ok start
    → add_days start (cycle_length_days lease.billing_cycle) ≡ ok end
    → add_days start lease.due_day ≡ ok due
    → IsNextRecord lid t r
next_record lid lease start end due id t r e found starts ends dues = record {
  lease = lease;
  found = found;
  of_lease = ap (λ x. x.lease_id) e ∙ id_of-find lid t.leases lease found;
  starts = starts ∙ ap (λ x. ok x.period_start) (sym e);
  ends = ground arith;
  due = ground arith;
  amount = ap (λ x. x.amount_due) e;
  is_pending = ap (λ x. x.status) e;
}

-- A call of `generate_billing_record` that succeeds commits the billing records that it found and,
-- after them, the one that it answers with: a pending record of the lease, which owes the monthly
-- rent, starts on the lease's first day or the day after the latest record's last, ends 30 days
-- after it starts, and is due `due_day` days after it starts.
pub generate_billing_record-IsNextRecord :
    (lid : ℕ) (u : User) (s : Session) {b : BilledRecord} {s' : Session}
    → Returns (generate_billing_record lid u) s b s'
    → IsNextRecord lid s.working b.billing_record
      × (s'.committed.billing_records ≡ s.working.billing_records ++ b.billing_record ∷ [])
unfolding generate_billing_record
generate_billing_record-IsNextRecord lid u s {b = b} h =
    let (lease, h₁, k₁) = Reads-step (load_lease lid u) _ s (Reads-load_lease lid u) h in
    let (found, p₁) = load_lease-Returns lid u s h₁ in
    let (latest, h₂, k₂) = Reads-step _ _ s (Reads-query _) k₁ in
    let (e₂, p₂) = query-Returns _ s h₂ in
    let (start, h₃, k₃) = Reads-step _ _ s (Reads-lift _) k₂ in
    let (end, h₄, k₄) = Reads-step _ _ s (Reads-lift _) k₃ in
    let (due, h₅, k₅) = Reads-step _ _ s (Reads-lift _) k₄ in
    let (x, h₆, k₆) = Reads-step _ _ s (Reads-raise_if _ validation) k₅ in
    let (made, kept) = recorded lease start end due u s k₆ in
    (
      next_record lid lease start end due s.next_id s.working b.billing_record made found
          (ap (next_period_start lease) (sym e₂) ∙ (lift-Returns _ s h₃).0) (lift-Returns _ s h₄).0
          (lift-Returns _ s h₅).0,
      kept,
    )
