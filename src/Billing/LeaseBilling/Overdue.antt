-- ===== src/Billing/LeaseBilling/Overdue.antt =====
-- What a successful `evaluate_overdue` has done.
use propnest_api.Base.{
  ℕ, ◌+◌, ◌<◌, ◌≤◌, ◌≡◌, ◌⊎◌, Bool, true, false, some, arith, ap, sym, ◌∙◌, refl, inl, inr, leb,
  not, if◌then◌else◌,
}
use mathlib.Core.Path.{subst}
use propnest_api.Core.Error.{ok}
use propnest_api.Core.Schema.{find, replace, lease_key, billing_record_key}
use propnest_api.Core.Session.{Session, lift, ◌>>=◌}
use propnest_api.Core.Session.Returns.{
  Returns, >>=-Returns, pure-Returns, or_raise-Returns, lift-Returns,
}
use propnest_api.Core.Session.Reads.{Reads, Reads-step, Reads-lift, Reads-or_raise}
use propnest_api.Core.Access.Reads.{access_reads}
use propnest_api.Core.Repository.{billing_record_repo, flush}
use propnest_api.Core.Repository.Returns.{get_by_id-Returns, Reads-get_by_id, flush-Returns}
use propnest_api.Models.User.{User}
use propnest_api.Models.AuditLog.{AuditAction}
use propnest_api.Models.Lease.{Lease}
use propnest_api.Models.BillingRecord.{BillingRecord, overdue}
use propnest_api.Billing.Calendar.{add_days}
use propnest_api.Billing.Status.{transition}
use propnest_api.Billing.LeaseBilling.{
  BilledRecord, load_record, attach_one, save_record, late_fee, charge_late_fee, can_fall_overdue,
  mark_overdue, evaluate_overdue,
}
use propnest_api.Billing.LeaseBilling.Periods.{
  load_lease-Returns, attach_one-Returns, Reads-load_lease, saved,
}

Reads-load_record : (i : ℕ) (u : User) → Reads (load_record i u)
unfolding load_record
Reads-load_record i u = search (access_reads, Reads-load_lease)

load_record-Returns :
    (i : ℕ) (u : User) (s : Session) {r : BillingRecord} {l : Lease} {s' : Session}
    → Returns (load_record i u) s (r, l) s'
    → (find i s.working.billing_records ≡ some r) × (find r.lease_id s.working.leases ≡ some l)
unfolding load_record
load_record-Returns i u s h =
    let (o, h₁, k₁) = Reads-step _ _ s (Reads-get_by_id billing_record_repo i) h in
    let (r, h₂, k₂) = Reads-step _ _ s (Reads-or_raise _ o) k₁ in
    let (l, h₃, k₃) = Reads-step _ _ s (Reads-load_lease r.lease_id u) k₂ in
    let (found, p) = load_lease-Returns r.lease_id u s h₃ in
    let (same, q) = pure-Returns (r, l) s k₃ in
    let (e, p₁) = get_by_id-Returns billing_record_repo i s h₁ in
    let (e₂, p₂) = or_raise-Returns _ o s h₂ in
    (
      sym e ∙ e₂ ∙ ap (λ x. some x.0) (sym same),
      ap (λ (x : BillingRecord × Lease). find x.0.lease_id s.working.leases) same
          ∙ found
          ∙ ap (λ x. some x.1) (sym same),
    )

save_record-Returns :
    (u : User) (r : BillingRecord) (s : Session) {b : BilledRecord} {s' : Session}
    → Returns (save_record u r) s b s'
    → (b.billing_record ≡ r) × (s'.committed.billing_records ≡ replace r s.working.billing_records)
unfolding save_record
save_record-Returns u r s h =
    let (x, s₁, h₁, h₂) = >>=-Returns (flush billing_record_repo r) _ s h in
    let (e, holds, p) = flush-Returns billing_record_repo r s h₁ in
    let (same, kept) = saved u AuditAction.update r s₁ h₂ in
    (same, kept ∙ ap (λ t. t.working.billing_records) p)

-- `r'` is `r` overdue, with its late fee: the one that it has, or else the lease's
pub record FallsOverdue (lease : Lease) (r r' : BillingRecord) : Type 0 where
  pub id : r'.id ≡ r.id
  pub amount : r'.amount_due ≡ r.amount_due
  pub dates : (r'.period_start ≡ r.period_start) × (r'.period_end ≡ r.period_end)
  pub is_overdue : r'.status ≡ overdue
  pub applied : r'.late_fee_applied ≡ true
  pub fee :
      ((r.late_fee_applied ≡ true) × (r'.late_fee_amount_charged ≡ r.late_fee_amount_charged))
      ⊎ ((r.late_fee_applied ≡ false)
          × (f : ℕ) × (late_fee lease r ≡ ok f)
          × (r'.late_fee_amount_charged ≡ some f))

charged-FallsOverdue :
    (lease : Lease) (r moved r' : BillingRecord)
    → transition r overdue ≡ ok moved
    → charge_late_fee lease moved ≡ ok r'
    → FallsOverdue lease r r'
unfolding transition charge_late_fee late_fee
charged-FallsOverdue lease r moved r' h k = record {
  id = ground arith;
  amount = ground arith;
  dates = ground arith;
  is_overdue = ground arith;
  applied = ground arith;
  fee = ground arith;
}

mark_overdue-Returns :
    (u : User) (lease : Lease) (r : BillingRecord) (s : Session) {b : BilledRecord} {s' : Session}
    → Returns (mark_overdue u lease r) s b s'
    → FallsOverdue lease r b.billing_record
      × (s'.committed.billing_records ≡ replace b.billing_record s.working.billing_records)
unfolding mark_overdue
mark_overdue-Returns u lease r s {b = b} h =
    let (moved, h₁, k₁) = Reads-step _ _ s (Reads-lift _) h in
    let (charged, h₂, k₂) = Reads-step _ _ s (Reads-lift _) k₁ in
    let (same, kept) = save_record-Returns u charged s k₂ in
    (
      subst (FallsOverdue lease r) (sym same) (
          charged-FallsOverdue lease r moved charged (lift-Returns _ s h₁).0
            (lift-Returns _ s h₂).0),
      kept ∙ ap (λ x. replace x s.working.billing_records) (sym same),
    )

-- Nothing has happened to `r`, and why.
abbrev pub Stays : ℕ → Lease → BillingRecord → BillingRecord → Type 0
Stays as_of lease r r' =
    (r' ≡ r)
    × ((can_fall_overdue r.status ≡ false) ⊎ (as_of ≤ r.due_date + lease.grace_period_days))

-- `r` was open and late, and has become overdue.
abbrev pub Falls : ℕ → Lease → BillingRecord → BillingRecord → Type 0
Falls as_of lease r r' =
    (can_fall_overdue r.status ≡ true)
    × (r.due_date + lease.grace_period_days < as_of)
    × FallsOverdue lease r r'

-- One of the two, with what it means for the session.
abbrev pub Evaluated : ℕ → Lease → BillingRecord → Session → BillingRecord → Session → Type 0
Evaluated as_of lease r s r' s' =
    (Stays as_of lease r r' × (s' ≡ s))
    ⊎ (Falls as_of lease r r'
        × (s'.committed.billing_records ≡ replace r' s.working.billing_records))

module _ (as_of : ℕ) (u : User) (lease : Lease) (r : BillingRecord) (s : Session) {b : BilledRecord}
    {s' : Session} where
  late_or_not :
      (cutoff : ℕ) (early : Bool)
      → leb as_of cutoff ≡ early
      → add_days r.due_date lease.grace_period_days ≡ ok cutoff
      → can_fall_overdue r.status ≡ true
      → Returns (if early then attach_one r else mark_overdue u lease r) s b s'
      → Evaluated as_of lease r s b.billing_record s'
  unfolding add_days
  late_or_not cutoff true e sum can h =
      let (same, p) = attach_one-Returns r s h in
      inl ((ap (λ x. x.billing_record) same, inr (ground arith)), p)
  late_or_not cutoff false e sum can h =
      let (falls, kept) = mark_overdue-Returns u lease r s h in
      inr ((can, ground arith, falls), kept)

  open_or_not :
      (can : Bool)
      → can_fall_overdue r.status ≡ can
      → Returns
          (if not can then attach_one r else do
            cutoff ← lift (add_days r.due_date lease.grace_period_days)
            if leb as_of cutoff then attach_one r else mark_overdue u lease r)
          s
          b
          s'
      → Evaluated as_of lease r s b.billing_record s'
  open_or_not false e h =
      let (same, p) = attach_one-Returns r s h in inl ((ap (λ x. x.billing_record) same, inl e), p)
  open_or_not true e h =
      let (cutoff, h₁, k₁) = Reads-step _ _ s (Reads-lift _) h in
      late_or_not cutoff (leb as_of cutoff) refl (lift-Returns _ s h₁).0 e k₁

-- A call of `evaluate_overdue` that succeeds has found the record and its lease. Either the record
-- was not open (pending or partially paid) or its grace period is not over, and nothing has
-- changed; or it was open and late, and what is committed are the billing records with this one
-- overdue, charged with the lease's late fee if it had none before, and as before otherwise.
pub evaluate_overdue-Evaluated :
    (i : ℕ) (u : User) (as_of : ℕ) (s : Session) {b : BilledRecord} {s' : Session}
    → Returns (evaluate_overdue i u as_of) s b s'
    → (r : BillingRecord) × (lease : Lease) × (find i s.working.billing_records ≡ some r)
      × (find r.lease_id s.working.leases ≡ some lease)
      × Evaluated as_of lease r s b.billing_record s'
unfolding evaluate_overdue
evaluate_overdue-Evaluated i u as_of s h =
    let (x, h₁, k₁) = Reads-step _ _ s (Reads-load_record i u) h in
    let (found, lease) = load_record-Returns i u s h₁ in
    (x.0, x.1, found, lease, open_or_not as_of u x.1 x.0 s (can_fall_overdue x.0.status) refl k₁)
