-- ===== src/Billing/Payments/Corrected.antt =====
-- What a successful `void_and_correct_payment` has done to the tables.
use propnest_api.Base.{
  ℕ, ◌≡◌, Option, none, some, List, [], ◌∷◌, ◌++◌, ap, sym, ◌∙◌, arith, false, inl, inr,
}
use propnest_api.Core.Error.{ok, payment_already_voided}
use propnest_api.Core.Schema.{find, replace, payment_key}
use propnest_api.Core.Schema.Rows.{id_of-find, find-append}
use propnest_api.Core.Session.{Session, commit, pure, ◌>>◌}
use propnest_api.Core.Session.Returns.{
  Returns, >>=-Returns, pure-Returns, or_raise-Returns, commit-Returns, raise_if-Returns,
}
use propnest_api.Core.Session.Reads.{Reads, Reads-step, Reads-raise_if}
use propnest_api.Core.Access.Reads.{access_reads}
use propnest_api.Core.Audit.{write_audit_log}
use propnest_api.Core.Audit.Returns.{write_audit_log-Returns}
use propnest_api.Core.Repository.{payment_repo, create, update}
use propnest_api.Core.Repository.Returns.{
  get_by_id-Returns, Reads-get_by_id, create-Returns, update-Returns,
}
use propnest_api.Models.User.{User}
use propnest_api.Models.AuditLog.{AuditAction}
use propnest_api.Models.AuditLog.EntityType
use propnest_api.Models.Payment.{Payment, voided, is_voided}
use propnest_api.Billing.Reference.{Text}
use propnest_api.Billing.Payments.{
  PaymentCorrection, correction, get_payment_or_404, resolve_reference_number,
  void_and_correct_payment,
}
use propnest_api.Billing.Payments.Settled.{
  Reads-prepare_payment_context, resolve_reference_number-Returns,
}

Reads-get_payment_or_404 : (i : ℕ) → Reads (get_payment_or_404 i)
unfolding get_payment_or_404
Reads-get_payment_or_404 i = search access_reads

get_payment_or_404-Returns :
    (i : ℕ) (s : Session) {p : Payment} {s' : Session}
    → Returns (get_payment_or_404 i) s p s'
    → find i s.working.payments ≡ some p
unfolding get_payment_or_404
get_payment_or_404-Returns i s h =
    let (o, h₁, k₁) = Reads-step _ _ s (Reads-get_by_id payment_repo i) h in
    sym (get_by_id-Returns payment_repo i s h₁).0 ∙ (or_raise-Returns _ o s k₁).0

-- a payment that is voided, all else being as it was
abbrev pub void : Payment → Payment
void p = record p { status = voided }

-- The correction of `old`: linked to it, and to no billing record.
pub record Corrects (payload : PaymentCorrection) (old new : Payment) : Type 0 where
  pub contract : new.contract_id ≡ old.contract_id
  pub amount : new.amount ≡ payload.amount
  pub corrected : new.corrects_payment_id ≡ some old.id
  pub billing_record : new.billing_record_id ≡ none

made-Corrects :
    (payload : PaymentCorrection) (old new : Payment) (reference : Option Text) (i : ℕ)
    → new ≡ correction payload old reference i
    → Corrects payload old new
made-Corrects payload old new reference i e = record {
  contract = ap (λ x. x.contract_id) e;
  amount = ap (λ x. x.amount) e;
  corrected = ap (λ x. x.corrects_payment_id) e;
  billing_record = ap (λ x. x.billing_record_id) e;
}

-- the update after the insertion finds the payment that was read
voids :
    (i : ℕ) (old new : Payment) (ps : List Payment) (s : Session) {o : Option Payment}
    {s' : Session}
    → find i ps ≡ some old
    → s.working.payments ≡ ps ++ new ∷ []
    → Returns (update payment_repo old.id (λ p. ok (void p))) s o s'
    → (s'.working.payments ≡ replace (void old) (ps ++ new ∷ []))
      × (s'.working.billing_records ≡ s.working.billing_records)
voids i old new ps s found rows h =
    let same = id_of-find i ps old found in
    let there : find old.id s.working.payments ≡ some old =
      rw rows (ground (arith, find-append old.id ps new)) in
    elim (update-Returns payment_repo old.id (λ p. ok (void p)) s h) [
      | inl (missing, a, b) ↦ cc
      | inr (read, written, found', changed, holds, a, b) ↦
          let e : written ≡ void old = ground arith in
          (
            ap (λ t. t.working.payments) b
                ∙ ap (λ x. replace x s.working.payments) e
                ∙ ap (replace (void old)) rows,
            ap (λ t. t.working.billing_records) b,
          )
    ]

-- the two audit rows, the commit and the answer
corrected :
    (u : User) (i j : ℕ) (new : Payment) (s : Session) {p : Payment} {s' : Session}
    → Returns
        (do
          write_audit_log u AuditAction.create EntityType.payment i
          write_audit_log u AuditAction.update EntityType.payment j
          commit
          pure new)
        s
        p
        s'
    → (p ≡ new)
      × (s'.committed.payments ≡ s.working.payments)
      × (s'.committed.billing_records ≡ s.working.billing_records)
corrected u i j new s h =
    let (x₁, s₁, h₁, k₁) = >>=-Returns (write_audit_log _ _ _ _) _ s h in
    let (x₂, s₂, h₂, k₂) = >>=-Returns (write_audit_log _ _ _ _) _ s₁ k₁ in
    let (x₃, s₃, h₃, k₃) = >>=-Returns commit _ s₂ k₂ in
    let (e, e₄) = pure-Returns new s₃ k₃ in
    let e₁ = write_audit_log-Returns u AuditAction.create EntityType.payment i s h₁ in
    let e₂ = write_audit_log-Returns u AuditAction.update EntityType.payment j s₁ h₂ in
    let done = e₄ ∙ commit-Returns s₂ h₃ in
    (
      e,
      ap (λ t. t.committed.payments) done
          ∙ ap (λ t. t.working.payments) e₂
          ∙ ap (λ t. t.working.payments) e₁,
      ap (λ t. t.committed.billing_records) done
          ∙ ap (λ t. t.working.billing_records) e₂
          ∙ ap (λ t. t.working.billing_records) e₁,
    )

-- A call of `void_and_correct_payment` that succeeds has found the payment, not voided, and commits
-- the payments with that one voided and its correction after them. The correction is linked to the
-- payment that it corrects and to no billing record, and no billing record changes, so the record
-- that the voided payment had settled keeps its status.
pub void_and_correct_payment-Corrects :
    (i : ℕ) (payload : PaymentCorrection) (u : User) (s : Session) {new : Payment} {s' : Session}
    → Returns (void_and_correct_payment i payload u) s new s'
    → (old : Payment) × (find i s.working.payments ≡ some old)
      × (is_voided old.status ≡ false)
      × Corrects payload old new
      × (s'.committed.payments ≡ replace (void old) (s.working.payments ++ new ∷ []))
      × (s'.committed.billing_records ≡ s.working.billing_records)
unfolding void_and_correct_payment
void_and_correct_payment-Corrects i payload u s {new = new} h =
    let (old, h₁, k₁) = Reads-step _ _ s (Reads-get_payment_or_404 i) h in
    let (x₂, h₂, k₂) = Reads-step _ _ s (Reads-prepare_payment_context u old.contract_id) k₁ in
    let (x₃, h₃, k₃) = Reads-step _ _ s (Reads-raise_if _ payment_already_voided) k₂ in
    let (reference, s₄, h₄, k₄) = >>=-Returns (resolve_reference_number _ _) _ s k₃ in
    let (q, s₅, h₅, k₅) = >>=-Returns (create payment_repo _) _ s₄ k₄ in
    let (o, s₆, h₆, k₆) = >>=-Returns (update payment_repo old.id _) _ s₅ k₅ in
    let (made, fresh, holds, e₅) =
      create-Returns payment_repo (correction payload old reference) s₄ h₅ in
    let found = get_payment_or_404-Returns i s h₁ in
    let e₄ = resolve_reference_number-Returns _ _ s h₄ in
    let rows : s₅.working.payments ≡ s.working.payments ++ q ∷ [] =
      ap (λ t. t.payments) e₅
      ∙ ap (λ t. t.payments ++ correction payload old reference s₄.next_id ∷ []) e₄
      ∙ ap (λ x. s.working.payments ++ x ∷ []) (sym made) in
    let (payments, records) = voids i old q s.working.payments s₅ found rows h₆ in
    let (e, kept, kept') = corrected u q.id old.id q s₆ k₆ in
    (
      old,
      found,
      (raise_if-Returns _ payment_already_voided s h₃).0,
      made-Corrects payload old new reference s₄.next_id (e ∙ made),
      kept ∙ payments ∙ ap (λ x. replace (void old) (s.working.payments ++ x ∷ [])) (sym e),
      kept' ∙ records ∙ ap (λ t. t.billing_records) e₅ ∙ ap (λ t. t.billing_records) e₄,
    )
