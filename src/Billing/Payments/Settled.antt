-- ===== src/Billing/Payments/Settled.antt =====
-- What a successful `create_payment` has done to the tables.
use propnest_api.Base.{ℕ, ◌+◌, ◌≡◌, Option, none, some, [], ◌∷◌, ◌++◌, arith, ap, sym, ◌∙◌}
use propnest_api.Core.Error.{ok}
use propnest_api.Core.Schema.{Tables, find, replace, billing_record_key}
use propnest_api.Core.Session.{Session, commit}
use propnest_api.Core.Session.Returns.{
  Returns, >>=-Returns, pure-Returns, or_raise-Returns, lift-Returns, query-Returns, commit-Returns,
}
use propnest_api.Core.Session.Reads.{Reads, Reads-step, Reads-lift, Reads-query, Reads-or_raise}
use propnest_api.Core.Access.Reads.{access_reads}
use propnest_api.Core.Audit.{write_audit_log}
use propnest_api.Core.Audit.Returns.{write_audit_log-Returns}
use propnest_api.Core.Repository.{billing_record_repo, payment_repo, flush, create}
use propnest_api.Core.Repository.Returns.{
  get_by_id-Returns, Reads-get_by_id, flush-Returns, create-Returns,
}
use propnest_api.Models.User.{User}
use propnest_api.Models.AuditLog.{AuditAction}
use propnest_api.Models.AuditLog.EntityType
use propnest_api.Models.BillingRecord.{BillingRecord}
use propnest_api.Models.Payment.{Payment, PaymentMethod, cash}
use propnest_api.Billing.Money.{paid_on}
use propnest_api.Billing.Status.{apply_payment}
use propnest_api.Billing.Reference.{Text, cash_reference, prefixed}
use propnest_api.Billing.Payments.{
  PaymentCreate, create_payment, linked_record, get_billing_record_for_contract, new_payment,
  resolve_reference_number, next_cash_reference_number, apply_payment_to_billing_record,
  prepare_payment_context,
}

pub Reads-prepare_payment_context : (u : User) (i : ℕ) → Reads (prepare_payment_context u i)
unfolding prepare_payment_context
Reads-prepare_payment_context u i = search access_reads

Reads-get_billing_record_for_contract : (r c : ℕ) → Reads (get_billing_record_for_contract r c)
unfolding get_billing_record_for_contract
Reads-get_billing_record_for_contract r c = search access_reads depth 12

Reads-linked_record : (o : Option ℕ) (c : ℕ) → Reads (linked_record o c)
unfolding linked_record
Reads-linked_record none c = search access_reads
Reads-linked_record (some i) c = search (access_reads, Reads-get_billing_record_for_contract)

get_billing_record_for_contract-Returns :
    (i c : ℕ) (s : Session) {r : BillingRecord} {s' : Session}
    → Returns (get_billing_record_for_contract i c) s r s'
    → find i s.working.billing_records ≡ some r
unfolding get_billing_record_for_contract
get_billing_record_for_contract-Returns i c s h =
    let (o, h₁, k₁) = Reads-step _ _ s (Reads-get_by_id billing_record_repo i) h in
    let (r, h₂, k₂) = Reads-step _ _ s (Reads-or_raise _ o) k₁ in
    let (x, s₃, h₃, k₃) = >>=-Returns _ _ s k₂ in
    let (y, s₄, h₄, k₄) = >>=-Returns _ _ s₃ k₃ in
    let (z, s₅, h₅, k₅) = >>=-Returns _ _ s₄ k₄ in
    sym (get_by_id-Returns billing_record_repo i s h₁).0
    ∙ (or_raise-Returns _ o s h₂).0
    ∙ ap some (sym (pure-Returns r s₅ k₅).0)

-- the record that a payload names
abbrev pub Links : Option ℕ → Option BillingRecord → Tables → Type 0
Links none o t = o ≡ none
Links (some i) o t = (r : BillingRecord) × (o ≡ some r) × (find i t.billing_records ≡ some r)

linked_record-Returns :
    (i : Option ℕ) (c : ℕ) (s : Session) {o : Option BillingRecord} {s' : Session}
    → Returns (linked_record i c) s o s'
    → Links i o s.working
unfolding linked_record
linked_record-Returns none c s h = (pure-Returns none s h).0
linked_record-Returns (some i) c s h =
    let (r, s₁, h₁, k₁) = >>=-Returns _ _ s h in
    (r, (pure-Returns (some r) s₁ k₁).0, get_billing_record_for_contract-Returns i c s h₁)

pub resolve_reference_number-Returns :
    (m : Option PaymentMethod) (t : Option Text) (s : Session) {o : Option Text} {s' : Session}
    → Returns (resolve_reference_number m t) s o s'
    → s'.working ≡ s.working
unfolding resolve_reference_number next_cash_reference_number
resolve_reference_number-Returns (some cash) none s h =
    let (n, s₁, h₁, k₁) = >>=-Returns _ _ s h in
    ap (λ x. x.working) (pure-Returns _ s₁ k₁).1 ∙ ground arith
resolve_reference_number-Returns none t s h = ap (λ x. x.working) (pure-Returns _ s h).1
resolve_reference_number-Returns (some _) t s h = ap (λ x. x.working) (pure-Returns _ s h).1

-- the reference that a payment gets, by its method and the one that was given, after `seq` cash ones
abbrev pub reference_after : ℕ → Option PaymentMethod → Option Text → Option Text
reference_after seq (some cash) none = some (cash_reference (seq + 1))
reference_after seq method reference = prefixed method reference

resolve_reference_number-reference :
    (m : Option PaymentMethod) (t : Option Text) (s : Session) {o : Option Text} {s' : Session}
    → Returns (resolve_reference_number m t) s o s'
    → o ≡ reference_after s.cash_seq m t
unfolding resolve_reference_number next_cash_reference_number
resolve_reference_number-reference (some cash) none s h =
    let (n, s₁, h₁, k₁) = >>=-Returns _ _ s h in
    (pure-Returns _ s₁ k₁).0 ∙ ap (λ x. some (cash_reference x)) (ground arith)
resolve_reference_number-reference none t s h = (pure-Returns _ s h).0
resolve_reference_number-reference (some _) t s h = (pure-Returns _ s h).0

-- the billing records after the payment was applied to one of them, if there is one
abbrev pub Applies : Option BillingRecord → Tables → Tables → Type 0
Applies none t t' = t'.billing_records ≡ t.billing_records
Applies (some r) t t' =
    (r' : BillingRecord) × (apply_payment r (paid_on r.id t.payments) ≡ ok r')
    × (t'.billing_records ≡ replace r' t.billing_records)

apply_payment_to_billing_record-Returns :
    (o : Option BillingRecord) (s : Session) {x : Unit {0}} {s' : Session}
    → Returns (apply_payment_to_billing_record o) s x s'
    → Applies o s.working s'.working × (s'.working.payments ≡ s.working.payments)
unfolding apply_payment_to_billing_record
apply_payment_to_billing_record-Returns none s h =
    let (e, p) = pure-Returns tt s h in
    (ap (λ t. t.working.billing_records) p, ap (λ t. t.working.payments) p)
apply_payment_to_billing_record-Returns (some r) s h =
    let (c, h₁, k₁) = Reads-step _ _ s (Reads-query _) h in
    let (r', h₂, k₂) = Reads-step _ _ s (Reads-lift _) k₁ in
    let (y, s₃, h₃, k₃) = >>=-Returns (flush billing_record_repo r') _ s k₂ in
    let (e, holds, p) = flush-Returns billing_record_repo r' s h₃ in
    let q = (pure-Returns tt s₃ k₃).1 ∙ p in
    (
      (
        r',
        ap (apply_payment r) (sym (query-Returns _ s h₁).0) ∙ (lift-Returns _ s h₂).0,
        ap (λ t. t.working.billing_records) q,
      ),
      ap (λ t. t.working.payments) q,
    )

-- What a payment against the named record, if one is named, makes of the billing records.
abbrev pub Settles : Option ℕ → Payment → Tables → Tables → Type 0
Settles none p t t' = t'.billing_records ≡ t.billing_records
Settles (some i) p t t' =
    (r r' : BillingRecord) × (find i t.billing_records ≡ some r)
    × (apply_payment r (paid_on r.id (t.payments ++ p ∷ [])) ≡ ok r')
    × (t'.billing_records ≡ replace r' t.billing_records)

settled :
    (i : Option ℕ) (o : Option BillingRecord) (p : Payment) (t t₁ t₂ t' : Tables)
    → Links i o t
    → Applies o t₁ t₂
    → t₁.billing_records ≡ t.billing_records
    → t₁.payments ≡ t.payments ++ p ∷ []
    → t'.billing_records ≡ t₂.billing_records
    → Settles i p t t'
settled none none p t t₁ t₂ t' l a b c d = d ∙ a ∙ b
settled none (some r) p t t₁ t₂ t' l a b c d = cc
settled (some i) none p t t₁ t₂ t' (r, e, found) a b c d = cc
settled (some i) (some q) p t t₁ t₂ t' (r, e, found) (r', applied, kept) b c d = (
  q,
  r',
  found ∙ sym e,
  ap (λ x. apply_payment q (paid_on q.id x)) (sym c) ∙ applied,
  d ∙ kept ∙ ap (replace r') b,
)

-- the payload's fields, in the row, and the reference resolved from them
pub record IsPaymentOf (payload : PaymentCreate) (seq : ℕ) (p : Payment) : Type 0 where
  pub contract : p.contract_id ≡ payload.contract_id
  pub billing_record : p.billing_record_id ≡ payload.billing_record_id
  pub amount : p.amount ≡ payload.amount
  pub status : p.status ≡ payload.status
  pub paid_at : p.paid_at ≡ payload.paid_at
  pub method : p.payment_method ≡ payload.payment_method
  pub reference :
      p.reference_number ≡ reference_after seq payload.payment_method payload.reference_number
  pub corrects_nothing : p.corrects_payment_id ≡ none

made-IsPaymentOf :
    (payload : PaymentCreate) (seq : ℕ) (reference : Option Text) (i : ℕ) (p : Payment)
    → reference ≡ reference_after seq payload.payment_method payload.reference_number
    → p ≡ new_payment payload reference i
    → IsPaymentOf payload seq p
made-IsPaymentOf payload seq reference i p given e = record {
  contract = ap (λ x. x.contract_id) e;
  billing_record = ap (λ x. x.billing_record_id) e;
  amount = ap (λ x. x.amount) e;
  status = ap (λ x. x.status) e;
  paid_at = ap (λ x. x.paid_at) e;
  method = ap (λ x. x.payment_method) e;
  reference = ap (λ x. x.reference_number) e ∙ given;
  corrects_nothing = ap (λ x. x.corrects_payment_id) e;
}

-- A call of `create_payment` that succeeds commits the payments that it found and, after them, the
-- one that it answers with, which has the payload's contract, record, amount, status, time and
-- method; its reference is the payload's with the prefix of the method, or for cash without one the
-- next number of the sequence. If the payload names a billing record, that record is there and is
-- settled by what is now paid on it, this payment included; no other billing record changes.
pub create_payment-Settles :
    (payload : PaymentCreate) (u : User) (s : Session) {p : Payment} {s' : Session}
    → Returns (create_payment payload u) s p s'
    → IsPaymentOf payload s.cash_seq p
      × (s'.committed.payments ≡ s.working.payments ++ p ∷ [])
      × Settles payload.billing_record_id p s.working s'.committed
unfolding create_payment
create_payment-Settles payload u s {p = p} {s' = s'} h =
    let (x₁, h₁, k₁) = Reads-step _ _ s (Reads-prepare_payment_context u payload.contract_id) h in
    let (o, h₂, k₂) =
      Reads-step _ _ s (Reads-linked_record payload.billing_record_id payload.contract_id) k₁ in
    let links = linked_record-Returns payload.billing_record_id payload.contract_id s h₂ in
    let (reference, s₃, h₃, k₃) = >>=-Returns (resolve_reference_number _ _) _ s k₂ in
    let (q, s₄, h₄, k₄) = >>=-Returns (create payment_repo _) _ s₃ k₃ in
    let (made, fresh, holds, e₄) =
      create-Returns payment_repo (new_payment payload reference) s₃ h₄ in
    let (x₅, s₅, h₅, k₅) = >>=-Returns (write_audit_log _ _ _ _) _ s₄ k₄ in
    let (x₆, s₆, h₆, k₆) = >>=-Returns (apply_payment_to_billing_record o) _ s₅ k₅ in
    let (applies, same) = apply_payment_to_billing_record-Returns o s₅ h₆ in
    let (x₇, s₇, h₇, k₇) = >>=-Returns commit _ s₆ k₆ in
    let (e, e₈) = pure-Returns q s₇ k₇ in
    let e₃ = resolve_reference_number-Returns _ _ s h₃ in
    let e₅ =
      ap (λ t. t.working)
        (write_audit_log-Returns u AuditAction.create EntityType.payment q.id s₄ h₅) in
    let done : s'.committed ≡ s₆.working = ap (λ t. t.committed) (e₈ ∙ commit-Returns s₆ h₇) in
    let paid : s₅.working.payments ≡ s.working.payments ++ p ∷ [] =
      ap (λ t. t.payments) e₅
      ∙ ap (λ t. t.payments) e₄
      ∙ ap (λ t. t.payments ++ new_payment payload reference s₃.next_id ∷ []) e₃
      ∙ ap (λ x. s.working.payments ++ x ∷ []) (sym (e ∙ made)) in
    let kept : s₅.working.billing_records ≡ s.working.billing_records =
      ap (λ t. t.billing_records) e₅
      ∙ ap (λ t. t.billing_records) e₄
      ∙ ap (λ t. t.billing_records) e₃ in
    (
      made-IsPaymentOf payload s.cash_seq reference s₃.next_id p
          (resolve_reference_number-reference _ _ s h₃) (e ∙ made),
      ap (λ t. t.payments) done ∙ same ∙ paid,
      settled payload.billing_record_id o p s.working s₅.working s₆.working s'.committed links
          applies kept paid (ap (λ t. t.billing_records) done),
    )
