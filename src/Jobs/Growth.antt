-- ===== src/Jobs/Growth.antt =====
-- What a run of the first job does to the leases and how many records it adds.
use propnest_api.Base.{
  inr, Bool-cases, sym, ◌⊎◌, ◌++◌, true, inl, suc, ℕ, ◌+◌, ◌≡◌, refl, ap, ◌∙◌, List, [], ◌∷◌,
  length, length-append, arith,
}
use propnest_api.Core.Error.{billing_record_already_generated, Error, Result, ok, err}
use propnest_api.Core.Session.{Store, run, begin}
use propnest_api.Core.Session.Atomic.{run-Atomic}
use propnest_api.Models.User.{User}
use propnest_api.Models.Lease.{Lease}
use propnest_api.Billing.LeaseBilling.{BilledRecord, generate_billing_record}
use propnest_api.Billing.LeaseBilling.Atomic.{Atomic-generate_billing_record}
use propnest_api.Billing.LeaseBilling.Periods.{IsNextRecord, generate_billing_record-IsNextRecord}
use propnest_api.Jobs.{
  is_already_generated, BillingRecord, Outcome, turn, get_active, generate_each,
  generate_due_billing_records,
}

abbrev pub records : Store → ℕ
records d = length d.tables.billing_records

module _ (i : ℕ) (u : User) (d : Store) where
  generated_one :
      (b : BilledRecord)
      → (run (generate_billing_record i u) d).0 ≡ ok b
      → records (run (generate_billing_record i u) d).1 ≡ records d + 1
  generated_one b h =
      let (next, kept) =
        generate_billing_record-IsNextRecord i u (begin d)
          (λ j. (h j, (generate_billing_record i u (begin d)).1)) in
      ap length kept ∙ length-append d.tables.billing_records (b.billing_record ∷ [])

  generated_none :
      (e : Error)
      → (run (generate_billing_record i u) d).0 ≡ err e
      → records (run (generate_billing_record i u) d).1 ≡ records d
  generated_none e h =
      ap (λ t. length t.billing_records)
        (run-Atomic (generate_billing_record i u) d e (Atomic-generate_billing_record i u) h)

-- Without an exception, `m` leases were gone through and the numbers are those of the records.
abbrev Tallies : ℕ → ℕ → Outcome → Type 0
Tallies n m (ok (g, k), d) = (records d ≡ n + g) × (g + k ≡ m)
Tallies n m (err e, d) = Unit

turn-Tallies :
    (r : Result BilledRecord) (d : Store) (rest : Outcome) (n m : ℕ)
    → ((b : BilledRecord) → r ≡ ok b → records d ≡ n + 1)
    → ((e : Error) → r ≡ err e → records d ≡ n)
    → Tallies (records d) m rest
    → Tallies n (suc m) (turn r rest d)
turn-Tallies (ok b) d (ok (g, k), d') n m one same t = ground (arith, one b refl)
turn-Tallies (ok b) d (err x, d') n m one same t = tt
turn-Tallies (err e) d (ok (g, k), d') n m one same t = ground (arith, same e refl)
turn-Tallies (err e) d (err x, d') n m one same t = ground arith

generate_each-Tallies :
    (u : User) (ls : List Lease) (d : Store)
    → Tallies (records d) (length ls) (generate_each u ls d)
unfolding generate_each
generate_each-Tallies u [] d = (omega arith, refl)
generate_each-Tallies u (l ∷ ls) d =
    let rest = (run (generate_billing_record l.id u) d).1 in
    turn-Tallies _ rest (generate_each u ls rest) (records d) (length ls) (generated_one l.id u d)
      (generated_none l.id u d) (generate_each-Tallies u ls rest)

tallied :
    (n m g k : ℕ) (o : Outcome)
    → Tallies n m o
    → o.0 ≡ ok (g, k)
    → (records o.1 ≡ n + g) × (g + k ≡ m)
tallied n m g k (ok (g', k'), d) t h = ground arith
tallied n m g k (err e, d) t h = ground arith

-- What the loop made of the leases, one after the other: `g` times it added the lease's next record
-- to those that were there, and `k` times the record was there already and no table changed.
abbrev pub Billed : User → List Lease → ℕ → ℕ → Store → Store → Type 0
Billed u [] g k d d' = (g ≡ 0) × (k ≡ 0) × (d' ≡ d)
Billed u (l ∷ ls) g k d d' =
    (mid : Store) × (((r : BillingRecord) × (n : ℕ) × IsNextRecord l.id d.tables r
        × (mid.tables.billing_records ≡ d.tables.billing_records ++ r ∷ [])
        × (g ≡ n + 1)
        × Billed u ls n k mid d')
      ⊎ ((n : ℕ) × ((run (generate_billing_record l.id u) d).0
            ≡ err billing_record_already_generated)
          × (mid.tables ≡ d.tables)
          × (k ≡ n + 1)
          × Billed u ls g n mid d'))

abbrev BilledBy : User → List Lease → Store → Outcome → Type 0
BilledBy u ls d (ok (g, k), d') = Billed u ls g k d d'
BilledBy u ls d (err e, d') = Unit

is_already_generated_lem :
    (e : Error) → is_already_generated e ≡ true → e ≡ billing_record_already_generated
is_already_generated_lem billing_record_already_generated h = refl
is_already_generated_lem _ h = ground arith

turn-BilledBy :
    (u : User) (l : Lease) (ls : List Lease) (d mid : Store) (r : Result BilledRecord)
    (rest : Outcome)
    → (run (generate_billing_record l.id u) d).0 ≡ r
    → (run (generate_billing_record l.id u) d).1 ≡ mid
    → BilledBy u ls mid rest
    → BilledBy u (l ∷ ls) d (turn r rest mid)
turn-BilledBy u l ls d mid (ok b) (ok (g, k), d') e q h =
    let (next, kept) =
      generate_billing_record-IsNextRecord l.id u (begin d)
        (λ j. (e j, (generate_billing_record l.id u (begin d)).1)) in
    (
      mid,
      inl (b.billing_record, g, next, sym (ap (λ x. x.tables.billing_records) q) ∙ kept, refl, h),
    )
turn-BilledBy u l ls d mid (ok b) (err x, d') e q h = tt
turn-BilledBy u l ls d mid (err x) (ok (g, k), d') e q h =
    elim (Bool-cases (is_already_generated x)) [
      | inl skip ↦ rw skip (
        mid,
        inr (
          k,
          e ∙ ap err (is_already_generated_lem x skip),
          sym (ap (λ t. t.tables) q)
              ∙ run-Atomic (generate_billing_record l.id u) d x
                  (Atomic-generate_billing_record l.id u) e,
          refl,
          h,
        ),
      )
      | inr stop ↦ rw stop tt
    ]
turn-BilledBy u l ls d mid (err x) (err y, d') e q h = elim (Bool-cases (is_already_generated x)) [
  | inl skip ↦ rw skip tt
  | inr stop ↦ rw stop tt
]

generate_each-BilledBy :
    (u : User) (ls : List Lease) (d : Store) → BilledBy u ls d (generate_each u ls d)
unfolding generate_each
generate_each-BilledBy u [] d = (refl, refl, refl)
generate_each-BilledBy u (l ∷ ls) d =
    let rest = (run (generate_billing_record l.id u) d).1 in
    turn-BilledBy u l ls d rest _ (generate_each u ls rest) refl refl
      (generate_each-BilledBy u ls rest)

billed_by :
    (u : User) (ls : List Lease) (d : Store) (g k : ℕ) (o : Outcome)
    → BilledBy u ls d o
    → o.0 ≡ ok (g, k)
    → Billed u ls g k d o.1
billed_by u ls d g k (ok (g', k'), d') t h =
    let first : g' ≡ g = ground arith in
    let second : k' ≡ k = ground arith in rw (first, second) at t
billed_by u ls d g k (err e, d') t h = ground arith

-- A run of the job that ends without an exception and logs `g` generated and `k` skipped has gone
-- through the active leases, each once and in order. To `g` of them it has added the lease's next
-- record, each after all that were there; for the other `k` the call found that record generated
-- already, and changed no table. So the records have grown by `g`, and `g + k` leases are active.
pub generate_due_billing_records-grows :
    (u : User) (d : Store) (g k : ℕ)
    → (generate_due_billing_records u d).0 ≡ ok (g, k)
    → Billed u (get_active d.tables) g k d (generate_due_billing_records u d).1
      × (records (generate_due_billing_records u d).1 ≡ records d + g)
      × (g + k ≡ length (get_active d.tables))
unfolding generate_due_billing_records
generate_due_billing_records-grows u d g k h =
    let leases = get_active d.tables in
    let (grown, all) =
      tallied (records d) (length leases) g k (generate_each u leases d)
        (generate_each-Tallies u leases d) h in
    (
      billed_by u leases d g k (generate_each u leases d) (generate_each-BilledBy u leases d) h,
      grown,
      all,
    )
