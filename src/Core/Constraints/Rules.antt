-- ===== src/Core/Constraints/Rules.antt =====
-- What the constraints make of the tables of contracts and of billing records.
use propnest_api.Base.{
  ℕ, ◌≤◌, ◌≡◌, Bool, true, false, none, [], ◌∷◌, ◌++◌, not, ◌&&◌, ltb, leb, List, count, arith,
}
use propnest_api.Core.Schema.{
  Tables, find, replace, remove, others, contract_key, billing_record_key,
}
use propnest_api.Core.Schema.Rows.{
  DistinctIds, DistinctIds-append, DistinctIds-replace, DistinctIds-remove, count-any-false,
}
use propnest_api.Core.Schema.Counts.{
  count-remove-le, single-append, single-replace, no_row-append, no_row-replace,
}
use propnest_api.Core.Constraints.{
  contract_violation, billing_record_violation, holds_property, same_period, null_or_positive,
  null_or_after, late_fee_consistent,
}
use propnest_api.Models.Contract.{Contract}
use propnest_api.Models.BillingRecord.{BillingRecord}

-- a contract that breaks one of its CHECK constraints
abbrev pub is_faulty : Contract → Bool
is_faulty c =
    not (null_or_after c.end_date c.start_date && ltb 0 c.rent_amount && null_or_positive c.deposit)

-- Ids are distinct; no property has two active contracts; no contract has dates, a rent or a deposit
-- that its CHECKs exclude.
pub record ContractRules (cs : List Contract) : Type 0 where
  pub ids : DistinctIds cs
  pub one_active : (pid : ℕ) → count (holds_property pid) cs ≤ 1
  pub well_formed : count is_faulty cs ≡ 0

contract_alone :
    (c : Contract) (t : Tables) (pid : ℕ)
    → contract_violation c t ≡ none
    → holds_property pid c ≡ true
    → count (holds_property pid) (others c.id t.contracts) ≡ 0
unfolding contract_violation
contract_alone c t pid h a =
    let same : pid ≡ c.property_id = ground arith in
    rw same
      (ground (arith, count-any-false (holds_property c.property_id) (others c.id t.contracts)))

contract_well_formed :
    (c : Contract) (t : Tables) → contract_violation c t ≡ none → is_faulty c ≡ false
unfolding contract_violation
contract_well_formed c t h = ground arith

module _ (c : Contract) (t : Tables) (holds : contract_violation c t ≡ none)
    (rules : ContractRules t.contracts) where
  pub ContractRules-append : find c.id t.contracts ≡ none → ContractRules (t.contracts ++ c ∷ [])
  ContractRules-append fresh = record {
    ids = DistinctIds-append t.contracts c rules.ids fresh;
    one_active = λ pid.
        single-append (holds_property pid) t.contracts c (contract_alone c t pid holds)
          (rules.one_active pid) fresh;
    well_formed =
        no_row-append is_faulty t.contracts c (contract_well_formed c t holds) rules.well_formed;
  }

  pub ContractRules-replace : ContractRules (replace c t.contracts)
  ContractRules-replace = record {
    ids = DistinctIds-replace c t.contracts rules.ids;
    one_active = λ pid.
        single-replace (holds_property pid) t.contracts c (contract_alone c t pid holds)
          (rules.one_active pid) rules.ids;
    well_formed =
        no_row-replace is_faulty t.contracts c (contract_well_formed c t holds) rules.well_formed;
  }

pub ContractRules-remove :
    (i : ℕ) (cs : List Contract) → ContractRules cs → ContractRules (remove i cs)
ContractRules-remove i cs rules = record {
  ids = DistinctIds-remove i cs rules.ids;
  one_active =
      λ pid. omega (arith, count-remove-le (holds_property pid) cs i, rules.one_active pid);
  well_formed = omega (arith, count-remove-le is_faulty cs i, rules.well_formed);
}

-- a billing record that breaks one of its CHECK constraints
abbrev pub is_malformed : BillingRecord → Bool
is_malformed r = not (
    ltb 0 r.amount_due
    && null_or_positive r.late_fee_amount_charged
    && null_or_positive r.overpaid_amount
    && late_fee_consistent r.late_fee_applied r.late_fee_amount_charged
    && ltb r.period_start r.period_end
    && leb r.period_start r.due_date)

-- Ids are distinct; no lease has two records for one period; no record has an amount, a late fee or
-- dates that its CHECKs exclude.
pub record RecordRules (rs : List BillingRecord) : Type 0 where
  pub ids : DistinctIds rs
  pub one_per_period : (lid start : ℕ) → count (same_period lid start) rs ≤ 1
  pub well_formed : count is_malformed rs ≡ 0

record_alone :
    (r : BillingRecord) (t : Tables) (lid start : ℕ)
    → billing_record_violation r t ≡ none
    → same_period lid start r ≡ true
    → count (same_period lid start) (others r.id t.billing_records) ≡ 0
unfolding billing_record_violation
record_alone r t lid start h a =
    let same : lid ≡ r.lease_id = ground arith in
    let day : start ≡ r.period_start = ground arith in
    rw (same, day)
      (ground (
        arith,
        count-any-false (same_period r.lease_id r.period_start) (others r.id t.billing_records),
      ))

record_well_formed :
    (r : BillingRecord) (t : Tables) → billing_record_violation r t ≡ none → is_malformed r ≡ false
unfolding billing_record_violation
record_well_formed r t h = ground arith

module _ (r : BillingRecord) (t : Tables) (holds : billing_record_violation r t ≡ none)
    (rules : RecordRules t.billing_records) where
  pub RecordRules-append :
      find r.id t.billing_records ≡ none → RecordRules (t.billing_records ++ r ∷ [])
  RecordRules-append fresh = record {
    ids = DistinctIds-append t.billing_records r rules.ids fresh;
    one_per_period = λ lid start.
        single-append (same_period lid start) t.billing_records r (record_alone r t lid start holds)
          (rules.one_per_period lid start) fresh;
    well_formed =
        no_row-append is_malformed t.billing_records r (record_well_formed r t holds)
          rules.well_formed;
  }

  pub RecordRules-replace : RecordRules (replace r t.billing_records)
  RecordRules-replace = record {
    ids = DistinctIds-replace r t.billing_records rules.ids;
    one_per_period = λ lid start.
        single-replace (same_period lid start) t.billing_records r
          (record_alone r t lid start holds) (rules.one_per_period lid start) rules.ids;
    well_formed =
        no_row-replace is_malformed t.billing_records r (record_well_formed r t holds)
          rules.well_formed;
  }

pub RecordRules-remove :
    (i : ℕ) (rs : List BillingRecord) → RecordRules rs → RecordRules (remove i rs)
RecordRules-remove i rs rules = record {
  ids = DistinctIds-remove i rs rules.ids;
  one_per_period = λ lid start.
      omega (arith, count-remove-le (same_period lid start) rs i, rules.one_per_period lid start);
  well_formed = omega (arith, count-remove-le is_malformed rs i, rules.well_formed);
}
