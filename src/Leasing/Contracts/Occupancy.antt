-- ===== src/Leasing/Contracts/Occupancy.antt =====
-- A property is occupied exactly while it has an active contract, and it has at most one: the pure
-- part, on tables.
pub mod Steps
use propnest_api.Base.{
  refl, ◌==◌, inr, Bool-cases, inl, ◌⊎◌, Option-cases, ◌≢◌, Option, ℕ, ◌≤◌, ◌≡◌, true, none, some,
  List, count, arith, ltb, if◌then◌else◌,
}
use propnest_api.Core.Schema.{replace, Tables, find, others, contract_key, property_key}
use propnest_api.Core.Schema.Rows.{
  id_of-find, find-replace, DistinctIds-replace, DistinctIds, count-any-false,
}
use propnest_api.Core.Constraints.{holds_property, contract_violation}
use propnest_api.Models.Property.{Property, PropertyStatus, vacant, occupied}
use propnest_api.Models.Contract
use propnest_api.Models.Contract.{Contract}

-- the number of active contracts on a property
abbrev pub occupancy : ℕ → List Contract → ℕ
occupancy pid cs = count (holds_property pid) cs

-- the status that goes with that number
abbrev pub status_for : ℕ → PropertyStatus
status_for n = if ltb 0 n then occupied else vacant

pub record IsSynced (ps : List Property) (cs : List Contract) : Type 0 where
  pub contract_ids : DistinctIds cs
  pub property_ids : DistinctIds ps
  pub single : (pid : ℕ) → occupancy pid cs ≤ 1
  pub status :
      (pid : ℕ) (p : Property) → find pid ps ≡ some p → p.status ≡ status_for (occupancy pid cs)

-- What the partial unique index tells of a contract that it admits.
pub admitted_alone :
    (c : Contract) (t : Tables)
    → contract_violation c t ≡ none
    → Contract.is_active c.status ≡ true
    → count (holds_property c.property_id) (others c.id t.contracts) ≡ 0
unfolding contract_violation
admitted_alone c t h a =
    ground (arith, count-any-false (holds_property c.property_id) (others c.id t.contracts))

-- `UPDATE properties SET status = …` for the id, if a status is to be set
abbrev pub with_status : ℕ → Option PropertyStatus → List Property → List Property
with_status pid none ps = ps
with_status pid (some st) ps = elim (find pid ps) [
  | none ↦ ps
  | some p ↦ replace (record p { status = st }) ps
]

with_status-DistinctIds :
    (i : ℕ) (st : Option PropertyStatus) (ps : List Property)
    → DistinctIds ps
    → DistinctIds (with_status i st ps)
with_status-DistinctIds i none ps d = d
with_status-DistinctIds i (some st) ps d = elim (Option-cases (find i ps)) [
  | inl missing ↦ rw (missing, with_status) d
  | inr (p, found) ↦ rw (found, with_status) (DistinctIds-replace (record p { status = st }) ps d)
]

-- a property's status once one may have been set
abbrev pub status_or : Option PropertyStatus → PropertyStatus → PropertyStatus
status_or none old = old
status_or (some st) old = st

find-with_status :
    (i j : ℕ) (st : Option PropertyStatus) (ps : List Property) (p' : Property)
    → find j (with_status i st ps) ≡ some p'
    → ((j ≢ i) × (find j ps ≡ some p'))
      ⊎ ((p : Property) × (j ≡ i) × (find i ps ≡ some p) × (p'.status ≡ status_or st p.status))
find-with_status i j none ps p' h = elim (Bool-cases (j == i)) [
  | inl e ↦ inr (p', ground arith, ground arith, refl)
  | inr e ↦ inl (ground arith, h)
]
find-with_status i j (some st) ps p' h = elim (Option-cases (find i ps)) [
  | inl missing ↦ inl (ground arith, rw (missing, with_status) at h)
  | inr (p, found) ↦ elim (Bool-cases (j == i)) [
    | inl e ↦ inr (
      p,
      ground arith,
      found,
      ground (arith, find-replace j (record p { status = st }) ps, id_of-find i ps p),
    )
    | inr e ↦ inl (
      ground arith,
      ground (arith, find-replace j (record p { status = st }) ps, id_of-find i ps p),
    )
  ]
]

-- A change of the contracts on one property, with the status that goes with it.
pub IsSynced-change :
    (i : ℕ) (st : Option PropertyStatus) (ps : List Property) (cs cs' : List Contract)
    → IsSynced ps cs
    → DistinctIds cs'
    → ((j : ℕ) → occupancy j cs' ≤ 1)
    → ((j : ℕ) → j ≢ i → occupancy j cs' ≡ occupancy j cs)
    → ((p : Property) → find i ps ≡ some p → status_or st p.status ≡ status_for (occupancy i cs'))
    → IsSynced (with_status i st ps) cs'
IsSynced-change i st ps cs cs' synced d one away here = record {
  contract_ids = d;
  property_ids = with_status-DistinctIds i st ps synced.property_ids;
  single = one;
  status = λ j p' h. elim (find-with_status i j st ps p' h) [
    | inl (ne, old) ↦ ground (arith, away j ne, synced.status j p' old)
    | inr (p, e, found, q) ↦ ground (arith, here p found)
  ];
}
