-- ===== src/Leasing/Contracts/Occupancy/Steps.antt =====
-- A contract that is changed, added or removed.
use propnest_api.Leasing.Contracts.{resolve_property_status_transition}
use propnest_api.Base.{
  [], ◌∷◌, ◌++◌, count-append, ◌≢◌, ◌+◌, Option, ℕ, ◌≤◌, ◌≡◌, true, none, some, List, count, arith,
  if◌then◌else◌,
}
use propnest_api.Core.Schema.{remove, replace, Tables, find, others, contract_key, property_key}
use propnest_api.Core.Schema.Rows.{
  count-remove, count-others-none, DistinctIds-append, DistinctIds-replace, DistinctIds-remove,
  count-others, count-replace,
}
use propnest_api.Core.Constraints.{holds_property, contract_violation}
use propnest_api.Models.Property.{Property, PropertyStatus}
use propnest_api.Models.Contract.{Contract}
use propnest_api.Leasing.Contracts.Occupancy.{
  occupancy, status_for, IsSynced, admitted_alone, with_status, status_or, IsSynced-change,
}

module _ (c c' : Contract) (t : Tables) (synced : IsSynced t.properties t.contracts)
    (same_id : c'.id ≡ c.id) (same_property : c'.property_id ≡ c.property_id)
    (found : find c.id t.contracts ≡ some c) (admitted : contract_violation c' t ≡ none) where
  -- the number of active contracts on a property after `c` has become `c'`
  occupancy-replace :
      (pid : ℕ)
      → occupancy pid (replace c' t.contracts) + (if holds_property pid c then 1 else 0)
        ≡ occupancy pid t.contracts + (if holds_property pid c' then 1 else 0)
  occupancy-replace pid = count-replace (holds_property pid) c' t.contracts c (rw same_id found)

  occupancy-others :
      (pid : ℕ)
      → count (holds_property pid) (others c'.id t.contracts)
          + (if holds_property pid c then 1 else 0)
        ≡ occupancy pid t.contracts
  occupancy-others pid =
      count-others (holds_property pid) c'.id t.contracts c synced.contract_ids (rw same_id found)

  -- a contract that fills its property is the only one there
  occupancy_filled :
      (pid : ℕ) → holds_property pid c' ≡ true → occupancy pid (replace c' t.contracts) ≡ 1
  occupancy_filled pid h =
      ground (arith, occupancy-replace pid, occupancy-others pid, admitted_alone c' t admitted)

  occupancy_single : (pid : ℕ) → occupancy pid (replace c' t.contracts) ≤ 1
  occupancy_single pid = ground (
    arith,
    occupancy-replace pid,
    occupancy-others pid,
    synced.single pid,
    admitted_alone c' t admitted,
  )

  abbrev next_status : Option PropertyStatus
  next_status = resolve_property_status_transition (some c.status) (some c'.status)

  -- the number changes only on the contract's property
  occupancy_elsewhere :
      (pid : ℕ)
      → pid ≢ c.property_id
      → occupancy pid (replace c' t.contracts) ≡ occupancy pid t.contracts
  occupancy_elsewhere pid h = ground (arith, occupancy-replace pid)

  -- the status that is set on it goes with the number that it has then
  occupancy_here :
      (p : Property)
      → find c.property_id t.properties ≡ some p
      → status_or next_status p.status
        ≡ status_for (occupancy c.property_id (replace c' t.contracts))
  unfolding resolve_property_status_transition
  occupancy_here p h = ground (
    arith,
    occupancy-replace c.property_id,
    occupancy-others c.property_id,
    synced.single c.property_id,
    synced.status c.property_id p h,
    admitted_alone c' t admitted,
  )

  pub IsSynced-replace :
      IsSynced (with_status c.property_id next_status t.properties) (replace c' t.contracts)
  IsSynced-replace =
      IsSynced-change c.property_id next_status t.properties t.contracts (replace c' t.contracts)
        synced (DistinctIds-replace c' t.contracts synced.contract_ids) occupancy_single
        occupancy_elsewhere occupancy_here

-- a new contract
module _ (c : Contract) (t : Tables) (synced : IsSynced t.properties t.contracts)
    (fresh : find c.id t.contracts ≡ none) (admitted : contract_violation c t ≡ none) where
  occupancy-append :
      (pid : ℕ)
      → occupancy pid (t.contracts ++ c ∷ [])
        ≡ count (holds_property pid) (others c.id t.contracts)
          + (if holds_property pid c then 1 else 0)
  occupancy-append pid = ground (
    arith,
    count-append (holds_property pid) t.contracts (c ∷ []),
    count-others-none (holds_property pid) c.id t.contracts fresh,
  )

  others_same :
      (pid : ℕ) → count (holds_property pid) (others c.id t.contracts) ≡ occupancy pid t.contracts
  others_same pid = count-others-none (holds_property pid) c.id t.contracts fresh

  pub IsSynced-append :
      IsSynced
        (with_status c.property_id
          (resolve_property_status_transition none (some c.status))
          t.properties)
        (t.contracts ++ c ∷ [])
  unfolding resolve_property_status_transition
  IsSynced-append =
      IsSynced-change c.property_id (resolve_property_status_transition none (some c.status))
        t.properties t.contracts (t.contracts ++ c ∷ []) synced
        (DistinctIds-append t.contracts c synced.contract_ids fresh)
        (λ j.
          ground (
            arith,
            occupancy-append j,
            others_same j,
            synced.single j,
            admitted_alone c t admitted,
          ))
        (λ j ne. ground (arith, occupancy-append j, others_same j))
        (λ p h. ground (
          arith,
          occupancy-append c.property_id,
          others_same c.property_id,
          synced.status c.property_id p h,
        ))

-- a contract that is deleted
module _ (c : Contract) (ps : List Property) (cs : List Contract) (synced : IsSynced ps cs)
    (found : find c.id cs ≡ some c) where
  pub IsSynced-remove :
      IsSynced
        (with_status c.property_id (resolve_property_status_transition (some c.status) none) ps)
        (remove c.id cs)
  unfolding resolve_property_status_transition
  IsSynced-remove =
      IsSynced-change c.property_id (resolve_property_status_transition (some c.status) none) ps cs
        (remove c.id cs) synced (DistinctIds-remove c.id cs synced.contract_ids)
        (λ j. ground (arith, count-remove (holds_property j) c.id cs c found, synced.single j))
        (λ j ne. ground (arith, count-remove (holds_property j) c.id cs c found))
        (λ p h. ground (
          arith,
          count-remove (holds_property c.property_id) c.id cs c found,
          synced.single c.property_id,
          synced.status c.property_id p h,
        ))
