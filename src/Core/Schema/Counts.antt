-- ===== src/Core/Schema/Counts.antt =====
-- Tests that at most one row of a table passes, and tests that none does, when a row is added,
-- replaced or removed.
use propnest_api.Base.{
  ℕ, ◌≤◌, ◌≡◌, Bool, true, false, none, List, [], ◌∷◌, ◌++◌, count, count-append, arith,
  Option-cases, Bool-cases, inl, inr, refl,
}
use propnest_api.Core.Schema.{HasId, find, replace, remove, others}
use propnest_api.Core.Schema.Rows.{
  DistinctIds, count-replace, count-remove, count-others, count-others-none,
}

module _ {A : Type 0} ⦃k : HasId A⦄ where
  replace_missing : (n : A) (rs : List A) → find (k.id_of n) rs ≡ none → replace n rs ≡ rs
  replace_missing n [] h = refl
  replace_missing n (r ∷ rs) h = ground (arith, replace_missing n rs)

  remove_missing : (i : ℕ) (rs : List A) → find i rs ≡ none → remove i rs ≡ rs
  remove_missing i [] h = refl
  remove_missing i (r ∷ rs) h = ground (arith, remove_missing i rs)

module _ {A : Type 0} ⦃k : HasId A⦄ (p : A → Bool) (rs : List A) where
  pub count-remove-le : (i : ℕ) → count p (remove i rs) ≤ count p rs
  count-remove-le i = elim (Option-cases (find i rs)) [
    | inl missing ↦ rw (remove_missing i rs missing) (omega arith)
    | inr (old, found) ↦ ground (arith, count-remove p i rs old found)
  ]

  module _ (n : A) (alone : p n ≡ true → count p (others (k.id_of n) rs) ≡ 0)
      (single : count p rs ≤ 1) where
    pub single-append : find (k.id_of n) rs ≡ none → count p (rs ++ n ∷ []) ≤ 1
    single-append fresh = ground (
      arith,
      count-append p rs (n ∷ []),
      count-others-none p (k.id_of n) rs fresh,
      Bool-cases (p n),
    )

    pub single-replace : DistinctIds rs → count p (replace n rs) ≤ 1
    single-replace distinct = elim (Option-cases (find (k.id_of n) rs)) [
      | inl missing ↦ rw (replace_missing n rs missing) single
      | inr (old, found) ↦ ground (
        arith,
        count-replace p n rs old found,
        count-others p (k.id_of n) rs old distinct found,
        Bool-cases (p n),
      )
    ]

  module _ (n : A) (fails : p n ≡ false) (no_row : count p rs ≡ 0) where
    pub no_row-append : count p (rs ++ n ∷ []) ≡ 0
    no_row-append = ground (arith, count-append p rs (n ∷ []))

    pub no_row-replace : count p (replace n rs) ≡ 0
    no_row-replace = elim (Option-cases (find (k.id_of n) rs)) [
      | inl missing ↦ rw (replace_missing n rs missing) no_row
      | inr (old, found) ↦ ground (arith, count-replace p n rs old found)
    ]
