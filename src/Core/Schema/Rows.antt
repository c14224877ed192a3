-- ===== src/Core/Schema/Rows.antt =====
-- Tables of rows with distinct ids: lookups and counts after a row is added, replaced or removed.
use propnest_api.Base.{
  ℕ, ◌+◌, ◌≡◌, ◌≢◌, refl, Bool, false, none, some, List, [], ◌∷◌, ◌++◌, ◌==◌, count, any, arith,
  if◌then◌else◌,
}
use propnest_api.Core.Schema.{HasId, find, replace, remove, others}

module _ {A : Type 0} ⦃k : HasId A⦄ where
  abbrev pub DistinctIds : List A → Type 0
  DistinctIds [] = Unit
  DistinctIds (r ∷ rs) = (find (k.id_of r) rs ≡ none) × DistinctIds rs

  -- a found row has the id that was looked for
  pub id_of-find : (i : ℕ) (rs : List A) (f : A) → find i rs ≡ some f → k.id_of f ≡ i
  id_of-find i [] f h = cc
  id_of-find i (r ∷ rs) f h = ground (arith, id_of-find i rs f)

  pub find-append :
      (i : ℕ) (rs : List A) (n : A)
      → find i (rs ++ n ∷ [])
        ≡ (elim (find i rs) [ none ↦ (if k.id_of n == i then some n else none) | some r ↦ some r ])
  find-append i [] n = ground arith
  find-append i (r ∷ rs) n = ground (arith, find-append i rs n)

  pub find-replace :
      (i : ℕ) (n : A) (rs : List A)
      → find i (replace n rs)
        ≡ (elim (find i rs) [ none ↦ none | some r ↦ (if k.id_of n == i then some n else some r) ])
  find-replace i n [] = refl
  find-replace i n (r ∷ rs) = ground (arith, find-replace i n rs)

  pub find-remove_ne : (i j : ℕ) (rs : List A) → i ≢ j → find i (remove j rs) ≡ find i rs
  find-remove_ne i j [] h = refl
  find-remove_ne i j (r ∷ rs) h = ground (arith, find-remove_ne i j rs h)

  pub DistinctIds-append :
      (rs : List A) (n : A)
      → DistinctIds rs
      → find (k.id_of n) rs ≡ none
      → DistinctIds (rs ++ n ∷ [])
  DistinctIds-append [] n d h = (refl, tt)
  DistinctIds-append (r ∷ rs) n d h =
      ground (arith, DistinctIds-append rs n d.1, find-append (k.id_of r) rs n)

  pub DistinctIds-replace : (n : A) (rs : List A) → DistinctIds rs → DistinctIds (replace n rs)
  DistinctIds-replace n [] d = tt
  DistinctIds-replace n (r ∷ rs) d =
      ground (arith, DistinctIds-replace n rs d.1, find-replace (k.id_of r) n rs)

  find-remove-none : (i j : ℕ) (rs : List A) → find i rs ≡ none → find i (remove j rs) ≡ none
  find-remove-none i j [] h = refl
  find-remove-none i j (r ∷ rs) h = ground (arith, find-remove-none i j rs)

  pub DistinctIds-remove : (j : ℕ) (rs : List A) → DistinctIds rs → DistinctIds (remove j rs)
  DistinctIds-remove j [] d = tt
  DistinctIds-remove j (r ∷ rs) d =
      ground (arith, DistinctIds-remove j rs d.1, find-remove-none (k.id_of r) j rs)

module _ {A : Type 0} ⦃k : HasId A⦄ (p : A → Bool) where
  -- 1 if the test passes
  abbrev pub one_if : A → ℕ
  one_if r = if p r then 1 else 0

  pub count-replace :
      (n : A) (rs : List A) (old : A)
      → find (k.id_of n) rs ≡ some old
      → count p (replace n rs) + one_if old ≡ count p rs + one_if n
  count-replace n [] old h = cc
  count-replace n (r ∷ rs) old h = ground (arith, count-replace n rs old)

  pub count-remove :
      (i : ℕ) (rs : List A) (old : A)
      → find i rs ≡ some old
      → count p (remove i rs) + one_if old ≡ count p rs
  count-remove i [] old h = cc
  count-remove i (r ∷ rs) old h = ground (arith, count-remove i rs old)

  pub count-others-none :
      (i : ℕ) (rs : List A) → find i rs ≡ none → count p (others i rs) ≡ count p rs
  count-others-none i [] h = refl
  count-others-none i (r ∷ rs) h = ground (arith, count-others-none i rs)

  pub count-others :
      (i : ℕ) (rs : List A) (old : A)
      → DistinctIds rs
      → find i rs ≡ some old
      → count p (others i rs) + one_if old ≡ count p rs
  count-others i [] old d h = cc
  count-others i (r ∷ rs) old d h =
      ground (arith, id_of-find i rs old, count-others i rs old d.1, count-others-none i rs)

  pub count-any-false : (rs : List A) → any p rs ≡ false → count p rs ≡ 0
  count-any-false [] h = refl
  count-any-false (r ∷ rs) h = ground (arith, count-any-false rs)
