-- ===== src/Core/Repository/Keeps.antt =====
-- The repository's methods keep an invariant that every admitted row keeps.
use propnest_api.Base.{
  ℕ, ◌+◌, ◌≡◌, Option, none, some, [], ◌∷◌, ◌++◌, refl, arith, Option-cases, inl, inr,
}
use propnest_api.Core.Error.{Result, Constraint}
use propnest_api.Core.Schema.{Tables, find, replace, remove}
use propnest_api.Core.Session.{Session}
use propnest_api.Core.Session.Keeps.{Keeps, Keeps-Reads, keeps_rules, Both}
use propnest_api.Core.Session.Reads.{Reads, read_rules}
use propnest_api.Core.Repository.{
  Repo, all, first, count_rows, get_by_id, insert, create, write, flush, assign, update, erase,
  discard, delete, insert_violation,
}
use propnest_api.Core.Repository.Returns.{Reads-get_by_id}

-- The invariant is kept when a row that the constraints admit is added or written, and when a row
-- that is not referenced is removed.
pub record Admits {A : Type 0} (P : Tables → Type 0) (repo : Repo A) : Type 0 where
  pub inserted :
      (r : A) (t : Tables)
      → find ⦃k = repo.key⦄ (repo.key.id_of r) (repo.rows t) ≡ none
      → repo.violation r t ≡ none
      → P t
      → P (repo.with_rows t (repo.rows t ++ r ∷ []))
  pub replaced :
      (r : A) (t : Tables)
      → repo.violation r t ≡ none
      → P t
      → P (repo.with_rows t (replace ⦃k = repo.key⦄ r (repo.rows t)))
  pub removed :
      (i : ℕ) (t : Tables)
      → P t
      → P (repo.unlink i (repo.with_rows t (remove ⦃k = repo.key⦄ i (repo.rows t))))

module _ {A : Type 0} (P : Tables → Type 0) (repo : Repo A) where
  pub Reads-all : (p : A → _) → Reads (all repo p)
  unfolding all
  Reads-all p = search read_rules

  pub Reads-first : (p : A → _) → Reads (first repo p)
  unfolding first
  Reads-first p = search read_rules

  pub Reads-count_rows : (p : A → _) → Reads (count_rows repo p)
  unfolding count_rows
  Reads-count_rows p = search read_rules

  pub Keeps-get_by_id : (i : ℕ) → Keeps P (get_by_id repo i)
  Keeps-get_by_id i = Keeps-Reads P _ (Reads-get_by_id repo i)

  pub Keeps-first : (p : A → _) → Keeps P (first repo p)
  Keeps-first p = Keeps-Reads P _ (Reads-first p)

  module _ (law : Admits P repo) where
    insert_keeps :
        (r : A) (c : Option Constraint) (s : Session)
        → (c ≡ none → P (repo.with_rows s.working (repo.rows s.working ++ r ∷ [])))
        → Both P s
        → Both P (insert repo r c s).1
    unfolding insert
    insert_keeps r none s k (w, c) = (k refl, c)
    insert_keeps r (some x) s k h = h

    admitted :
        (r : A) (t : Tables)
        → insert_violation repo r t ≡ none
        → (find ⦃k = repo.key⦄ (repo.key.id_of r) (repo.rows t) ≡ none)
          × (repo.violation r t ≡ none)
    admitted r t h = elim (Option-cases (find ⦃k = repo.key⦄ (repo.key.id_of r) (repo.rows t))) [
      | inl missing ↦ ground arith
      | inr (old, found) ↦ ground arith
    ]

    pub Keeps-create : (make : ℕ → A) → Keeps P (create repo make)
    unfolding create
    Keeps-create make = record {
      keeps = λ s (w, c).
          insert_keeps (make s.next_id) _ (record s { next_id = s.next_id + 1 })
            (λ e.
              let (fresh, holds) = admitted (make s.next_id) s.working e in
              law.inserted (make s.next_id) s.working fresh holds w)
            (w, c);
    }

    write_keeps :
        (r : A) (c : Option Constraint) (s : Session)
        → (c ≡ none → P (repo.with_rows s.working (replace ⦃k = repo.key⦄ r (repo.rows s.working))))
        → Both P s
        → Both P (write repo r c s).1
    unfolding write
    write_keeps r none s k (w, c) = (k refl, c)
    write_keeps r (some x) s k h = h

    pub Keeps-flush : (r : A) → Keeps P (flush repo r)
    unfolding flush
    Keeps-flush r = record {
      keeps = λ s (w, c). write_keeps r _ s (λ e. law.replaced r s.working e w) (w, c);
    }

    Keeps-assign : (change : A → Result A) (o : Option A) → Keeps P (assign repo change o)
    unfolding assign
    Keeps-assign change none = search keeps_rules
    Keeps-assign change (some r) = search (keeps_rules, Keeps-flush)

    pub Keeps-update : (i : ℕ) (change : A → Result A) → Keeps P (update repo i change)
    unfolding update
    Keeps-update i change = search (keeps_rules, Keeps-get_by_id, Keeps-assign)

    erase_keeps :
        (r : A) (c : Option Constraint) (s : Session) → Both P s → Both P (erase repo r c s).1
    unfolding erase
    erase_keeps r none s (w, c) = (law.removed (repo.key.id_of r) s.working w, c)
    erase_keeps r (some x) s h = h

    discard_keeps : (o : Option A) (s : Session) → Both P s → Both P (discard repo o s).1
    unfolding discard
    discard_keeps none s h = h
    discard_keeps (some r) s h = erase_keeps r _ s h

    Keeps-discard : (o : Option A) → Keeps P (discard repo o)
    Keeps-discard o = record { keeps = discard_keeps o }

    pub Keeps-delete : (i : ℕ) → Keeps P (delete repo i)
    unfolding delete
    Keeps-delete i = search (keeps_rules, Keeps-get_by_id, Keeps-discard)
