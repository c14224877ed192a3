-- ===== src/Core/Repository/Returns.antt =====
-- What a repository call that returned has done.
use propnest_api.Base.{
  refl, inr, inl, ◌∙◌, ℕ, ◌+◌, Option, none, some, [], ◌∷◌, ◌++◌, ◌≡◌, ◌⊎◌, arith, Option-cases,
}
use propnest_api.Core.Error.{Result, ok, Constraint}
use propnest_api.Core.Schema.{Tables, find, replace, remove}
use propnest_api.Core.Session.{Session}
use propnest_api.Core.Session.Returns.{
  lift-Returns, pure-Returns, >>=-Returns, Returns, query-Returns,
}
use propnest_api.Core.Session.Reads.{Reads, read_rules}
use propnest_api.Core.Repository.{
  lift, discard, erase, assign, Repo, get_by_id, insert, create, write, flush, update, delete,
}

module _ {A : Type 0} (repo : Repo A) where
  pub Reads-get_by_id : (i : ℕ) → Reads (get_by_id repo i)
  unfolding get_by_id
  Reads-get_by_id i = search read_rules

  pub get_by_id-Returns :
      (i : ℕ) (s : Session) {b : Option A} {s' : Session}
      → Returns (get_by_id repo i) s b s'
      → (b ≡ find ⦃k = repo.key⦄ i (repo.rows s.working)) × (s' ≡ s)
  unfolding get_by_id
  get_by_id-Returns i s h = query-Returns (λ t. find ⦃k = repo.key⦄ i (repo.rows t)) s h

  -- the tables with the row appended
  abbrev pub inserted : A → Tables → Tables
  inserted r t = repo.with_rows t (repo.rows t ++ r ∷ [])

  abbrev pub written : A → Tables → Tables
  written r t = repo.with_rows t (replace ⦃k = repo.key⦄ r (repo.rows t))

  abbrev pub erased : ℕ → Tables → Tables
  erased i t = repo.unlink i (repo.with_rows t (remove ⦃k = repo.key⦄ i (repo.rows t)))

  insert-Returns :
      (r : A) (c : Option Constraint) (s : Session) {b : A} {s' : Session}
      → Returns (insert repo r c) s b s'
      → (b ≡ r) × (c ≡ none) × (s' ≡ record s { working = inserted r s.working })
  unfolding insert
  insert-Returns r none s h = ground arith
  insert-Returns r (some c) s h = ground arith

  pub create-Returns :
      (make : ℕ → A) (s : Session) {b : A} {s' : Session}
      → Returns (create repo make) s b s'
      → (b ≡ make s.next_id)
        × (find ⦃k = repo.key⦄ (repo.key.id_of (make s.next_id)) (repo.rows s.working) ≡ none)
        × (repo.violation (make s.next_id) s.working ≡ none)
        × (s'.working ≡ inserted (make s.next_id) s.working)
  unfolding create
  create-Returns make s h =
      let facts = insert-Returns (make s.next_id) _ (record s { next_id = s.next_id + 1 }) h in
      let known =
        Option-cases
          (find ⦃k = repo.key⦄ (repo.key.id_of (make s.next_id)) (repo.rows s.working)) in
      ground arith

  pub flush-Returns :
      (r : A) (s : Session) {b : A} {s' : Session}
      → Returns (flush repo r) s b s'
      → (b ≡ r)
        × (repo.violation r s.working ≡ none)
        × (s' ≡ record s { working = written r s.working })
  unfolding flush
  flush-Returns r s h = write-Returns r (repo.violation r s.working) s h
    where
      write-Returns :
          (r : A) (c : Option Constraint) (s : Session) {b : A} {s' : Session}
          → Returns (write repo r c) s b s'
          → (b ≡ r) × (c ≡ none) × (s' ≡ record s { working = written r s.working })
      write-Returns r none s h = ground arith
      write-Returns r (some c) s h = ground arith

  assign-Returns :
      (change : A → Result A) (o : Option A) (s : Session) {b : Option A} {s' : Session}
      → Returns (assign repo change o) s b s'
      → ((o ≡ none) × (b ≡ none) × (s' ≡ s))
        ⊎ ((old : A) × (new : A) × (o ≡ some old)
            × (change old ≡ ok new)
            × (repo.violation new s.working ≡ none)
            × (b ≡ some new)
            × (s' ≡ record s { working = written new s.working }))
  unfolding assign
  assign-Returns change none s h = let (e, p) = pure-Returns none s h in inl (refl, e, p)
  assign-Returns change (some old) s h =
      let (new, s₁, h₁, h₂) = >>=-Returns (lift (change old)) _ s h in
      let (row, s₂, h₃, h₄) = >>=-Returns (flush repo new) _ s₁ h₂ in
      let (changed, e₁) = lift-Returns (change old) s h₁ in
      let (same, holds, e₂) = flush-Returns new s (rw e₁ at h₃) in
      let (result, e₃) = pure-Returns (some row) s₂ h₄ in
      inr (old, new, refl, changed, holds, cc, e₃ ∙ e₂)

  -- An update finds no row and changes nothing, or writes the changed row.
  pub update-Returns :
      (i : ℕ) (change : A → Result A) (s : Session) {b : Option A} {s' : Session}
      → Returns (update repo i change) s b s'
      → ((find ⦃k = repo.key⦄ i (repo.rows s.working) ≡ none) × (b ≡ none) × (s' ≡ s))
        ⊎ ((old : A) × (new : A) × (find ⦃k = repo.key⦄ i (repo.rows s.working) ≡ some old)
            × (change old ≡ ok new)
            × (repo.violation new s.working ≡ none)
            × (b ≡ some new)
            × (s' ≡ record s { working = written new s.working }))
  unfolding update
  update-Returns i change s h =
      let (found, s₁, h₁, h₂) = >>=-Returns (get_by_id repo i) (assign repo change) s h in
      let (e, p) = get_by_id-Returns i s h₁ in
      assign-Returns change (find ⦃k = repo.key⦄ i (repo.rows s.working)) s (rw (e, p) at h₂)

  erase-Returns :
      (r : A) (c : Option Constraint) (s : Session) {b : Option A} {s' : Session}
      → Returns (erase repo r c) s b s'
      → (c ≡ none)
        × (b ≡ some r)
        × (s' ≡ record s { working = erased (repo.key.id_of r) s.working })
  unfolding erase
  erase-Returns r none s h = ground arith
  erase-Returns r (some c) s h = ground arith

  discard-Returns :
      (o : Option A) (s : Session) {b : Option A} {s' : Session}
      → Returns (discard repo o) s b s'
      → ((o ≡ none) × (b ≡ none) × (s' ≡ s))
        ⊎ ((old : A) × (o ≡ some old)
            × (repo.referenced (repo.key.id_of old) s.working ≡ none)
            × (b ≡ some old)
            × (s' ≡ record s { working = erased (repo.key.id_of old) s.working }))
  unfolding discard
  discard-Returns none s h = ground arith
  discard-Returns (some r) s h =
      let (e, p, q) = erase-Returns r (repo.referenced (repo.key.id_of r) s.working) s h in
      inr (r, refl, e, p, q)

  -- A deletion finds no row and changes nothing, or removes it.
  pub delete-Returns :
      (i : ℕ) (s : Session) {b : Option A} {s' : Session}
      → Returns (delete repo i) s b s'
      → ((find ⦃k = repo.key⦄ i (repo.rows s.working) ≡ none) × (b ≡ none) × (s' ≡ s))
        ⊎ ((old : A) × (find ⦃k = repo.key⦄ i (repo.rows s.working) ≡ some old)
            × (repo.referenced (repo.key.id_of old) s.working ≡ none)
            × (b ≡ some old)
            × (s' ≡ record s { working = erased (repo.key.id_of old) s.working }))
  unfolding delete
  delete-Returns i s h =
      let (found, s₁, h₁, h₂) = >>=-Returns (get_by_id repo i) (discard repo) s h in
      let (e, p) = get_by_id-Returns i s h₁ in
      discard-Returns (find ⦃k = repo.key⦄ i (repo.rows s.working)) s (rw (e, p) at h₂)
