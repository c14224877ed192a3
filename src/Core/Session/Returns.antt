-- ===== src/Core/Session/Returns.antt =====
-- What a call that returned tells of its steps.
use propnest_api.Base.{Bool, true, false, Option, none, some, ◌≡◌, refl, arith}
use propnest_api.Core.Error.{Error, Result, ok, err}
use propnest_api.Core.Schema.{Tables}
use propnest_api.Core.Session.{
  Session, Action, pure, lift, query, or_raise, raise_if, commit, resume, ◌>>=◌, rethrow,
}

-- The call returns `a` and leaves the session as `s'`.
abbrev pub Returns : {A : Type 0} → Action A → Session → A → Session → Type 0
Returns m s a s' = m s ≡ (ok a, s')

module _ {A B : Type 0} where
  resume-returns :
      (r : Result A) (f : A → Action B) (s₁ : Session) {b : B} {s' : Session}
      → resume r f s₁ ≡ (ok b, s')
      → (a : A) × (r ≡ ok a) × (f a s₁ ≡ (ok b, s'))
  resume-returns (ok a) f s₁ h = (a, refl, h)
  resume-returns (err e) f s₁ h = ground arith

  pub >>=-Returns :
      (m : Action A) (f : A → Action B) (s : Session) {b : B} {s' : Session}
      → Returns (m >>= f) s b s'
      → (a : A) × (s₁ : Session) × Returns m s a s₁ × Returns (f a) s₁ b s'
  unfolding ◌>>=◌
  >>=-Returns m f s h =
      let (a, p, q) = resume-returns (m s).0 f (m s).1 h in (a, (m s).1, λ i. (p i, (m s).1), q)

module _ {A : Type 0} where
  pub pure-Returns :
      (a : A) (s : Session) {b : A} {s' : Session} → Returns (pure a) s b s' → (b ≡ a) × (s' ≡ s)
  unfolding pure
  pure-Returns a s h = ground arith

  pub lift-Returns :
      (r : Result A) (s : Session) {b : A} {s' : Session}
      → Returns (lift r) s b s'
      → (r ≡ ok b) × (s' ≡ s)
  unfolding lift
  lift-Returns r s h = ground arith

  pub query-Returns :
      (f : Tables → A) (s : Session) {b : A} {s' : Session}
      → Returns (query f) s b s'
      → (b ≡ f s.working) × (s' ≡ s)
  unfolding query
  query-Returns f s h = ground arith

  pub or_raise-Returns :
      (e : Error) (o : Option A) (s : Session) {b : A} {s' : Session}
      → Returns (or_raise e o) s b s'
      → (o ≡ some b) × (s' ≡ s)
  unfolding or_raise
  or_raise-Returns e none s h = ground arith
  or_raise-Returns e (some a) s h = ground arith

  rethrown :
      (t : Error → Error) (r : Result A) (s₁ : Session) {b : A} {s' : Session}
      → ◌≡◌ {A = Result A × Session}
          (elim r [ ok a ↦ (ok a, s₁) | err e ↦ (err (t e), s₁) ])
          (ok b, s')
      → ◌≡◌ {A = Result A × Session} (r, s₁) (ok b, s')
  rethrown t (ok a) s₁ h = h
  rethrown t (err e) s₁ h = ground arith

  pub rethrow-Returns :
      (t : Error → Error) (m : Action A) (s : Session) {b : A} {s' : Session}
      → Returns (rethrow t m) s b s'
      → Returns m s b s'
  unfolding rethrow
  rethrow-Returns t m s h = rethrown t (m s).0 (m s).1 h

pub raise_if-Returns :
    (b : Bool) (e : Error) (s : Session) {u : Unit {0}} {s' : Session}
    → Returns (raise_if b e) s u s'
    → (b ≡ false) × (s' ≡ s)
unfolding raise_if
raise_if-Returns true e s h = ground arith
raise_if-Returns false e s h = ground arith

pub commit-Returns :
    (s : Session) {u : Unit {0}} {s' : Session}
    → Returns commit s u s'
    → s' ≡ record s { committed = s.working }
unfolding commit
commit-Returns s h = ground arith
