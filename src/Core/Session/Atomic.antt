-- ===== src/Core/Session/Atomic.antt =====
-- Actions that commit nothing, and actions that have committed nothing when they raise, with one
-- rule for each way to build an action.
use propnest_api.Base.{Bool, true, false, Option, none, some, ◌≡◌, refl, ◌∙◌, arith, if◌then◌else◌}
use propnest_api.Core.Error.{Error, Result, ok, err}
use propnest_api.Core.Schema.{Tables}
use propnest_api.Core.Session.{
  Session, Action, pure, raise, lift, query, or_raise, raise_if, commit, resume, ◌>>=◌, rethrow,
  run, Store, begin,
}

pub record NoCommit {A : Type 0} (m : Action A) : Type 0 where
  pub keeps : (s : Session) → (m s).1.committed ≡ s.committed

-- raises under no circumstances
pub record Total {A : Type 0} (m : Action A) : Type 0 where
  pub value : (s : Session) → (a : A) × ((m s).0 ≡ ok a)

pub record Atomic {A : Type 0} (m : Action A) : Type 0 where
  pub on_error : (s : Session) (e : Error) → (m s).0 ≡ err e → (m s).1.committed ≡ s.committed

module _ {A : Type 0} where
  pub NoCommit-pure : (a : A) → NoCommit (pure a)
  unfolding pure
  NoCommit-pure a = record { keeps = λ s. refl }

  pub NoCommit-raise : (e : Error) → NoCommit (raise {A = A} e)
  unfolding raise
  NoCommit-raise e = record { keeps = λ s. refl }

  pub NoCommit-lift : (r : Result A) → NoCommit (lift r)
  unfolding lift
  NoCommit-lift r = record { keeps = λ s. refl }

  pub NoCommit-query : (f : Tables → A) → NoCommit (query f)
  unfolding query
  NoCommit-query f = record { keeps = λ s. refl }

  or_raise_keeps :
      (e : Error) (o : Option A) (s : Session) → (or_raise e o s).1.committed ≡ s.committed
  unfolding or_raise
  or_raise_keeps e none s = refl
  or_raise_keeps e (some a) s = refl

  pub NoCommit-or_raise : (e : Error) (o : Option A) → NoCommit (or_raise e o)
  NoCommit-or_raise e o = record { keeps = or_raise_keeps e o }

  pub NoCommit-if :
      (b : Bool) (m n : Action A) → NoCommit m → NoCommit n → NoCommit (if b then m else n)
  NoCommit-if true m n km kn = km
  NoCommit-if false m n km kn = kn

  pub NoCommit-rethrow : (t : Error → Error) (m : Action A) → NoCommit m → NoCommit (rethrow t m)
  unfolding rethrow
  NoCommit-rethrow t m km = record { keeps = λ s. ground (arith, km.keeps s) }

  pub Total-pure : (a : A) → Total (pure a)
  unfolding pure
  Total-pure a = record { value = λ s. (a, refl) }

  pub Total-query : (f : Tables → A) → Total (query f)
  unfolding query
  Total-query f = record { value = λ s. (f s.working, refl) }

  pub Atomic-NoCommit : (m : Action A) → NoCommit m → Atomic m
  Atomic-NoCommit m k = record { on_error = λ s e h. k.keeps s }

  pub Atomic-Total : (m : Action A) → Total m → Atomic m
  Atomic-Total m k = record { on_error = λ s e h. let (a, p) = k.value s in cc }

  pub Atomic-if : (b : Bool) (m n : Action A) → Atomic m → Atomic n → Atomic (if b then m else n)
  Atomic-if true m n km kn = km
  Atomic-if false m n km kn = kn

  retranslated :
      (t : Error → Error) (m : Action A) (s : Session) (r : Result A)
      → (m s).0 ≡ r
      → ((e : Error) → r ≡ err e → (m s).1.committed ≡ s.committed)
      → (e : Error) → (rethrow t m s).0 ≡ err e
      → (rethrow t m s).1.committed ≡ s.committed
  unfolding rethrow
  retranslated t m s (ok a) p k e h = ground arith
  retranslated t m s (err e') p k e h = ground (arith, k e' refl)

  pub Atomic-rethrow : (t : Error → Error) (m : Action A) → Atomic m → Atomic (rethrow t m)
  Atomic-rethrow t m km = record {
    on_error = λ s e h. retranslated t m s (m s).0 refl (km.on_error s) e h;
  }

pub NoCommit-raise_if : (b : Bool) (e : Error) → NoCommit (raise_if b e)
unfolding raise_if
NoCommit-raise_if b e = record { keeps = λ s. refl }

module _ {A B : Type 0} where
  resume_keeps :
      (r : Result A) (f : A → Action B) (s : Session)
      → ((a : A) → NoCommit (f a))
      → (resume r f s).1.committed ≡ s.committed
  resume_keeps (ok a) f s kf = (kf a).keeps s
  resume_keeps (err e) f s kf = refl

  pub NoCommit-bind :
      (m : Action A) (f : A → Action B)
      → NoCommit m
      → ((a : A) → NoCommit (f a))
      → NoCommit (m >>= f)
  unfolding ◌>>=◌
  NoCommit-bind m f km kf = record {
    keeps = λ s. let (r, s') = m s in resume_keeps r f s' kf ∙ km.keeps s;
  }

  resume_on_error :
      (r : Result A) (f : A → Action B) (s : Session) (e : Error)
      → ((a : A) → Atomic (f a))
      → (resume r f s).0 ≡ err e
      → (resume r f s).1.committed ≡ s.committed
  resume_on_error (ok a) f s e kf h = (kf a).on_error s e h
  resume_on_error (err e') f s e kf h = refl

  pub Atomic-bind :
      (m : Action A) (f : A → Action B) → NoCommit m → ((a : A) → Atomic (f a)) → Atomic (m >>= f)
  unfolding ◌>>=◌
  Atomic-bind m f km kf = record {
    on_error = λ s e h. let (r, s') = m s in resume_on_error r f s' e kf h ∙ km.keeps s;
  }

  pub Total-bind :
      (m : Action A) (f : A → Action B) → Total m → ((a : A) → Total (f a)) → Total (m >>= f)
  unfolding ◌>>=◌
  Total-bind m f km kf = record {
    value = λ s. let (a, p) = km.value s in rw (p, resume) ((kf a).value (m s).1);
  }

pub Total-commit : Total commit
unfolding commit
Total-commit = record { value = λ s. (tt, refl) }

pub ruleset no_commit_rules = (
  NoCommit-pure, NoCommit-raise, NoCommit-lift, NoCommit-query, NoCommit-or_raise, NoCommit-if,
  NoCommit-rethrow, NoCommit-raise_if, NoCommit-bind,
)

pub ruleset atomic_rules = (Atomic-bind, Atomic-NoCommit, Atomic-if, Atomic-rethrow)

pub ruleset total_rules = (Total-pure, Total-query, Total-commit, Total-bind)

-- `m` with its result dropped
unfoldable pub ignore : {A : Type 0} → Action A → Action (Unit {0})
ignore m = m >>= λ _. pure tt

module _ {A : Type 0} (m : Action A) where
  ignored_on_error :
      (s : Session) (r : Result A)
      → (m s).0 ≡ r
      → (e : Error) → (ignore m s).0 ≡ err e
      → Atomic m
      → (ignore m s).1.committed ≡ s.committed
  unfolding ignore ◌>>=◌
  ignored_on_error s (ok a) p e h k = ground arith
  ignored_on_error s (err e') p e h k = ground (arith, k.on_error s e' p)

  pub Atomic-ignore : Atomic m → Atomic (ignore m)
  Atomic-ignore k = record { on_error = λ s e h. ignored_on_error s (m s).0 refl e h k }

-- A request that raises leaves every table as it was.
pub run-Atomic :
    {A : Type 0} (m : Action A) (d : Store) (e : Error)
    → Atomic m
    → (run m d).0 ≡ err e
    → (run m d).1.tables ≡ d.tables
run-Atomic m d e k h = k.on_error (begin d) e h
