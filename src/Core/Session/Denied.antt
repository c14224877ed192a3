-- ===== src/Core/Session/Denied.antt =====
-- Actions that always raise.
use propnest_api.Base.{true, ◌≡◌, refl}
use propnest_api.Core.Error.{Error, Result, ok, err}
use propnest_api.Core.Session.{
  Session, Action, raise, raise_if, resume, ◌>>=◌, pure, run, Store, begin,
}
use propnest_api.Core.Session.Atomic.{Atomic, ignore}

pub record Denied {A : Type 0} (m : Action A) : Type 0 where
  pub error : (s : Session) → (e : Error) × ((m s).0 ≡ err e)

module _ {A : Type 0} where
  pub Denied-raise : (e : Error) → Denied (raise {A = A} e)
  unfolding raise
  Denied-raise e = record { error = λ s. (e, refl) }

pub Denied-raise_if : (e : Error) → Denied (raise_if true e)
unfolding raise_if
Denied-raise_if e = record { error = λ s. (e, refl) }

module _ {A B : Type 0} where
  resume-Denied :
      (r : Result A) (f : A → Action B) (s : Session)
      → ((a : A) → Denied (f a))
      → (e : Error) × ((resume r f s).0 ≡ err e)
  resume-Denied (ok a) f s kf = (kf a).error s
  resume-Denied (err e) f s kf = (e, refl)

  -- the first step raises, or a later one
  pub Denied-first : (m : Action A) (f : A → Action B) → Denied m → Denied (m >>= f)
  unfolding ◌>>=◌
  Denied-first m f km = record { error = λ s. let (e, p) = km.error s in (e, rw (p, resume)) }

  pub Denied-rest : (m : Action A) (f : A → Action B) → ((a : A) → Denied (f a)) → Denied (m >>= f)
  unfolding ◌>>=◌
  Denied-rest m f kf = record { error = λ s. let (r, s') = m s in resume-Denied r f s' kf }

pub Denied-ignore : {A : Type 0} (m : Action A) → Denied m → Denied (ignore m)
unfolding ignore
Denied-ignore m k = Denied-first m (λ _. pure tt) k

-- A request that is always refused changes no table, if it is atomic.
pub run-Denied :
    {A : Type 0} (m : Action A) (d : Store) → Atomic m → Denied m → (run m d).1.tables ≡ d.tables
run-Denied m d k denied = let (e, p) = denied.error (begin d) in k.on_error (begin d) e p

pub ruleset denied_rules = (Denied-raise, Denied-first, Denied-rest, Denied-ignore)
