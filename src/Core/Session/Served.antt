-- ===== src/Core/Session/Served.antt =====
-- What a whole request keeps of the tables.
use propnest_api.Base.{◌≡◌, refl, sym}
use mathlib.Core.Path.{subst}
use propnest_api.Core.Error.{Result, ok, err}
use propnest_api.Core.Schema.{Tables}
use propnest_api.Core.Session.{Session, Action, pure, resume, ◌>>=◌, Store, begin, run}
use propnest_api.Core.Session.Atomic.{Atomic, ignore}
use propnest_api.Core.Session.Returns.{Returns}

module _ {A : Type 0} (m : Action A) where
  resume-pure-committed :
      (r : Result A) (s : Session) → (resume r (λ a. pure tt) s).1.committed ≡ s.committed
  unfolding pure
  resume-pure-committed (ok a) s = refl
  resume-pure-committed (err e) s = refl

  ignore-committed : (s : Session) → (ignore m s).1.committed ≡ (m s).1.committed
  unfolding ignore ◌>>=◌
  ignore-committed s = resume-pure-committed (m s).0 (m s).1

  committed_keeps :
      (P : Tables → Type 0) (s : Session) (r : Result A)
      → (m s).0 ≡ r
      → Atomic m
      → ((a : A) (s' : Session) → Returns m s a s' → P s'.committed)
      → P s.committed
      → P (m s).1.committed
  committed_keeps P s (ok a) e atomic success start = success a (m s).1 (λ i. (e i, (m s).1))
  committed_keeps P s (err x) e atomic success start = subst P (sym (atomic.on_error s x e)) start

  -- What every successful call establishes, and what held before, holds after the request.
  pub run-keeps :
      (P : Tables → Type 0) (d : Store)
      → Atomic m
      → ((a : A) (s' : Session) → Returns m (begin d) a s' → P s'.committed)
      → P d.tables
      → P (run (ignore m) d).1.tables
  run-keeps P d atomic success start =
      subst P (sym (ignore-committed (begin d)))
        (committed_keeps P (begin d) (m (begin d)).0 refl atomic success start)
