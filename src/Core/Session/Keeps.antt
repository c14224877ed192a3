-- ===== src/Core/Session/Keeps.antt =====
-- Actions that keep an invariant of the tables, both of the session's view and of what is
-- committed, with one rule for each way to build an action.
use propnest_api.Base.{Bool, true, false, Option, sym, if◌then◌else◌}
use mathlib.Core.Path.{subst}
use propnest_api.Core.Error.{Error, Result, ok, err}
use propnest_api.Core.Schema.{Tables}
use propnest_api.Core.Session.{
  Session, Action, pure, raise, lift, query, or_raise, raise_if, commit, resume, ◌>>=◌, rethrow,
}
use propnest_api.Core.Session.Reads.{
  Reads, Reads-pure, Reads-raise, Reads-lift, Reads-query, Reads-or_raise, Reads-raise_if,
}
use propnest_api.Core.Session.Atomic.{ignore}

module _ (P : Tables → Type 0) where
  abbrev pub Both : Session → Type 0
  Both s = P s.working × P s.committed

  pub record Keeps {A : Type 0} (m : Action A) : Type 0 where
    pub keeps : (s : Session) → Both s → Both (m s).1

  pub Keeps-Reads : {A : Type 0} (m : Action A) → Reads m → Keeps m
  Keeps-Reads m k = record { keeps = λ s h. subst Both (sym (k.same s)) h }

  pub Keeps-if :
      {A : Type 0} (b : Bool) (m n : Action A) → Keeps m → Keeps n → Keeps (if b then m else n)
  Keeps-if true m n km kn = km
  Keeps-if false m n km kn = kn

  rethrown :
      {A : Type 0} (t : Error → Error) (r : Result A) (s : Session)
      → Both s
      → (let x : Result A × Session = elim r [ ok a ↦ (ok a, s) | err e ↦ (err (t e), s) ] in
          Both x.1)
  rethrown t (ok a) s h = h
  rethrown t (err e) s h = h

  pub Keeps-rethrow :
      {A : Type 0} (t : Error → Error) (m : Action A) → Keeps m → Keeps (rethrow t m)
  unfolding rethrow
  Keeps-rethrow t m km = record { keeps = λ s h. rethrown t (m s).0 (m s).1 (km.keeps s h) }

  pub Keeps-commit : Keeps commit
  unfolding commit
  Keeps-commit = record { keeps = λ s (w, c). (w, w) }

  resume-Keeps :
      {A B : Type 0} (r : Result A) (f : A → Action B) (s : Session)
      → ((a : A) → Keeps (f a))
      → Both s
      → Both (resume r f s).1
  resume-Keeps (ok a) f s kf h = (kf a).keeps s h
  resume-Keeps (err e) f s kf h = h

  pub Keeps-bind :
      {A B : Type 0} (m : Action A) (f : A → Action B)
      → Keeps m
      → ((a : A) → Keeps (f a))
      → Keeps (m >>= f)
  unfolding ◌>>=◌
  Keeps-bind m f km kf = record { keeps = λ s h. resume-Keeps (m s).0 f (m s).1 kf (km.keeps s h) }

  pub Keeps-ignore : {A : Type 0} (m : Action A) → Keeps m → Keeps (ignore m)
  unfolding ignore
  Keeps-ignore m km = Keeps-bind m _ km (λ a. Keeps-Reads _ (Reads-pure tt))

  module _ {A : Type 0} where
    pub Keeps-pure : (a : A) → Keeps (pure a)
    Keeps-pure a = Keeps-Reads _ (Reads-pure a)

    pub Keeps-raise : (e : Error) → Keeps (raise {A = A} e)
    Keeps-raise e = Keeps-Reads _ (Reads-raise e)

    pub Keeps-lift : (r : Result A) → Keeps (lift r)
    Keeps-lift r = Keeps-Reads _ (Reads-lift r)

    pub Keeps-query : (f : Tables → A) → Keeps (query f)
    Keeps-query f = Keeps-Reads _ (Reads-query f)

    pub Keeps-or_raise : (e : Error) (o : Option A) → Keeps (or_raise e o)
    Keeps-or_raise e o = Keeps-Reads _ (Reads-or_raise e o)

  pub Keeps-raise_if : (b : Bool) (e : Error) → Keeps (raise_if b e)
  Keeps-raise_if b e = Keeps-Reads _ (Reads-raise_if b e)

pub ruleset keeps_rules = (
  Keeps-pure, Keeps-raise, Keeps-lift, Keeps-query, Keeps-or_raise, Keeps-raise_if, Keeps-bind,
  Keeps-if, Keeps-rethrow, Keeps-commit,
)
