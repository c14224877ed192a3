-- ===== src/Core/Session/Reads.antt =====
-- Actions that leave the session as it was, with one rule for each way to build one.
use propnest_api.Base.{Bool, Option, none, some, ◌≡◌, refl, ◌∙◌, ap}
use propnest_api.Core.Error.{Error, Result, ok, err}
use propnest_api.Core.Schema.{Tables}
use propnest_api.Core.Session.{
  Session, Action, pure, raise, lift, query, or_raise, raise_if, resume, ◌>>=◌,
}
use mathlib.Core.Path.{subst}
use propnest_api.Core.Session.Returns.{Returns, >>=-Returns}

pub record Reads {A : Type 0} (m : Action A) : Type 0 where
  pub same : (s : Session) → (m s).1 ≡ s

pub Reads-Returns :
    {A : Type 0} (m : Action A) (s : Session) {a : A} {s' : Session}
    → Reads m
    → Returns m s a s'
    → s' ≡ s
Reads-Returns m s k h = cc (k.same s, ap (λ x. x.1) h)

module _ {A : Type 0} where
  pub Reads-pure : (a : A) → Reads (pure a)
  unfolding pure
  Reads-pure a = record { same = λ s. refl }

  pub Reads-raise : (e : Error) → Reads (raise {A = A} e)
  unfolding raise
  Reads-raise e = record { same = λ s. refl }

  pub Reads-lift : (r : Result A) → Reads (lift r)
  unfolding lift
  Reads-lift r = record { same = λ s. refl }

  pub Reads-query : (f : Tables → A) → Reads (query f)
  unfolding query
  Reads-query f = record { same = λ s. refl }

  or_raise_same : (e : Error) (o : Option A) (s : Session) → (or_raise e o s).1 ≡ s
  unfolding or_raise
  or_raise_same e none s = refl
  or_raise_same e (some a) s = refl

  pub Reads-or_raise : (e : Error) (o : Option A) → Reads (or_raise e o)
  Reads-or_raise e o = record { same = or_raise_same e o }

pub Reads-raise_if : (b : Bool) (e : Error) → Reads (raise_if b e)
unfolding raise_if
Reads-raise_if b e = record { same = λ s. refl }

module _ {A B : Type 0} where
  resume_same :
      (r : Result A) (f : A → Action B) (s : Session)
      → ((a : A) → Reads (f a))
      → (resume r f s).1 ≡ s
  resume_same (ok a) f s kf = (kf a).same s
  resume_same (err e) f s kf = refl

  pub Reads-bind :
      (m : Action A) (f : A → Action B) → Reads m → ((a : A) → Reads (f a)) → Reads (m >>= f)
  unfolding ◌>>=◌
  Reads-bind m f km kf = record { same = λ s. resume_same (m s).0 f (m s).1 kf ∙ km.same s }

  -- a step that only reads, and what follows it in the same session
  pub Reads-step :
      (m : Action A) (f : A → Action B) (s : Session) {b : B} {s' : Session}
      → Reads m
      → Returns (m >>= f) s b s'
      → (a : A) × Returns m s a s × Returns (f a) s b s'
  Reads-step m f s {b = b} {s' = s'} k h =
      let (a, s₁, h₁, h₂) = >>=-Returns m f s h in
      let same = Reads-Returns m s k h₁ in
      (a, subst (λ x. Returns m s a x) same h₁, subst (λ x. Returns (f a) x b s') same h₂)

pub ruleset read_rules =
    (Reads-pure, Reads-raise, Reads-lift, Reads-query, Reads-or_raise, Reads-raise_if, Reads-bind)
