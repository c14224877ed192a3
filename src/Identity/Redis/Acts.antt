-- ===== src/Identity/Redis/Acts.antt =====
-- What code that calls a lawful server does to the keys that the server holds at that moment.
use propnest_api.Base.{
  arith, ℕ, suc, ◌+◌, ◌<◌, ◌≡◌, Bool, true, false, Option, none, some, List, refl, sym,
  if◌then◌else◌,
}
use propnest_api.Core.Text.{Text}
use propnest_api.Identity.Redis.{
  Redis, Keyspace, value_of, bumped, expiring, at, without, ttl_of, IsLawful, Effect, reply,
  continue, ◌>>=◌,
}

-- a result, and the keys afterwards
abbrev pub Change : Type 0 → Type 0
Change A = Keyspace → A × Keyspace

abbrev pub follow : {A B : Type 0} → Change A → (A → Change B) → Change B
follow p q db = let (a, db') = p db in q a db'

abbrev pub choose : {A : Type 0} → Bool → Change A → Change A → Change A
choose b p q db = if b then p db else q db

module _ {S : Type 0} {r : Redis S} {view : ℕ → S → Keyspace} (law : IsLawful r view)
    (now : ℕ) where
  -- where `m` has a result, result and keys are those of `p`
  pub record Acts {A : Type 0} (m : Effect S A) (p : Change A) : Type 0 where
    pub acts :
        (s : S) (a : A)
        → (m s).0 ≡ some a
        → (a ≡ (p (view now s)).0) × (view now (m s).1 ≡ (p (view now s)).1)

  pub Acts-reply : {A : Type 0} (a : A) → Acts (reply a) (λ db. (a, db))
  unfolding reply
  Acts-reply a = record { acts = λ s b h. (ground arith, refl) }

  continue-Acts :
      {A B : Type 0} (o : Option A) (f : A → Effect S B) (pf : A → Change B) (a : A)
      (db db' : Keyspace) (s : S) (b : B)
      → ((a' : A) → o ≡ some a' → (a' ≡ a) × (view now s ≡ db'))
      → ((a : A) → Acts (f a) (pf a))
      → (continue o f s).0 ≡ some b
      → (b ≡ (pf a db').0) × (view now (continue o f s).1 ≡ (pf a db').1)
  continue-Acts none f pf a db db' s b k kf h = ground arith
  continue-Acts (some a') f pf a db db' s b k kf h =
      let (same, keys) = k a' refl in
      let (x, y) = (kf a').acts s b h in rw (sym same, sym keys) (x, y)

  pub Acts-bind :
      {A B : Type 0} (m : Effect S A) (f : A → Effect S B) (p : Change A) (pf : A → Change B)
      → Acts m p
      → ((a : A) → Acts (f a) (pf a))
      → Acts (m >>= f) (follow p pf)
  unfolding ◌>>=◌
  Acts-bind m f p pf km kf = record {
    acts = λ s b h.
        continue-Acts (m s).0 f pf (p (view now s)).0 (view now s) (p (view now s)).1 (m s).1 b
          (λ a e. km.acts s a e) kf h;
  }

  pub Acts-if :
      {A : Type 0} (b : Bool) (m n : Effect S A) (p q : Change A)
      → Acts m p
      → Acts n q
      → Acts (if b then m else n) (choose b p q)
  Acts-if true m n p q km kn = km
  Acts-if false m n p q km kn = kn

  pub Acts-incr :
      (k : Text)
      → Acts (r.incr now k) (λ db. (suc (value_of (db k)), at k (some (bumped (db k))) db))
  Acts-incr k = record { acts = λ s n h. law.incr_lem now k s n h }

  pub Acts-expire :
      (k : Text) (w : ℕ)
      → 0 < w
      → Acts (r.expire now k w) (λ db. (tt, at k (expiring (now + w) (db k)) db))
  Acts-expire k w h = record { acts = λ s u e. (refl, law.expire_lem now k w s u h e) }

  pub Acts-ttl : (k : Text) → Acts (r.ttl now k) (λ db. (ttl_of now (db k), db))
  Acts-ttl k = record { acts = λ s a h. law.ttl_lem now k s a h }

  pub Acts-set_ex :
      (k : Text) (d : ℕ)
      → 0 < d
      → Acts
          (r.set_ex now k d)
          (λ db. (tt, at k (some (record { value = 1; expires = some (now + d) })) db))
  Acts-set_ex k d h = record { acts = λ s u e. (refl, law.set_ex_lem now k d s u h e) }

  pub Acts-delete : (ks : List Text) → Acts (r.delete now ks) (λ db. (tt, without ks db))
  Acts-delete ks = record { acts = λ s u h. (refl, law.delete_lem now ks s u h) }
