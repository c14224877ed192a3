-- ===== src/Identity/Redis/Memory.antt =====
-- A server in memory that always replies: the newest entry of a key counts.
use propnest_api.Base.{
  Option-cases, Bool-cases, ℕ, suc, ◌+◌, ◌≤◌, ◌<◌, ◌≡◌, Option, none, some, List, [], ◌∷◌, arith,
  refl, if◌then◌else◌,
}
use mathlib.Core.Path.{ap, fun_ext}
use propnest_api.Core.Text.{Text, same_text}
use propnest_api.Identity.Redis.{
  Entry, Redis, Keyspace, keep_live, value_of, bumped, expiring, at, without, ttl_of, IsLawful,
}

-- a key that was deleted has no entry
abbrev pub Memory : Type 0
Memory = List (Text × Option Entry)

abbrev pub lookup : Text → Memory → Option Entry
lookup j [] = none
lookup j ((k, o) ∷ m) = if same_text k j then o else lookup j m

abbrev pub holds : ℕ → Memory → Keyspace
holds now m j = keep_live now (lookup j m)

abbrev pub drop_all : List Text → Memory → Memory
drop_all [] m = m
drop_all (k ∷ ks) m = (k, none) ∷ drop_all ks m

unfoldable pub memory : Redis Memory
memory = record {
  incr = λ now k m. (some (suc (value_of (holds now m k))), (k, some (bumped (holds now m k))) ∷ m);
  expire = λ now k w m. (some tt, (k, expiring (now + w) (holds now m k)) ∷ m);
  ttl = λ now k m. (some (ttl_of now (holds now m k)), m);
  set_ex = λ now k d m. (some tt, (k, some (record { value = 1; expires = some (now + d) })) ∷ m);
  delete = λ now ks m. (some tt, drop_all ks m);
}

keep_live-keep_live :
    (t t' : ℕ) (o : Option Entry) → t ≤ t' → keep_live t' o ≡ keep_live t' (keep_live t o)
keep_live-keep_live t t' none h = refl
keep_live-keep_live t t' (some e) h = ground (arith, Option-cases e.expires)

keep_live-bumped :
    (t : ℕ) (o : Option Entry)
    → keep_live t (some (bumped (keep_live t o))) ≡ some (bumped (keep_live t o))
keep_live-bumped t none = refl
keep_live-bumped t (some e) = ground (arith, Option-cases e.expires)

keep_live-expiring :
    (t e : ℕ) (o : Option Entry) → t < e → keep_live t (expiring e o) ≡ expiring e o
keep_live-expiring t e none h = refl
keep_live-expiring t e (some x) h = ground arith

-- a new entry at the front, if it is live
holds-new :
    (t : ℕ) (k : Text) (o : Option Entry) (m : Memory)
    → keep_live t o ≡ o
    → holds t ((k, o) ∷ m) ≡ at k o (holds t m)
holds-new t k o m h = fun_ext λ j. ground (arith, Bool-cases (same_text k j))

holds-drop_all :
    (t : ℕ) (ks : List Text) (m : Memory) → holds t (drop_all ks m) ≡ without ks (holds t m)
holds-drop_all t [] m = refl
holds-drop_all t (k ∷ ks) m = fun_ext λ j.
    ground (arith, Bool-cases (same_text k j), ap (λ (f : Keyspace). f j) (holds-drop_all t ks m))

pub memory-IsLawful : IsLawful memory holds
unfolding memory
memory-IsLawful = record {
  ages = λ t t' m h. fun_ext λ j. keep_live-keep_live t t' (lookup j m) h;
  incr_lem = λ t k m n h. (
    ground arith,
    holds-new t k (some (bumped (holds t m k))) m (keep_live-bumped t (lookup k m)),
  );
  expire_lem = λ t k w m u h e.
      holds-new t k (expiring (t + w) (holds t m k)) m
        (keep_live-expiring t (t + w) (holds t m k) (omega arith));
  ttl_lem = λ t k m a h. (ground arith, refl);
  set_ex_lem = λ t k d m u h e. holds-new t k _ m (ground arith);
  delete_lem = λ t ks m u h. holds-drop_all t ks m;
}
