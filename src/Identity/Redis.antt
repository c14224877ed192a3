-- ===== src/Identity/Redis.antt =====
-- The Redis commands that throttle the logins, as an interface: the server is a parameter. A client
-- call gives no result where the client library raises RedisError. Time is counted in seconds.
pub mod Memory
pub mod Acts
use propnest_api.Base.{
  ℕ, suc, ◌+◌, ◌-◌, ◌≤◌, ◌<◌, ◌≡◌, Bool, true, Option, none, some, List, any, ltb, if◌then◌else◌,
}
use propnest_api.Core.Text.{Text, same_text}

-- what a key holds, and the time from which it is gone
pub record Entry : Type 0 where
  pub value : ℕ
  pub expires : Option ℕ

-- the reply of TTL: -2, -1, or the seconds that are left
pub data Ttl : Type 0 where
  missing persistent : Ttl
  seconds : ℕ → Ttl

-- Each command comes with its time.
pub record Redis (S : Type 0) : Type 0 where
  pub incr : ℕ → Text → S → Option ℕ × S
  pub expire : ℕ → Text → ℕ → S → Option (Unit {0}) × S
  pub ttl : ℕ → Text → S → Option Ttl × S
  -- SET key 1 EX seconds
  pub set_ex : ℕ → Text → ℕ → S → Option (Unit {0}) × S
  pub delete : ℕ → List Text → S → Option (Unit {0}) × S

-- The keys that a server holds at a moment.
abbrev pub Keyspace : Type 0
Keyspace = Text → Option Entry

abbrev pub is_live : ℕ → Option ℕ → Bool
is_live now none = true
is_live now (some t) = ltb now t

abbrev pub keep_live : ℕ → Option Entry → Option Entry
keep_live now none = none
keep_live now (some e) = if is_live now e.expires then some e else none

abbrev pub aged : ℕ → Keyspace → Keyspace
aged now db k = keep_live now (db k)

abbrev pub value_of : Option Entry → ℕ
value_of none = 0
value_of (some e) = e.value

abbrev pub expires_of : Option Entry → Option ℕ
expires_of none = none
expires_of (some e) = e.expires

abbrev pub bumped : Option Entry → Entry
bumped o = record { value = suc (value_of o); expires = expires_of o }

abbrev pub expiring : ℕ → Option Entry → Option Entry
expiring t none = none
expiring t (some e) = some (record e { expires = some t })

-- the keys with one of them changed
abbrev pub at : Text → Option Entry → Keyspace → Keyspace
at k o db j = if same_text k j then o else db j

abbrev pub without : List Text → Keyspace → Keyspace
without ks db j = if any (λ k. same_text k j) ks then none else db j

abbrev pub remaining : ℕ → Option ℕ → Ttl
remaining now none = persistent
remaining now (some t) = seconds (t - now)

abbrev pub ttl_of : ℕ → Option Entry → Ttl
ttl_of now none = missing
ttl_of now (some e) = remaining now e.expires

-- What Redis documents: the commands that reply do what they say, and keys expire in time. `view`
-- is what the server holds at a time. Nothing is said of a command that gets no reply.
pub record IsLawful {S : Type 0} (r : Redis S) (view : ℕ → S → Keyspace) : Type 0 where
  pub ages : (t t' : ℕ) (s : S) → t ≤ t' → view t' s ≡ aged t' (view t s)
  pub incr_lem :
      (t : ℕ) (k : Text) (s : S) (n : ℕ)
      → (r.incr t k s).0 ≡ some n
      → (n ≡ suc (value_of (view t s k)))
        × (view t (r.incr t k s).1 ≡ at k (some (bumped (view t s k))) (view t s))
  pub expire_lem :
      (t : ℕ) (k : Text) (w : ℕ) (s : S) (u : Unit {0})
      → 0 < w
      → (r.expire t k w s).0 ≡ some u
      → view t (r.expire t k w s).1 ≡ at k (expiring (t + w) (view t s k)) (view t s)
  pub ttl_lem :
      (t : ℕ) (k : Text) (s : S) (a : Ttl)
      → (r.ttl t k s).0 ≡ some a
      → (a ≡ ttl_of t (view t s k)) × (view t (r.ttl t k s).1 ≡ view t s)
  pub set_ex_lem :
      (t : ℕ) (k : Text) (d : ℕ) (s : S) (u : Unit {0})
      → 0 < d
      → (r.set_ex t k d s).0 ≡ some u
      → view t (r.set_ex t k d s).1
        ≡ at k (some (record { value = 1; expires = some (t + d) })) (view t s)
  pub delete_lem :
      (t : ℕ) (ks : List Text) (s : S) (u : Unit {0})
      → (r.delete t ks s).0 ≡ some u
      → view t (r.delete t ks s).1 ≡ without ks (view t s)

-- Code that calls the server: no result where a call raises, and then what follows is not run.
abbrev pub Effect : Type 0 → Type 0 → Type 0
Effect S A = S → Option A × S

module _ {S A : Type 0} where
  pub reply : A → Effect S A
  reply a s = (some a, s)

module _ {S A B : Type 0} where
  abbrev pub continue : Option A → (A → Effect S B) → Effect S B
  continue none f s = (none, s)
  continue (some a) f s = f a s

  infixl 5 ◌>>=◌ ◌>>◌
  unfoldable pub ◌>>=◌ : Effect S A → (A → Effect S B) → Effect S B
  unfolding reply
  ◌>>=◌ m f s = let (o, s') = m s in continue o f s'

  abbrev pub ◌>>◌ : Effect S A → Effect S B → Effect S B
  m >> n = m >>= λ _. n
