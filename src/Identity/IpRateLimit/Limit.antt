-- ===== src/Identity/IpRateLimit/Limit.antt =====
-- How many requests of one address are allowed.
use propnest_api.Base.{
  ℕ, suc, ◌+◌, ◌-◌, ◌≤◌, ◌<◌, ◌≡◌, false, Option, none, some, List, [], ◌∷◌, arith, refl, length,
  min, if◌then◌else◌, Option-cases, inl, inr, sym,
}
use mathlib.Core.Path.{subst}
use propnest_api.Core.Text.{Text}
use propnest_api.Identity.Redis.{Redis, Keyspace, Entry, Effect, IsLawful, keep_live, ◌>>=◌, reply}
use propnest_api.Identity.LoginAttempts.{Settings}
use propnest_api.Identity.IpRateLimit.{RateLimitStatus, ip_key, check}
use propnest_api.Identity.IpRateLimit.Window.{requested, check-requested}

module _ {S : Type 0} (settings : Settings) (redis : Redis S) (ip : Text) where
  abbrev one_if_allowed : RateLimitStatus → ℕ
  one_if_allowed a = if a.allowed then 1 else 0

  -- how many requests of the given times are allowed
  unfoldable pub count_allowed : List ℕ → Effect S ℕ
  count_allowed [] = reply 0
  count_allowed (t ∷ ts) = do
    status ← check settings redis t ip
    n ← count_allowed ts
    reply (one_if_allowed status + n)

-- times in order, all before an end
abbrev pub AreBefore : ℕ → ℕ → List ℕ → Type 0
AreBefore last end [] = Unit
AreBefore last end (t ∷ ts) = (last ≤ t) × (t < end) × AreBefore t end ts

abbrev Counts : ℕ → ℕ → Option Entry → Type 0
Counts n end none = n ≡ 0
Counts n end (some e) = (e.value ≡ n) × (e.expires ≡ some end) × (0 < n)

requested-Counts :
    (settings : Settings) (now n end : ℕ) (o : Option Entry)
    → Counts n end o
    → (n ≡ 0 → end ≡ now + settings.rate_limit_window_seconds)
    → Counts (suc n) end (some (requested settings now o))
requested-Counts settings now n end none c first = ground (arith, first)
requested-Counts settings now n end (some x) c first = ground (arith, first)

kept-Counts :
    (n end now : ℕ) (o : Option Entry) → now < end → Counts n end o → Counts n end (keep_live now o)
kept-Counts n end now none h c = c
kept-Counts n end now (some e) h c = ground arith

module _ {S : Type 0} {r : Redis S} {view : ℕ → S → Keyspace} (law : IsLawful r view)
    (settings : Settings) (window : 0 < settings.rate_limit_window_seconds) (ip : Text) where
  allowed-rest :
      (k end last : ℕ) (ts : List ℕ) (s : S) (n : ℕ)
      → Counts k end (view last s (ip_key ip))
      → 0 < k
      → AreBefore last end ts
      → (count_allowed settings r ip ts s).0 ≡ some n
      → n ≡ min (settings.rate_limit_max_requests - k) (length ts)
  unfolding count_allowed ◌>>=◌
  allowed-rest k end last [] s n c pos within h = ground arith
  allowed-rest k end last (t ∷ ts) s n c pos (le, lt, within) h =
      elim (Option-cases (check settings r t ip s).0) [
        | inl silent ↦ ground arith
        | inr (a, replied) ↦
            elim (Option-cases (count_allowed settings r ip ts (check settings r t ip s).1).0) [
              | inl silent ↦ ground arith
              | inr (m, rest) ↦
                  let s' = (check settings r t ip s).1 in
                  let now_counts : Counts k end (view t s (ip_key ip)) =
                    rw (law.ages last t s le)
                      (kept-Counts k end t (view last s (ip_key ip)) lt c) in
                  let (answer, entry) = check-requested law settings window t ip s a replied in
                  let after : Counts (suc k) end (view t s' (ip_key ip)) = rw entry (
                    requested-Counts settings t k end (view t s (ip_key ip)) now_counts
                      (λ z. ground arith)) in
                  let others = allowed-rest (suc k) end t ts s' m after (omega arith) within rest in
                  ground (arith, answer, others, replied, rest, now_counts)
            ]
      ]

  opens-window :
      (end now : ℕ) (ts : List ℕ) (s : S) (n : ℕ)
      → Counts 0 end (view now s (ip_key ip))
      → end ≡ now + settings.rate_limit_window_seconds
      → AreBefore now end ts
      → (count_allowed settings r ip (now ∷ ts) s).0 ≡ some n
      → n ≡ min settings.rate_limit_max_requests (suc (length ts))
  unfolding count_allowed ◌>>=◌
  opens-window end now ts s n c ends within h = elim (Option-cases (check settings r now ip s).0) [
    | inl silent ↦ ground arith
    | inr (a, replied) ↦
        elim (Option-cases (count_allowed settings r ip ts (check settings r now ip s).1).0) [
          | inl silent ↦ ground arith
          | inr (m, rest) ↦
              let s' = (check settings r now ip s).1 in
              let (answer, entry) = check-requested law settings window now ip s a replied in
              let after : Counts 1 end (view now s' (ip_key ip)) =
                rw entry
                  (requested-Counts settings now 0 end (view now s (ip_key ip)) c (λ z. ends)) in
              let others = allowed-rest 1 end now ts s' m after (omega arith) within rest in
              ground (arith, answer, others, replied, rest, c)
        ]
  ]

  -- Requests of one address that has no counter, in order and within the window that the first of
  -- them opens: exactly as many are allowed as the settings say, or all if there are fewer.
  pub count_allowed-limit :
      (now : ℕ) (ts : List ℕ) (s : S) (n : ℕ)
      → view now s (ip_key ip) ≡ none
      → AreBefore now (now + settings.rate_limit_window_seconds) ts
      → (count_allowed settings r ip (now ∷ ts) s).0 ≡ some n
      → n ≡ min settings.rate_limit_max_requests (suc (length ts))
  count_allowed-limit now ts s n fresh within h =
      opens-window (now + settings.rate_limit_window_seconds) now ts s n
        (subst (Counts 0 (now + settings.rate_limit_window_seconds)) (sym fresh) refl) refl within h

  -- A counter without an expiry, as a failure between INCR and EXPIRE leaves it, that has reached
  -- the limit: every later request that is answered is refused, however late it comes, and the
  -- counter still has no expiry and has reached the limit.
  pub check-never_expires :
      (now later : ℕ) (s : S) (e : Entry) (a : RateLimitStatus)
      → view now s (ip_key ip) ≡ some e
      → e.expires ≡ none
      → 0 < e.value
      → settings.rate_limit_max_requests ≤ e.value
      → now ≤ later
      → (check settings r later ip s).0 ≡ some a
      → (e' : Entry) × (a.allowed ≡ false)
        × (view later (check settings r later ip s).1 (ip_key ip) ≡ some e')
        × (e'.expires ≡ none)
        × (settings.rate_limit_max_requests ≤ e'.value)
  check-never_expires now later s e a held endless pos reached le h =
      let (answer, entry) = check-requested law settings window later ip s a h in
      let still : view later s (ip_key ip) ≡ some e =
        rw (law.ages now later s le, held) (ground arith) in
      (
        record { value = suc e.value; expires = none },
        ground (arith, answer, still),
        ground (arith, entry, still),
        refl,
        omega (arith, reached),
      )
