-- ===== src/Identity/LoginAttempts/Lockout.antt =====
-- What the lockout means for who guesses a password.
use propnest_api.Base.{
  ℕ, suc, ◌+◌, ◌-◌, ◌≤◌, ◌<◌, ◌≡◌, true, Option, none, some, List, [], ◌∷◌, ltb, arith, refl,
  length, if◌then◌else◌, Option-cases, inl, inr, sym, ◌∙◌, ap,
}
use mathlib.Core.Path.{subst}
use propnest_api.Core.Text.{Text}
use propnest_api.Identity.Redis.{
  Redis, Keyspace, Entry, Effect, IsLawful, keep_live, ◌>>=◌, ◌>>◌, continue,
}
use propnest_api.Identity.LoginAttempts.{
  Settings, LockoutStatus, unlocked, locked_for, get_lock_status, record_failure,
}
use propnest_api.Identity.LoginAttempts.Duration.{IsValid}
use propnest_api.Identity.LoginAttempts.Throttle.{Throttle, fail, status, wait}
use propnest_api.Identity.LoginAttempts.Refinement.{
  tracked, record_failure-Tracks, get_lock_status-Tracks, tracked-wait,
}

-- the state after a failed login that locks
fail-status :
    (settings : Settings) (now later : ℕ) (t : Throttle)
    → now ≤ later
    → (fail settings now t).0.locked ≡ true
    → status later (wait later (fail settings now t).1) ≡ (
        let until : ℕ = now + (fail settings now t).0.retry_after_seconds in
        if ltb later until then locked_for (until - later) else unlocked)
fail-status settings now later t h locked = ground arith

-- A failed login that locks an identifier locks it for the time that it reports, and no longer: with
-- no further attempt, the identifier is locked at each moment of that time, with what is left of it
-- as the time to wait, and is not locked from then on.
pub lockout-lasts :
    {S : Type 0} {r : Redis S} {view : ℕ → S → Keyspace} (law : IsLawful r view)
    (settings : Settings) (valid : IsValid settings) (now later : ℕ) (identifier : Text) (s : S)
    (locked at_later : LockoutStatus)
    → (record_failure settings r now identifier s).0 ≡ some locked
    → locked.locked ≡ true
    → now ≤ later
    → (get_lock_status settings r later identifier (record_failure settings r now identifier s).1).0
      ≡ some at_later
    → at_later ≡ (
        let until : ℕ = now + locked.retry_after_seconds in
        if ltb later until then locked_for (until - later) else unlocked)
lockout-lasts {S} {r} {view} law settings valid now later identifier s locked at_later h is_locked
      le h' =
    let s' = (record_failure settings r now identifier s).1 in
    let failure = record_failure-Tracks law settings valid now identifier in
    let same : locked ≡ (fail settings now (tracked view now s identifier)).0 =
      failure.result s locked h in
    let shown =
      (get_lock_status-Tracks law settings valid later identifier).result s' at_later h' in
    let aged = tracked-wait law settings valid now later s' identifier le in
    let known = failure.tracked_then s locked h in
    rw (shown, aged, known, same)
      (fail-status settings now later (tracked view now s identifier) le (rw (sym same) is_locked))

module _ {S : Type 0} (settings : Settings) (redis : Redis S) (identifier : Text) where
  -- failed logins one after the other, at the given times
  unfoldable pub repeat_failures : ℕ → List ℕ → Effect S LockoutStatus
  repeat_failures now [] = record_failure settings redis now identifier
  repeat_failures now (t ∷ ts) = do
    record_failure settings redis now identifier
    repeat_failures t ts

-- times in order, all before an end
abbrev pub AreWithin : ℕ → ℕ → List ℕ → Type 0
AreWithin last end [] = last < end
AreWithin last end (t ∷ ts) = (last ≤ t) × AreWithin t end ts

-- the number of failures that are counted, until a time
abbrev Counts : ℕ → ℕ → Option Entry → Type 0
Counts n end none = n ≡ 0
Counts n end (some e) = (e.value ≡ n) × (e.expires ≡ some end)

AreWithin→lt : (last end : ℕ) (ts : List ℕ) → AreWithin last end ts → last < end
AreWithin→lt last end [] h = h
AreWithin→lt last end (t ∷ ts) h = let later = AreWithin→lt t end ts h.1 in omega (arith, h.0)

fail-Counts :
    (settings : Settings) (now n end : ℕ) (o : Option Entry) (t : Throttle)
    → t.failures ≡ o
    → suc n < settings.max_failed_attempts
    → Counts n end o
    → (n ≡ 0 → end ≡ now + settings.failure_window_seconds)
    → Counts (suc n) end (fail settings now t).1.failures
fail-Counts settings now n end none t e below c first = ground (arith, first)
fail-Counts settings now n end (some x) t e below c first = ground (arith, first)

wait-Counts :
    (n end now : ℕ) (o : Option Entry) → now < end → Counts n end o → Counts n end (keep_live now o)
wait-Counts n end now none h c = c
wait-Counts n end now (some e) h c = ground arith

last-locks :
    (settings : Settings) (now n end : ℕ) (o : Option Entry) (t : Throttle)
    → t.failures ≡ o
    → suc n ≡ settings.max_failed_attempts
    → Counts n end o
    → (fail settings now t).0.locked ≡ true
last-locks settings now n end none t e last c = ground arith
last-locks settings now n end (some x) t e last c = ground arith

module _ {S : Type 0} {r : Redis S} {view : ℕ → S → Keyspace} (law : IsLawful r view)
    (settings : Settings) (valid : IsValid settings) (identifier : Text) where
  repeat-locks :
      (n end now : ℕ) (ts : List ℕ) (s : S) (final : LockoutStatus)
      → Counts n end (tracked view now s identifier).failures
      → (n ≡ 0 → end ≡ now + settings.failure_window_seconds)
      → AreWithin now end ts
      → n + suc (length ts) ≡ settings.max_failed_attempts
      → (repeat_failures settings r identifier now ts s).0 ≡ some final
      → final.locked ≡ true
  unfolding repeat_failures ◌>>=◌
  repeat-locks n end now [] s final c first within last h =
      let same = (record_failure-Tracks law settings valid now identifier).result s final h in
      rw same (
        last-locks settings now n end (tracked view now s identifier).failures
          (tracked view now s identifier) refl (omega (arith, last)) c)
  repeat-locks n end now (t ∷ ts) s final c first (le, within) last h =
      let s' = (record_failure settings r now identifier s).1 in
      elim (Option-cases (record_failure settings r now identifier s).0) [
        | inl silent ↦ ground arith
        | inr (status, replied) ↦
            let counted_now =
              fail-Counts settings now n end (tracked view now s identifier).failures
                (tracked view now s identifier) refl (omega (arith, last)) c first in
            let known =
              (record_failure-Tracks law settings valid now identifier).tracked_then s status
                replied in
            let aged = tracked-wait law settings valid now t s' identifier le in
            let counts : Counts (suc n) end (tracked view t s' identifier).failures =
              rw (aged, known)
                (wait-Counts (suc n) end t
                  (fail settings now (tracked view now s identifier)).1.failures
                  (AreWithin→lt t end ts within) counted_now) in
            repeat-locks (suc n) end t ts s' final counts (λ z. ground arith) within
              (omega (arith, last))
              (ap (λ o. (continue o (λ x. repeat_failures settings r identifier t ts) s').0)
                  (sym replied)
                ∙ h)
      ]

  -- As many failed logins of one identifier as the settings allow, all within the window that the
  -- first of them opens, with no failure counted before it: the last one locks the identifier.
  pub repeat_failures-locks :
      (now : ℕ) (ts : List ℕ) (s : S) (final : LockoutStatus)
      → (tracked view now s identifier).failures ≡ none
      → AreWithin now (now + settings.failure_window_seconds) ts
      → suc (length ts) ≡ settings.max_failed_attempts
      → (repeat_failures settings r identifier now ts s).0 ≡ some final
      → final.locked ≡ true
  repeat_failures-locks now ts s final fresh within all h =
      repeat-locks 0 (now + settings.failure_window_seconds) now ts s final
        (subst (Counts 0 (now + settings.failure_window_seconds)) (sym fresh) refl) (λ z. refl)
        within (omega (arith, all)) h
