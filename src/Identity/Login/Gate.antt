-- ===== src/Identity/Login/Gate.antt =====
-- What a login goes through before the user is read.
use propnest_api.Base.{
  ℕ, ◌≡◌, Bool, true, false, not, Option, none, some, refl, sym, ◌∙◌, ap, arith, Option-cases,
  Bool-cases, inl, inr,
}
use propnest_api.Core.Text.{normalize, Text, is_empty}
use propnest_api.Core.Error.{Error, Result, ok, err}
use propnest_api.Identity.Redis.{Redis, Keyspace, IsLawful, Effect}
use propnest_api.Identity.LoginAttempts.{
  Settings, LockoutStatus, get_lock_status, lock_key, lockcount_key, fail_key,
}
use propnest_api.Identity.LoginAttempts.Duration.{IsValid}
use propnest_api.Identity.LoginAttempts.Throttle.{Throttle, status}
use propnest_api.Identity.LoginAttempts.Refinement.{throttle_at, tracked, get_lock_status-Tracks}
use propnest_api.Identity.IpRateLimit.{RateLimitStatus, ip_key, check}
use propnest_api.Identity.IpRateLimit.Window.{check-others}
use propnest_api.Identity.Login.{
  gate, Login, done, fail_with, replied, guarded, refuse_if, ◌>>=◌, SystemScheduler,
  is_system_scheduler, check_address, check_ip_rate_limit,
}

module _ {S A B : Type 0} (m : Login S A) (f : A → Login S B) (s : S) where
  sequenced :
      (o : Result A) (b : B)
      → (m s).0 ≡ o
      → ((m >>= f) s).0 ≡ ok b
      → (a : A) × ((m s).0 ≡ ok a) × ((f a (m s).1).0 ≡ ok b) × (((m >>= f) s).1 ≡ (f a (m s).1).1)
  unfolding ◌>>=◌
  sequenced (ok a) b e h = (a, e, ground (arith, e), ground (arith, e))
  sequenced (err x) b e h = ground (arith, e)

  -- a sequence that succeeds
  pub bind-ok :
      (b : B)
      → ((m >>= f) s).0 ≡ ok b
      → (a : A) × ((m s).0 ≡ ok a) × ((f a (m s).1).0 ≡ ok b) × (((m >>= f) s).1 ≡ (f a (m s).1).1)
  bind-ok b h = sequenced (m s).0 b refl h

module _ {S : Type 0} where
  pub guarded-ok :
      {A : Type 0} (m : Effect S A) (s : S) (a : A)
      → (guarded m s).0 ≡ ok a
      → ((m s).0 ≡ some a) × ((guarded m s).1 ≡ (m s).1)
  unfolding guarded
  guarded-ok m s a h = elim (Option-cases (m s).0) [
    | inl none_left ↦ ground arith
    | inr (b, e) ↦ (ground arith, refl)
  ]

  refuse_if-ok :
      (b : Bool) (e : Error) (s : S) (u : Unit {0})
      → (refuse_if b e s).0 ≡ ok u
      → (b ≡ false) × ((refuse_if b e s).1 ≡ s)
  unfolding refuse_if
  refuse_if-ok true e s u h = ground arith
  refuse_if-ok false e s u h = (refl, refl)

  pub done-ok : {A : Type 0} (a b : A) (s : S) → (done a s).0 ≡ ok b → b ≡ a
  unfolding done
  done-ok a b s h = ground arith

  pub fail_with-ok : {A : Type 0} (e : Error) (b : A) (s : S) → ¬ ((fail_with e s).0 ≡ ok b)
  unfolding fail_with
  fail_with-ok e b s h = ground arith

module _ {S : Type 0} {r : Redis S} {view : ℕ → S → Keyspace} (law : IsLawful r view)
    (settings : Settings) (valid : IsValid settings) (now : ℕ) (identifier : Text) where
  -- the check of the address touches no key of the identifier
  address-tracked :
      (ip : Text) (s : S) (a : RateLimitStatus)
      → (check settings r now ip s).0 ≡ some a
      → tracked view now (check settings r now ip s).1 identifier ≡ tracked view now s identifier
  unfolding throttle_at ip_key fail_key lock_key lockcount_key
  address-tracked ip s a h =
      let other = λ (j : Text). check-others law settings valid.rate_window now ip s a j h in
      rw
        (
          other (fail_key (normalize identifier)) refl,
          other (lock_key (normalize identifier)) refl,
          other (lockcount_key (normalize identifier)) refl,
        )
        refl

  check_none :
      (s : S)
      → tracked view now (done {S = S} (tt {0}) s).1 identifier ≡ tracked view now s identifier
  unfolding done
  check_none s = refl

  check_address-tracked :
      (ip : Text) (s : S) (u : Unit {0})
      → (check_address settings r now ip s).0 ≡ ok u
      → tracked view now (check_address settings r now ip s).1 identifier
        ≡ tracked view now s identifier
  unfolding check_address
  check_address-tracked ip s u h =
      let (a, replied, rest, after) = bind-ok _ _ s u h in
      let (reply, same) = guarded-ok (check settings r now ip) s a replied in
      let (ok_then, kept) =
        refuse_if-ok (not a.allowed) _ (guarded (check settings r now ip) s).1 u rest in
      rw (after, kept, same) (address-tracked ip s a reply)

  check_ip-tracked :
      (o : Option Text) (s : S) (u : Unit {0})
      → (check_ip_rate_limit settings r now o s).0 ≡ ok u
      → tracked view now (check_ip_rate_limit settings r now o s).1 identifier
        ≡ tracked view now s identifier
  unfolding check_ip_rate_limit
  check_ip-tracked none s u h = check_none s
  check_ip-tracked (some ip) s u h = elim (Bool-cases (is_empty ip)) [
    | inl empty ↦ rw empty (check_none s)
    | inr given ↦ rw given (check_address-tracked ip s u (ground (arith, h, given)))
  ]

  -- the gate lets an identifier through that is not the scheduler's and not locked, and leaves what
  -- is tracked of it
  pub gate-ok :
      (system : SystemScheduler) (client_ip : Option Text) (s : S) (u : Unit {0})
      → (gate settings r now system identifier client_ip s).0 ≡ ok u
      → (is_system_scheduler system identifier ≡ false)
        × ((status now (tracked view now s identifier)).locked ≡ false)
        × (tracked view now (gate settings r now system identifier client_ip s).1 identifier
            ≡ tracked view now s identifier)
  unfolding gate
  gate-ok system client_ip s u h =
      let (u0, a0, h1, s1) = bind-ok _ _ s u h in
      let (sys, kept) = refuse_if-ok _ _ s u0 a0 in
      let (u1, a1, h2, s2) = bind-ok _ _ _ u h1 in
      let (st, a2, h3, s3) = bind-ok _ _ _ u h2 in
      let (free, kept') = refuse_if-ok st.locked _ _ u h3 in
      let (reply, same) = guarded-ok (get_lock_status settings r now identifier) _ st a2 in
      let asked = get_lock_status-Tracks law settings valid now identifier in
      let of : S → Throttle = λ x. tracked view now x identifier in
      let before = check_ip-tracked client_ip _ u1 a1 ∙ ap of kept in
      (
        sys,
        ap (λ (t : Throttle). (status now t).locked) (sym before)
            ∙ ap (λ (x : LockoutStatus). x.locked) (sym (asked.result _ st reply))
            ∙ free,
        ap of (s1 ∙ s2 ∙ s3 ∙ kept' ∙ same) ∙ asked.tracked_then _ st reply ∙ before,
      )
