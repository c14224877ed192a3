-- ===== src/Identity/LoginAttempts/Refinement.antt =====
-- The tracking over any lawful server is the abstract one, identifier by identifier.
use propnest_api.Base.{
  inr, inl, ap, ◌∙◌, Bool-cases, ℕ, suc, ◌+◌, ◌≤◌, ◌≡◌, ◌≢◌, false, some, [], ◌∷◌, ◌==◌, ltb, arith,
  refl,
}
use propnest_api.Core.Text.{Text, same_text, normalize}
use propnest_api.Core.Text.Normal.{same_text_refl, same_text→eq}
use propnest_api.Identity.Redis.{
  Redis, Keyspace, Effect, IsLawful, value_of, bumped, expiring, at, without, ttl_of,
}
use propnest_api.Identity.Redis.Acts.{
  Change, follow, choose, Acts, Acts-reply, Acts-bind, Acts-if, Acts-incr, Acts-expire, Acts-ttl,
  Acts-set_ex, Acts-delete,
}
use propnest_api.Identity.LoginAttempts.{
  Settings, LockoutStatus, unlocked, locked_for, lock_status, duration, fail_key, lock_key,
  lockcount_key, get_lock_status, record_success, lock, start_window, lock_if, record_failure,
}
use propnest_api.Identity.LoginAttempts.Duration.{IsValid, duration_pos}
use propnest_api.Identity.LoginAttempts.Throttle.{wait, Throttle, fail, succeed, status}

-- the keys of an identifier
unfoldable pub throttle_at : Text → Keyspace → Throttle
throttle_at identifier db =
    let norm = normalize identifier in
    record {
      failures = db (fail_key norm);
      lock = db (lock_key norm);
      cycles = db (lockcount_key norm);
    }

-- the code on the keys alone
module _ (settings : Settings) (now : ℕ) where
  abbrev incr : Text → Change ℕ
  incr k db = (suc (value_of (db k)), at k (some (bumped (db k))) db)

  abbrev expire : Text → ℕ → Change (Unit {0})
  expire k w db = (tt, at k (expiring (now + w) (db k)) db)

  abbrev set_ex : Text → ℕ → Change (Unit {0})
  set_ex k d db = (tt, at k (some (record { value = 1; expires = some (now + d) })) db)

  abbrev locking : Text → Change LockoutStatus
  locking norm = follow (incr (lockcount_key norm)) λ cycle.
      follow (expire (lockcount_key norm) settings.lockout_max_seconds) λ u.
        follow (set_ex (lock_key norm) (duration settings cycle)) λ u.
          follow (λ db. (tt, without (fail_key norm ∷ []) db))
            λ u. λ db. (locked_for (duration settings cycle), db)

  abbrev failing : Text → Change LockoutStatus
  failing norm = follow (incr (fail_key norm)) λ count.
      follow
        (choose (count == 1) (expire (fail_key norm) settings.failure_window_seconds)
          λ db. (tt, db))
        λ u. choose (ltb count settings.max_failed_attempts) (λ db. (unlocked, db)) (locking norm)

module _ {S : Type 0} {r : Redis S} {view : ℕ → S → Keyspace} (law : IsLawful r view)
    (settings : Settings) (valid : IsValid settings) (now : ℕ) where
  Acts-lock : (norm : Text) → Acts law now (lock settings r now norm) (locking settings now norm)
  unfolding lock
  Acts-lock norm = Acts-bind law now _ _ _ _ (Acts-incr law now _) λ cycle.
      Acts-bind law now _ _ _ _ (Acts-expire law now _ _ valid.cap) λ u.
        Acts-bind law now _ _ _ _ (Acts-set_ex law now _ _ (duration_pos settings valid cycle))
          λ u. Acts-bind law now _ _ _ _ (Acts-delete law now _) λ u. Acts-reply law now _

  Acts-record_failure :
      (identifier : Text)
      → Acts law now
          (record_failure settings r now identifier)
          (failing settings now (normalize identifier))
  unfolding record_failure start_window lock_if
  Acts-record_failure identifier = Acts-bind law now _ _ _ _ (Acts-incr law now _) λ count.
      Acts-bind law now _ _ _ _
        (Acts-if law now _ _ _ _ _ (Acts-expire law now _ _ valid.window) (Acts-reply law now _))
        λ u. Acts-if law now _ _ _ _ _ (Acts-reply law now _) (Acts-lock _)

-- on the keys, the code is the abstract tracking of the identifier
failing-fail :
    (settings : Settings) (now : ℕ) (identifier : Text) (db : Keyspace)
    → ((failing settings now (normalize identifier) db).0
        ≡ (fail settings now (throttle_at identifier db)).0)
      × (throttle_at identifier (failing settings now (normalize identifier) db).1
          ≡ (fail settings now (throttle_at identifier db)).1)
unfolding throttle_at fail_key lock_key lockcount_key
failing-fail settings now identifier db = ground (arith, same_text_refl (normalize identifier))

-- the keys of another identifier stay
failing-other :
    (settings : Settings) (now : ℕ) (identifier other : Text) (db : Keyspace)
    → same_text (normalize identifier) (normalize other) ≡ false
    → throttle_at other (failing settings now (normalize identifier) db).1 ≡ throttle_at other db
unfolding throttle_at fail_key lock_key lockcount_key
failing-other settings now identifier other db differ = ground (arith, differ)

succeeding-succeed :
    (identifier other : Text) (db : Keyspace)
    → (let norm = normalize identifier in
        let db' : Keyspace = without (fail_key norm ∷ lock_key norm ∷ []) db in
        (throttle_at identifier db' ≡ succeed (throttle_at identifier db))
        × (same_text norm (normalize other) ≡ false → throttle_at other db' ≡ throttle_at other db))
unfolding throttle_at fail_key lock_key lockcount_key
succeeding-succeed identifier other db =
    (ground (arith, same_text_refl (normalize identifier)), λ differ. ground (arith, differ))

differ : (s t : Text) → s ≢ t → same_text s t ≡ false
differ s t h = elim (Bool-cases (same_text s t)) [
  | inl same ↦ absurd (h (same_text→eq s t same))
  | inr other ↦ other
]

-- what the server holds of an identifier at a time
abbrev pub tracked : {S : Type 0} → (ℕ → S → Keyspace) → ℕ → S → Text → Throttle
tracked view now s identifier = throttle_at identifier (view now s)

module _ {S : Type 0} {r : Redis S} {view : ℕ → S → Keyspace} (law : IsLawful r view)
    (settings : Settings) (valid : IsValid settings) (now : ℕ) where
  -- A call about an identifier that gets its replies makes the abstract step of the identifier, and
  -- no step of another.
  pub record Tracks {A : Type 0} (m : Effect S A) (identifier : Text)
      (step : Throttle → A × Throttle) : Type 0 where
    pub result : (s : S) (a : A) → (m s).0 ≡ some a → a ≡ (step (tracked view now s identifier)).0
    pub tracked_then :
        (s : S) (a : A)
        → (m s).0 ≡ some a
        → tracked view now (m s).1 identifier ≡ (step (tracked view now s identifier)).1
    pub others_same :
        (s : S) (a : A)
        → (m s).0 ≡ some a
        → (other : Text) → normalize identifier ≢ normalize other
        → tracked view now (m s).1 other ≡ tracked view now s other

  pub record_failure-Tracks :
      (identifier : Text)
      → Tracks (record_failure settings r now identifier) identifier (fail settings now)
  record_failure-Tracks identifier = record {
    result = λ s a h.
        let (same, keys) = (Acts-record_failure law settings valid now identifier).acts s a h in
        same ∙ (failing-fail settings now identifier (view now s)).0;
    tracked_then = λ s a h.
        let (same, keys) = (Acts-record_failure law settings valid now identifier).acts s a h in
        ap (throttle_at identifier) keys ∙ (failing-fail settings now identifier (view now s)).1;
    others_same = λ s a h other d.
        let (same, keys) = (Acts-record_failure law settings valid now identifier).acts s a h in
        ap (throttle_at other) keys
        ∙ failing-other settings now identifier other (view now s) (differ _ _ d);
  }

  pub record_success-Tracks :
      (identifier : Text)
      → Tracks (record_success settings r now identifier) identifier (λ t. (tt, succeed t))
  unfolding record_success
  record_success-Tracks identifier = record {
    result = λ s a h. refl;
    tracked_then = λ s a h.
        ap (throttle_at identifier) (law.delete_lem now _ s a h)
        ∙ (succeeding-succeed identifier identifier (view now s)).0;
    others_same = λ s a h other d.
        ap (throttle_at other) (law.delete_lem now _ s a h)
        ∙ (succeeding-succeed identifier other (view now s)).1 (differ _ _ d);
  }

  Acts-get_lock_status :
      (identifier : Text)
      → Acts law now
          (get_lock_status settings r now identifier)
          (λ db. (lock_status (ttl_of now (db (lock_key (normalize identifier)))), db))
  unfolding get_lock_status
  Acts-get_lock_status identifier =
      Acts-bind law now _ _ _ _ (Acts-ttl law now _) λ ttl. Acts-reply law now _

  pub get_lock_status-Tracks :
      (identifier : Text)
      → Tracks (get_lock_status settings r now identifier) identifier (λ t. (status now t, t))
  unfolding throttle_at
  get_lock_status-Tracks identifier = record {
    result = λ s a h. ((Acts-get_lock_status identifier).acts s a h).0;
    tracked_then =
        λ s a h. ap (throttle_at identifier) ((Acts-get_lock_status identifier).acts s a h).1;
    others_same =
        λ s a h other d. ap (throttle_at other) ((Acts-get_lock_status identifier).acts s a h).1;
  }

  pub tracked-wait :
      (later : ℕ) (s : S) (identifier : Text)
      → now ≤ later
      → tracked view later s identifier ≡ wait later (tracked view now s identifier)
  unfolding throttle_at
  tracked-wait later s identifier h = rw (law.ages now later s h) refl

  -- Over any lawful server, with positive durations, the tracking is the abstract one: a call that
  -- gets its replies returns what the abstract step of the identifier returns and leaves the
  -- identifier as that step does, for a failed login, a successful one and the question whether the
  -- identifier is locked; identifiers that normalize otherwise keep their state; and between the
  -- calls the state ages by the times alone.
  pub login_attempts-refine :
      (identifier : Text)
      → Tracks (record_failure settings r now identifier) identifier (fail settings now)
        × Tracks (record_success settings r now identifier) identifier (λ t. (tt, succeed t))
        × Tracks (get_lock_status settings r now identifier) identifier (λ t. (status now t, t))
        × ((later : ℕ) (s : S)
            → now ≤ later
            → tracked view later s identifier ≡ wait later (tracked view now s identifier))
  login_attempts-refine identifier = (
    record_failure-Tracks identifier,
    record_success-Tracks identifier,
    get_lock_status-Tracks identifier,
    λ later s h. tracked-wait later s identifier h,
  )
