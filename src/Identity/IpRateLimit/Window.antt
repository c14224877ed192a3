-- ===== src/Identity/IpRateLimit/Window.antt =====
-- What one check does to the counter of its address, and to the other keys.
use propnest_api.Base.{
  ℕ, suc, ◌+◌, ◌<◌, ◌≡◌, true, false, Option, some, ◌==◌, leb, arith, if◌then◌else◌, ◌∙◌, ap,
}
use propnest_api.Core.Text.{Text, same_text}
use propnest_api.Core.Text.Normal.{same_text_refl}
use propnest_api.Identity.Redis.{
  Redis, Keyspace, Entry, IsLawful, value_of, expires_of, ttl_of, bumped, expiring, at,
}
use propnest_api.Identity.Redis.Acts.{
  Change, follow, choose, Acts, Acts-reply, Acts-bind, Acts-if, Acts-incr, Acts-expire, Acts-ttl,
}
use propnest_api.Identity.LoginAttempts.{Settings, start_window}
use propnest_api.Identity.IpRateLimit.{RateLimitStatus, at_least_one, ip_key, refuse, decide, check}

-- the counter of an address after one more request
abbrev pub requested : Settings → ℕ → Option Entry → Entry
requested settings now o = record {
  value = suc (value_of o);
  expires =
      if suc (value_of o) == 1
      then some (now + settings.rate_limit_window_seconds)
      else expires_of o;
}

-- the answer to a request that makes the counter what it is
abbrev pub answered : Settings → ℕ → Entry → RateLimitStatus
answered settings now e =
    if leb e.value settings.rate_limit_max_requests
    then record { allowed = true; retry_after_seconds = 0 }
    else record { allowed = false; retry_after_seconds = at_least_one (ttl_of now (some e)) }

module _ {S : Type 0} {r : Redis S} {view : ℕ → S → Keyspace} (law : IsLawful r view)
    (settings : Settings) (window : 0 < settings.rate_limit_window_seconds) (now : ℕ)
    (ip : Text) where
  abbrev checking : Change RateLimitStatus
  checking =
      follow
        (λ db.
          (suc (value_of (db (ip_key ip))), at (ip_key ip) (some (bumped (db (ip_key ip)))) db))
        λ count.
          follow
            (choose (count == 1)
              (λ db. (
                tt,
                at (ip_key ip)
                    (expiring (now + settings.rate_limit_window_seconds) (db (ip_key ip))) db,
              ))
              (λ db. (tt, db)))
            λ u.
              choose (leb count settings.rate_limit_max_requests)
                (λ db. (record { allowed = true; retry_after_seconds = 0 }, db))
                (follow (λ db. (ttl_of now (db (ip_key ip)), db))
                  λ ttl.
                    λ db. (record { allowed = false; retry_after_seconds = at_least_one ttl }, db))

  Acts-check : Acts law now (check settings r now ip) checking
  unfolding check start_window decide refuse
  Acts-check = Acts-bind law now _ _ _ _ (Acts-incr law now _) λ count.
      Acts-bind law now _ _ _ _
        (Acts-if law now _ _ _ _ _ (Acts-expire law now _ _ window) (Acts-reply law now _))
        λ u.
          Acts-if law now _ _ _ _ _ (Acts-reply law now _)
            (Acts-bind law now _ _ _ _ (Acts-ttl law now _) λ ttl. Acts-reply law now _)

  checking-requested :
      (db : Keyspace)
      → ((checking db).0 ≡ answered settings now (requested settings now (db (ip_key ip))))
        × ((checking db).1 (ip_key ip) ≡ some (requested settings now (db (ip_key ip))))
        × ((j : Text) → same_text (ip_key ip) j ≡ false → (checking db).1 j ≡ db j)
  checking-requested db = (
    ground (arith, same_text_refl (ip_key ip)),
    ground (arith, same_text_refl (ip_key ip)),
    λ j h. ground (arith, h),
  )

  -- a check that gets its replies
  pub check-requested :
      (s : S) (a : RateLimitStatus)
      → (check settings r now ip s).0 ≡ some a
      → (let e : Entry = requested settings now (view now s (ip_key ip)) in
          (a ≡ answered settings now e)
          × (view now (check settings r now ip s).1 (ip_key ip) ≡ some e))
  check-requested s a h =
      let (same, keys) = Acts-check.acts s a h in
      let (x, y, z) = checking-requested (view now s) in
      (same ∙ x, ap (λ (db : Keyspace). db (ip_key ip)) keys ∙ y)

  -- and the other keys
  pub check-others :
      (s : S) (a : RateLimitStatus) (j : Text)
      → (check settings r now ip s).0 ≡ some a
      → same_text (ip_key ip) j ≡ false
      → view now (check settings r now ip s).1 j ≡ view now s j
  check-others s a j h other =
      let (same, keys) = Acts-check.acts s a h in
      let (x, y, z) = checking-requested (view now s) in
      ap (λ (db : Keyspace). db j) keys ∙ z j other
