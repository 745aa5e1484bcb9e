-- ===== src/Store/RateLimits/Hits.antt =====
-- `DiskRateLimitStore.hit` of auth/storage/rate-limit-store.ts: the pruning does not change what is
-- admitted, one client's hits do not count against another, and a fresh client is admitted.
use encore_mcp_base.Base.{
  ℕ, ◌+◌, ◌-◌, ◌*◌, ◌≤◌, ◌<◌, String, false, not, ◌≡◌, ◌≢◌, refl, Option, none, some, ok, err,
  arith, leb, Bool-cases, inl, inr, ◌⊎◌, eq_iff,
}
use encore_mcp_base.Base.Dict.{
  Dict, lookup, keep_some, lookup-set, lookup-set_self, lookup-keep_values, HasUniqueKeys,
}
use encore_mcp_base.Store.Records.{RateLimitRecord, OAuthStoreState}
use encore_mcp_base.Store.RateLimits.{
  RateLimitPolicy, no_counters, counters_for_window, window_of, is_exhausted,
  next_rate_limit_record, prune_expired_rate_limits, rate_limit_error, hit,
}

lookup-prune :
    (key : String) (limits : Dict RateLimitRecord) (now : ℕ)
    → HasUniqueKeys limits
    → lookup key (prune_expired_rate_limits limits now)
      ≡ keep_some (λ r. not (leb r.expires_at now)) (lookup key limits)
unfolding prune_expired_rate_limits
lookup-prune key limits now unique = lookup-keep_values _ key limits unique

counters-prune :
    (o : Option RateLimitRecord) (start w now : ℕ)
    → counters_for_window (keep_some (λ r. not (leb r.expires_at now)) o) start w now
      ≡ counters_for_window o start w now
unfolding counters_for_window
counters-prune none start w now = refl
counters-prune (some r) start w now = ground arith

next-prune :
    (o : Option RateLimitRecord) (policy : RateLimitPolicy) (now : ℕ)
    → next_rate_limit_record (keep_some (λ r. not (leb r.expires_at now)) o) policy now
      ≡ next_rate_limit_record o policy now
unfolding next_rate_limit_record
next-prune o policy now = rw (counters-prune o (window_of policy now) policy.window_seconds now)

-- The pruning that precedes the decision does not change it.
pub decision-prune :
    (key : String) (policy : RateLimitPolicy) (now : ℕ) (limits : Dict RateLimitRecord)
    → HasUniqueKeys limits
    → next_rate_limit_record (lookup key (prune_expired_rate_limits limits now)) policy now
      ≡ next_rate_limit_record (lookup key limits) policy now
decision-prune key policy now limits unique =
    rw (lookup-prune key limits now unique) (next-prune (lookup key limits) policy now)

next_cases :
    (o : Option RateLimitRecord) (policy : RateLimitPolicy) (now : ℕ)
    → ((r : RateLimitRecord) × (next_rate_limit_record o policy now ≡ ok r))
      ⊎ (next_rate_limit_record o policy now ≡ err rate_limit_error)
unfolding next_rate_limit_record
next_cases o policy now =
    elim (Bool-cases (
      is_exhausted policy (counters_for_window o (window_of policy now) policy.window_seconds now)
        (now - window_of policy now))) [
          | inl full ↦ inr (ground (arith, full))
          | inr room ↦ inl (
            record {
              window_start = window_of policy now;
              previous_count =
                  (counters_for_window o (window_of policy now) policy.window_seconds
                    now).previous_count;
              current_count =
                  (counters_for_window o (window_of policy now) policy.window_seconds
                    now).current_count
                  + 1;
              expires_at = window_of policy now + policy.window_seconds * 2;
            },
            ground (arith, room),
          )
        ]

not_exhausted : (m w k : ℕ) → 0 < w → 0 < m → leb (m * w) (0 * w + 0 * k) ≡ false
not_exhausted m w k window positive = grind arith

counters_fresh :
    (o : Option RateLimitRecord) (start w now : ℕ)
    → ((r : RateLimitRecord) → o ≡ some r → r.expires_at ≤ now)
    → counters_for_window o start w now ≡ no_counters
unfolding counters_for_window
counters_fresh none start w now stale = refl
counters_fresh (some r) start w now stale = ground (arith, stale r refl)

next_fresh :
    (o : Option RateLimitRecord) (policy : RateLimitPolicy) (now : ℕ)
    → 0 < policy.window_seconds
    → 0 < policy.max_requests
    → ((r : RateLimitRecord) → o ≡ some r → r.expires_at ≤ now)
    → (r : RateLimitRecord) × (next_rate_limit_record o policy now ≡ ok r)
unfolding next_rate_limit_record
next_fresh o policy now window positive stale =
    let fresh = counters_fresh o (window_of policy now) policy.window_seconds now stale in
    elim (next_cases o policy now) [
      | inl found ↦ found
      | inr e ↦ absurd (
          ground (
            arith,
            fresh,
            not_exhausted policy.max_requests policy.window_seconds
                (policy.window_seconds - (now - window_of policy now)) window positive,
          ))
    ]

module _ (sha : String → String) where
  -- The record that a hit leaves is the one that the algorithm makes of the stored record, whether
  -- or not the pruning has just dropped it; a refused hit is an error and leaves the store as it was.
  -- The record of any other key is as before, unless it had expired and is gone.
  pub hit_lem :
      (key : String) (policy : RateLimitPolicy) (now : ℕ) (s : OAuthStoreState) (other : String)
      → HasUniqueKeys s.rate_limits
      → other ≢ sha key
      → let t = (hit sha key policy now s).1 in
        ((r : RateLimitRecord) × (next_rate_limit_record (lookup (sha key) s.rate_limits) policy now
            ≡ ok r)
          × ((hit sha key policy now s).0 ≡ ok tt)
          × (lookup (sha key) t.rate_limits ≡ some r)
          × (lookup other t.rate_limits
              ≡ keep_some (λ q. not (leb q.expires_at now)) (lookup other s.rate_limits)))
        ⊎ ((next_rate_limit_record (lookup (sha key) s.rate_limits) policy now
              ≡ err rate_limit_error)
            × (hit sha key policy now s ≡ (err rate_limit_error, s)))
  unfolding hit
  hit_lem key policy now s other unique different =
      let pruned = prune_expired_rate_limits s.rate_limits now in
      let same = decision-prune (sha key) policy now s.rate_limits unique in
      elim (next_cases (lookup (sha key) s.rate_limits) policy now) [
        | inl (r, e) ↦ inl (
          r,
          e,
          ground (arith, same, e),
          ground (arith, same, e, lookup-set_self (sha key) r pruned),
          ground (
            arith,
            same,
            e,
            lookup-set (sha key) other r pruned,
            eq_iff (sha key) other,
            lookup-prune other s.rate_limits now unique,
          ),
        )
        | inr e ↦ inr (e, ground (arith, same, e))
      ]

  -- A client with no record, or an expired one, is admitted, if the policy allows any request.
  pub hit_fresh :
      (key : String) (policy : RateLimitPolicy) (now : ℕ) (s : OAuthStoreState)
      → HasUniqueKeys s.rate_limits
      → 0 < policy.window_seconds
      → 0 < policy.max_requests
      → ((r : RateLimitRecord) → lookup (sha key) s.rate_limits ≡ some r → r.expires_at ≤ now)
      → (hit sha key policy now s).0 ≡ ok tt
  unfolding hit
  hit_fresh key policy now s unique window positive stale = ground (
    arith,
    decision-prune (sha key) policy now s.rate_limits unique,
    next_fresh (lookup (sha key) s.rate_limits) policy now window positive stale,
  )
