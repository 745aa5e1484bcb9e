-- ===== src/Store/RateLimits.antt =====
-- auth/storage/rate-limit-algorithm.ts and rate-limit-store.ts: the sliding window. The weighted
-- count of the previous window is a quotient of doubles in the source; here both sides of its
-- comparison are multiplied by the window's length, so the test is exact.
pub mod Hits
pub mod Window
use encore_mcp_base.Base.{
  ℕ, ◌+◌, ◌-◌, ◌*◌, ◌/◌, String, Bool, true, false, not, Option, none, some, Result, ok, err, ◌>>=◌,
  ◌>>◌, throw_if, service_error, rate_limited, Thrown, leb, nat_eq, if◌then◌else◌,
}
use encore_mcp_base.Base.Dict.{Dict, lookup, set, keep_values}
use encore_mcp_base.Store.Records.{RateLimitRecord, OAuthStoreState, Operation, update}

pub record RateLimitPolicy : Type 0 where
  pub window_seconds : ℕ
  pub max_requests : ℕ

pub record Counters : Type 0 where
  pub previous_count : ℕ
  pub current_count : ℕ

abbrev pub no_counters : Counters
no_counters = record { previous_count = 0; current_count = 0 }

abbrev pub rate_limit_error : Thrown
rate_limit_error = service_error rate_limited "rate limit exceeded" 429

unfoldable pub counters_for_window : Option RateLimitRecord → ℕ → ℕ → ℕ → Counters
counters_for_window none window_start window_seconds now = no_counters
counters_for_window (some r) window_start window_seconds now =
    if leb r.expires_at now
    then no_counters
    else if nat_eq r.window_start window_start
    then record { previous_count = r.previous_count; current_count = r.current_count }
    -- `existing.windowStart === windowStart - windowSeconds`, which may be negative in the source
    else if nat_eq (r.window_start + window_seconds) window_start
    then record { previous_count = r.current_count; current_count = 0 }
    else no_counters

abbrev pub window_of : RateLimitPolicy → ℕ → ℕ
window_of policy now = now / policy.window_seconds * policy.window_seconds

-- `currentCount + previousCount * ((windowSeconds - elapsed) / windowSeconds) >= maxRequests`
abbrev pub is_exhausted : RateLimitPolicy → Counters → ℕ → Bool
is_exhausted policy c elapsed =
    leb (policy.max_requests * policy.window_seconds) (
      c.current_count * policy.window_seconds
      + c.previous_count * (policy.window_seconds - elapsed))

unfoldable pub next_rate_limit_record :
    Option RateLimitRecord → RateLimitPolicy → ℕ → Result RateLimitRecord
next_rate_limit_record existing policy now = do
  let window_start = window_of policy now
  let current = counters_for_window existing window_start policy.window_seconds now
  throw_if (is_exhausted policy current (now - window_start)) rate_limit_error
  ok (record {
    window_start = window_start;
    previous_count = current.previous_count;
    current_count = current.current_count + 1;
    expires_at = window_start + policy.window_seconds * 2;
  })

unfoldable pub prune_expired_rate_limits : Dict RateLimitRecord → ℕ → Dict RateLimitRecord
prune_expired_rate_limits limits now = keep_values (λ r. not (leb r.expires_at now)) limits

module _ (sha : String → String) where
  -- `DiskRateLimitStore.hit`
  unfoldable pub hit : String → RateLimitPolicy → ℕ → Operation (Unit {0})
  hit key policy now = update λ s. do
    let pruned = prune_expired_rate_limits s.rate_limits now
    next ← next_rate_limit_record (lookup (sha key) pruned) policy now
    ok (tt, record s { rate_limits = set (sha key) next pruned })
