-- ===== src/Store/RateLimits/Window.antt =====
-- What the sliding window of auth/storage/rate-limit-algorithm.ts admits.
use mathlib.Core.Path.{subst}
use encore_mcp_base.Base.{
  sym, ℕ, ◌+◌, ◌-◌, ◌*◌, ◌/◌, ◌≤◌, ◌<◌, Bool, true, false, ◌≡◌, Option, none, some, List, [], ◌∷◌,
  ok, err, arith, leb, leb_iff, Bool-cases, Result-cases, inl, inr, All, if◌then◌else◌,
}
use native.Mathlib.Nat.{div-add-mod, mod-lt, mul-le-mul_right}
use encore_mcp_base.Store.Records.{RateLimitRecord}
use encore_mcp_base.Store.RateLimits.{
  RateLimitPolicy, counters_for_window, window_of, next_rate_limit_record,
}

-- No count passes the limit.
pub record IsWithin (policy : RateLimitPolicy) (r : RateLimitRecord) : Type 0 where
  pub previous : r.previous_count ≤ policy.max_requests
  pub current : r.current_count ≤ policy.max_requests

abbrev pub IsWithin? : RateLimitPolicy → Option RateLimitRecord → Type 0
IsWithin? policy none = Unit {0}
IsWithin? policy (some r) = IsWithin policy r

-- Room is left in the current window alone, if the weighted sum is not exhausted.
room : (m w c p e : ℕ) → leb (m * w) (c * w + p * (w - e)) ≡ false → c < m
room m w c p e h = elim (Bool-cases (leb m c)) [
  | inl full ↦ absurd (ground (arith, mul-le-mul_right {m = m} {n = c} w ((leb_iff m c).0 full)))
  | inr less ↦ ground arith
]

window_bounds : (w now : ℕ) → 0 < w → (now / w * w ≤ now) × (now < now / w * w + w)
window_bounds w now positive = grind (arith, div-add-mod, mod-lt)

counters_within :
    (policy : RateLimitPolicy) (existing : Option RateLimitRecord) (start now : ℕ)
    → IsWithin? policy existing
    → let c = counters_for_window existing start policy.window_seconds now in
      (c.previous_count ≤ policy.max_requests) × (c.current_count ≤ policy.max_requests)
unfolding counters_for_window
counters_within policy none start now v = omega arith
counters_within policy (some r) start now v = ground arith

-- `hit` on one key: the record afterwards, and whether the request was admitted.
abbrev pub admit : RateLimitPolicy → Option RateLimitRecord → ℕ → Option RateLimitRecord × Bool
admit policy existing now = elim (next_rate_limit_record existing policy now) [
  | ok r ↦ (some r, true)
  | err e ↦ (existing, false)
]

-- The number of requests admitted at the times, one after the other.
unfoldable pub admitted : RateLimitPolicy → Option RateLimitRecord → List ℕ → ℕ
admitted policy existing [] = 0
admitted policy existing (now ∷ times) =
    let next = admit policy existing now in
    let rest = admitted policy next.0 times in if next.1 then rest + 1 else rest

-- An admitted request leaves the record of its window, its counts within the limit.
next_record :
    (policy : RateLimitPolicy) (existing : Option RateLimitRecord) (now : ℕ) (r : RateLimitRecord)
    → next_rate_limit_record existing policy now ≡ ok r
    → let c = counters_for_window existing (window_of policy now) policy.window_seconds now in
      (r.window_start ≡ window_of policy now)
      × (r.expires_at ≡ window_of policy now + policy.window_seconds * 2)
      × (r.current_count ≡ c.current_count + 1)
      × (r.previous_count ≡ c.previous_count)
      × (c.current_count < policy.max_requests)
unfolding next_rate_limit_record
next_record policy existing now r h =
    let c = counters_for_window existing (window_of policy now) policy.window_seconds now in
    ground (
      arith,
      room policy.max_requests policy.window_seconds c.current_count c.previous_count
          (now - window_of policy now),
    )

-- Admissions keep the counts of a record within the limit.
next-IsWithin :
    (policy : RateLimitPolicy) (existing : Option RateLimitRecord) (now : ℕ) (r : RateLimitRecord)
    → IsWithin? policy existing
    → next_rate_limit_record existing policy now ≡ ok r
    → IsWithin policy r
next-IsWithin policy existing now r v h = ground (
  arith,
  next_record policy existing now r h,
  counters_within policy existing (window_of policy now) now v,
)

-- The record of a window still counts for every time of it.
same_window :
    (policy : RateLimitPolicy) (r : RateLimitRecord) (now : ℕ)
    → 0 < policy.window_seconds
    → r.window_start ≡ window_of policy now
    → r.expires_at ≡ r.window_start + policy.window_seconds * 2
    → (counters_for_window (some r) (window_of policy now) policy.window_seconds now).current_count
      ≡ r.current_count
unfolding counters_for_window
same_window policy r now positive start expires =
    ground (arith, window_bounds policy.window_seconds now positive)

abbrev pub InWindow : RateLimitPolicy → ℕ → List ℕ → Type 0
InWindow policy start = All (λ now. window_of policy now ≡ start)

admitted_after :
    (policy : RateLimitPolicy) (r : RateLimitRecord) (times : List ℕ)
    → 0 < policy.window_seconds
    → r.expires_at ≡ r.window_start + policy.window_seconds * 2
    → r.current_count ≤ policy.max_requests
    → InWindow policy r.window_start times
    → r.current_count + admitted policy (some r) times ≤ policy.max_requests
unfolding admitted
admitted_after policy r [] positive expires fits inside = omega arith
admitted_after policy r (now ∷ times) positive expires fits inside =
    elim (Result-cases (next_rate_limit_record (some r) policy now)) [
      | inl (r', e) ↦
          let f = next_record policy (some r) now r' e in
          let count = same_window policy r now positive (sym inside.0) expires in
          let same : r.window_start ≡ r'.window_start = ground arith in
          let rest =
            admitted_after policy r' times positive (ground arith) (omega arith)
              (subst (λ k. InWindow policy k times) same inside.1) in
          rw (e, admit) (omega (arith, rest))
      | inr (x, e) ↦ rw (e, admit) (admitted_after policy r times positive expires fits inside.1)
    ]

-- Whatever the record of a client was, no more than the limit's requests are admitted at times that
-- fall into one window, if the window has a length.
pub admitted-le-max_requests :
    (policy : RateLimitPolicy) (existing : Option RateLimitRecord) (start : ℕ) (times : List ℕ)
    → 0 < policy.window_seconds
    → InWindow policy start times
    → admitted policy existing times ≤ policy.max_requests
unfolding admitted
admitted-le-max_requests policy existing start [] positive inside = omega arith
admitted-le-max_requests policy existing start (now ∷ times) positive inside =
    elim (Result-cases (next_rate_limit_record existing policy now)) [
      | inl (r', e) ↦
          let f = next_record policy existing now r' e in
          let same : start ≡ r'.window_start = ground arith in
          let rest =
            admitted_after policy r' times positive (ground arith) (omega arith)
              (subst (λ k. InWindow policy k times) same inside.1) in
          rw (e, admit) (omega (arith, rest))
      | inr (x, e) ↦
          rw (e, admit) (admitted-le-max_requests policy existing start times positive inside.1)
    ]
