-- ===== src/Store/Tests/Sessions.antt =====
-- Upstream states, MCP sessions and rate limits of auth/storage at concrete inputs.
use encore_mcp_base.Base.{
  ℕ, ◌<◌, String, true, false, ◌≡◌, ◌≢◌, refl, ◌↔◌, ◌⊎◌, none, some, List, [], ◌∷◌, ok, err, arith,
  eq_iff, ◌≤◌, not, leb,
}
use encore_mcp_base.Base.Dict.{keep_values, lookup, delete, keep_some, HasUniqueKeys}
use encore_mcp_base.Store.Records.{
  UpstreamAuthorizationStateRecord, McpSessionRecord, RateLimitRecord, OAuthStoreState,
  empty_store_state, invalid_grant_error,
}
use encore_mcp_base.Store.States.{consume_upstream_authorization_state}
use encore_mcp_base.Store.States.Login.{
  login_completes_once, consume_upstream_authorization_state-eq-ok_iff,
}
use encore_mcp_base.Store.Sessions.{
  touch_mcp_session, reserve_mcp_request_id, terminate_mcp_session, session_not_found_error,
}
use encore_mcp_base.Store.Sessions.Lifecycle.{terminated_stays, reserved_once}
use encore_mcp_base.Store.RateLimits.{
  RateLimitPolicy, hit, next_rate_limit_record, rate_limit_error,
}
use encore_mcp_base.Store.RateLimits.Window.{admitted, admitted-le-max_requests}
use encore_mcp_base.Store.RateLimits.Hits.{hit_lem}
use encore_mcp_base.Mcp.SessionStore.{create_mcp_session}
use encore_mcp_base.Store.History.{consumes_state}
use encore_mcp_base.Store.History.{Call, run}
use encore_mcp_base.Store.History.WellFormed.{IsWellFormed, run-IsWellFormed}
use encore_mcp_base.Store.Tests.{store, sha}

abbrev session : McpSessionRecord
session = record {
  session_id_hash = "s1";
  client_id = "c";
  protocol_version = "2025-11-25";
  created_at = 10;
  last_seen_at = 10;
  expires_at = 3610;
  request_id_hashes = [];
  initialized_at = none;
  terminated_at = none;
}

abbrev opened : OAuthStoreState
opened = record empty_store_state { mcp_sessions = ("s1", session) ∷ [] }

abbrev holding : McpSessionRecord → OAuthStoreState
holding r = record empty_store_state { mcp_sessions = ("s1", r) ∷ [] }

abbrev quiet : List (ℕ × Call)
quiet = (40, consumes_state "x") ∷ []

session_tests :
    (create_mcp_session sha "2025-11-25" "c" "s1" 10 empty_store_state ≡ (ok "s1", opened))
    × (terminate_mcp_session "s1" 20 opened
        ≡ (ok tt, holding (record session { terminated_at = some 20; last_seen_at = 20 })))
    × (touch_mcp_session "s1" (some "2025-11-25") true 20 opened
        ≡ (ok true, holding (record session { initialized_at = some 20; last_seen_at = 20 })))
    × (reserve_mcp_request_id "s1" "i" 20 opened
        ≡ (ok true, holding (record session { request_id_hashes = "i" ∷ []; last_seen_at = 20 })))
    × (touch_mcp_session "s1" none false 3610 opened ≡ (err session_not_found_error, opened))
unfolding store
session_tests = (refl, refl, refl, refl, refl)

terminated_stays_example :
    let u =
      run sha (holding (record session { terminated_at = some 20; last_seen_at = 20 })) quiet in
    (touch_mcp_session "s1" none true 50 u ≡ (err session_not_found_error, u))
    × (reserve_mcp_request_id "s1" "i" 50 u ≡ (err session_not_found_error, u))
    × (terminate_mcp_session "s1" 50 u ≡ (err session_not_found_error, u))
terminated_stays_example =
    terminated_stays sha "s1" 20 50 opened
      (holding (record session { terminated_at = some 20; last_seen_at = 20 })) quiet none true "i"
      (omega arith) session_tests.1 (tt, tt)

reserved_once_example :
    ((reserve_mcp_request_id "s1" "i" 50 (
        run sha
          (holding (record session { request_id_hashes = "i" ∷ []; last_seen_at = 20 }))
          quiet)).0
      ≡ ok false)
    ⊎ ((reserve_mcp_request_id "s1" "i" 50 (
          run sha
            (holding (record session { request_id_hashes = "i" ∷ []; last_seen_at = 20 }))
            quiet)).0
        ≡ err session_not_found_error)
reserved_once_example =
    reserved_once sha "s1" "i" 20 50 opened
      (holding (record session { request_id_hashes = "i" ∷ []; last_seen_at = 20 })) true quiet
      session_tests.3 (tt, tt)

abbrev pending : UpstreamAuthorizationStateRecord
pending = record {
  state_hash = "st";
  client_id = "gpt";
  redirect_uri = "https://chatgpt.com/cb";
  resource = "r";
  scopes = "openid" ∷ [];
  client_state = "cs";
  code_verifier = "v";
  upstream_nonce = "n";
  nonce = none;
  code_challenge = none;
  code_challenge_method = none;
  expires_at = 160;
  created_at = 100;
}

abbrev waiting : OAuthStoreState
waiting = record empty_store_state { upstream_authorization_states = ("st", pending) ∷ [] }

state_tests :
    (consume_upstream_authorization_state sha "st" 110 waiting ≡ (ok pending, empty_store_state))
    × (consume_upstream_authorization_state sha "st" 160 waiting
        ≡ (err invalid_grant_error, waiting))
unfolding store
state_tests = (refl, refl)

login_completes_once_example :
    consume_upstream_authorization_state sha "st" 120 (run sha empty_store_state quiet)
    ≡ (err invalid_grant_error, run sha empty_store_state quiet)
login_completes_once_example =
    login_completes_once sha "st" 110 120 waiting empty_store_state pending quiet state_tests.0
      (tt, tt)

waiting-HasUniqueKeys : HasUniqueKeys waiting.upstream_authorization_states
unfolding store
waiting-HasUniqueKeys = (refl, tt)

consume_upstream_authorization_state-eq-ok_iff_example :
    (consume_upstream_authorization_state sha "st" 110 waiting ≡ (ok pending, empty_store_state))
    ↔ ((lookup "st" waiting.upstream_authorization_states ≡ some pending)
        × (110 < pending.expires_at)
        × (empty_store_state ≡ record waiting {
          upstream_authorization_states = delete "st" (
              keep_values
                (λ other. not (leb other.expires_at 110))
                waiting.upstream_authorization_states);
        }))
consume_upstream_authorization_state-eq-ok_iff_example =
    consume_upstream_authorization_state-eq-ok_iff sha "st" 110 waiting empty_store_state pending
      waiting-HasUniqueKeys

run-IsWellFormed_example : IsWellFormed (run sha empty_store_state quiet)
run-IsWellFormed_example = run-IsWellFormed sha quiet

abbrev policy : RateLimitPolicy
policy = record { window_seconds = 60; max_requests = 2 }

abbrev used : RateLimitRecord
used = record { window_start = 0; previous_count = 0; current_count = 2; expires_at = 120 }

abbrev limited : OAuthStoreState
limited = record empty_store_state { rate_limits = ("k", used) ∷ [] }

limit_tests :
    (hit sha "k" policy 30 limited ≡ (err rate_limit_error, limited))
    × ((hit sha "k" policy 119 limited).0 ≡ ok tt)
    × (admitted policy none (0 ∷ 1 ∷ 2 ∷ 59 ∷ []) ≡ 2)
unfolding store admitted
limit_tests = (refl, refl, refl)

admitted-le-max_requests_example : admitted policy (some used) (30 ∷ 31 ∷ []) ≤ 2
admitted-le-max_requests_example =
    admitted-le-max_requests policy (some used) 0 (30 ∷ 31 ∷ []) (omega arith) (refl, (refl, tt))

limited-HasUniqueKeys : HasUniqueKeys limited.rate_limits
unfolding store
limited-HasUniqueKeys = (refl, tt)

hit_lem_example :
    let t = (hit sha "k" policy 30 limited).1 in
    ((r : RateLimitRecord) × (next_rate_limit_record (lookup "k" limited.rate_limits) policy 30
        ≡ ok r)
      × ((hit sha "k" policy 30 limited).0 ≡ ok tt)
      × (lookup "k" t.rate_limits ≡ some r)
      × (lookup "j" t.rate_limits
          ≡ keep_some (λ q. not (leb q.expires_at 30)) (lookup "j" limited.rate_limits)))
    ⊎ ((next_rate_limit_record (lookup "k" limited.rate_limits) policy 30 ≡ err rate_limit_error)
        × (hit sha "k" policy 30 limited ≡ (err rate_limit_error, limited)))
hit_lem_example = hit_lem sha "k" policy 30 limited "j" limited-HasUniqueKeys other
  where
    other : ◌≢◌ {A = String} "j" "k"
    other = ground (arith, eq_iff "j" "k")
