-- ===== src/Store/History.antt =====
-- auth/storage/oauth-store.ts: a history of the store is any sequence of calls of its interface,
-- at any times. A call that throws leaves the store that its operation has written, mostly the one
-- before. Sessions are saved by `createMcpSession` of mcp/session-store.ts alone.
pub mod Frames
pub mod Sound
pub mod WellFormed
use encore_mcp_base.Base.{ℕ, String, Bool, Option, List, [], ◌∷◌}
use encore_mcp_base.Store.Records.{
  AuthorizationCodeInput, AuthorizationCodeExpectation, RefreshTokenInput,
  UpstreamAuthorizationStateInput, OAuthStoreState,
}
use encore_mcp_base.Store.Codes.{create_authorization_code, consume_authorization_code}
use encore_mcp_base.Store.Tokens.{create_refresh_token, rotate_refresh_token}
use encore_mcp_base.Store.States.{
  create_upstream_authorization_state, consume_upstream_authorization_state,
}
use encore_mcp_base.Store.Sessions.{
  touch_mcp_session, reserve_mcp_request_id, terminate_mcp_session,
}
use encore_mcp_base.Store.RateLimits.{RateLimitPolicy, hit}
use encore_mcp_base.Mcp.SessionStore.{create_mcp_session}

pub data Call : Type 0 where
  creates_code : AuthorizationCodeInput → String → Call
  consumes_code : String → Option String → AuthorizationCodeExpectation → Call
  creates_token : RefreshTokenInput → String → String → Call
  rotates_token : String → String → ℕ → Option String → Option (List String) → String → Call
  creates_state : UpstreamAuthorizationStateInput → String → Call
  consumes_state : String → Call
  creates_session : String → String → String → Call
  touches_session : String → Option String → Bool → Call
  reserves_id : String → String → Call
  terminates_session : String → Call
  hits : String → RateLimitPolicy → Call

module _ (sha : String → String) where
  unfoldable pub step : OAuthStoreState → ℕ × Call → OAuthStoreState
  step s (now, creates_code input code) = (create_authorization_code sha input code now s).1
  step s (now, consumes_code code verifier expected) =
      (consume_authorization_code sha code verifier expected now s).1
  step s (now, creates_token input token family) =
      (create_refresh_token sha input token family now s).1
  step s (now, rotates_token token client ttl resource allowed new_token) =
      (rotate_refresh_token sha token client ttl resource allowed new_token now s).1
  step s (now, creates_state input state) =
      (create_upstream_authorization_state sha input state now s).1
  step s (now, consumes_state state) = (consume_upstream_authorization_state sha state now s).1
  step s (now, creates_session version client session_id) =
      (create_mcp_session sha version client session_id now s).1
  step s (now, touches_session hash version mark) = (touch_mcp_session hash version mark now s).1
  step s (now, reserves_id hash id_hash) = (reserve_mcp_request_id hash id_hash now s).1
  step s (now, terminates_session hash) = (terminate_mcp_session hash now s).1
  step s (now, hits key policy) = (hit sha key policy now s).1

  unfoldable pub run : OAuthStoreState → List (ℕ × Call) → OAuthStoreState
  run s [] = s
  run s (c ∷ cs) = run (step s c) cs
