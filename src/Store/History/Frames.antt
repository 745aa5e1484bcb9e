-- ===== src/Store/History/Frames.antt =====
-- Which part of the store each operation of auth/storage/disk-store.ts leaves alone.
use encore_mcp_base.Base.{ℕ, String, Bool, true, false, ◌≡◌, arith}
use encore_mcp_base.Store.Records.{OAuthStoreState}
use encore_mcp_base.Store.Codes.{create_authorization_code, consume_authorization_code}
use encore_mcp_base.Store.Tokens.{create_refresh_token, rotate_refresh_token, rotate}
use encore_mcp_base.Store.States.{
  create_upstream_authorization_state, consume_upstream_authorization_state,
}
use encore_mcp_base.Store.Sessions.{
  touch_mcp_session, reserve_mcp_request_id, terminate_mcp_session, save_mcp_session,
}
use encore_mcp_base.Store.RateLimits.{hit}
use encore_mcp_base.Mcp.SessionStore.{create_mcp_session}
use encore_mcp_base.Store.History.{
  Call, creates_code, consumes_code, creates_token, rotates_token, creates_state, consumes_state,
  creates_session, touches_session, reserves_id, terminates_session, hits, step,
}

module _ (sha : String → String) where
  abbrev pub is_code_call : Call → Bool
  is_code_call (creates_code input code) = true
  is_code_call (consumes_code code verifier expected) = true
  is_code_call _ = false

  abbrev pub is_token_call : Call → Bool
  is_token_call (creates_token input token family) = true
  is_token_call (rotates_token token client ttl resource allowed new_token) = true
  is_token_call _ = false

  abbrev pub is_state_call : Call → Bool
  is_state_call (creates_state input state) = true
  is_state_call (consumes_state state) = true
  is_state_call _ = false

  abbrev pub is_session_call : Call → Bool
  is_session_call (creates_session version client session_id) = true
  is_session_call (touches_session session version mark) = true
  is_session_call (reserves_id session id_hash) = true
  is_session_call (terminates_session session) = true
  is_session_call _ = false

  abbrev pub is_limit_call : Call → Bool
  is_limit_call (hits key policy) = true
  is_limit_call _ = false

  pub step-codes :
      (s : OAuthStoreState) (now : ℕ) (c : Call)
      → is_code_call c ≡ false
      → (step sha s (now, c)).authorization_codes ≡ s.authorization_codes
  unfolding step create_authorization_code consume_authorization_code create_refresh_token
      rotate_refresh_token rotate create_upstream_authorization_state
      consume_upstream_authorization_state touch_mcp_session reserve_mcp_request_id
      terminate_mcp_session save_mcp_session create_mcp_session hit
  step-codes s now (creates_code input code) h = cc
  step-codes s now _ h = ground arith

  pub step-tokens :
      (s : OAuthStoreState) (now : ℕ) (c : Call)
      → is_token_call c ≡ false
      → (step sha s (now, c)).refresh_tokens ≡ s.refresh_tokens
  unfolding step create_authorization_code consume_authorization_code create_refresh_token
      rotate_refresh_token rotate create_upstream_authorization_state
      consume_upstream_authorization_state touch_mcp_session reserve_mcp_request_id
      terminate_mcp_session save_mcp_session create_mcp_session hit
  step-tokens s now (creates_token input token family) h = cc
  step-tokens s now _ h = ground arith

  pub step-states :
      (s : OAuthStoreState) (now : ℕ) (c : Call)
      → is_state_call c ≡ false
      → (step sha s (now, c)).upstream_authorization_states ≡ s.upstream_authorization_states
  unfolding step create_authorization_code consume_authorization_code create_refresh_token
      rotate_refresh_token rotate create_upstream_authorization_state
      consume_upstream_authorization_state touch_mcp_session reserve_mcp_request_id
      terminate_mcp_session save_mcp_session create_mcp_session hit
  step-states s now (creates_state input state) h = cc
  step-states s now _ h = ground arith

  pub step-sessions :
      (s : OAuthStoreState) (now : ℕ) (c : Call)
      → is_session_call c ≡ false
      → (step sha s (now, c)).mcp_sessions ≡ s.mcp_sessions
  unfolding step create_authorization_code consume_authorization_code create_refresh_token
      rotate_refresh_token rotate create_upstream_authorization_state
      consume_upstream_authorization_state touch_mcp_session reserve_mcp_request_id
      terminate_mcp_session save_mcp_session create_mcp_session hit
  step-sessions s now (creates_session version client session_id) h = cc
  step-sessions s now _ h = ground arith

  pub step-limits :
      (s : OAuthStoreState) (now : ℕ) (c : Call)
      → is_limit_call c ≡ false
      → (step sha s (now, c)).rate_limits ≡ s.rate_limits
  unfolding step create_authorization_code consume_authorization_code create_refresh_token
      rotate_refresh_token rotate create_upstream_authorization_state
      consume_upstream_authorization_state touch_mcp_session reserve_mcp_request_id
      terminate_mcp_session save_mcp_session create_mcp_session hit
  step-limits s now (hits key policy) h = cc
  step-limits s now _ h = ground arith
