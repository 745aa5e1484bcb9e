-- ===== src/Store/Tests.antt =====
-- Concrete stores: tests of the operations of auth/storage, and the theorems at inputs that meet
-- their hypotheses, in the child modules. The digest is the identity.
pub mod Codes
pub mod Tokens
pub mod Sessions
pub mod Rows
pub mod Unread
use mathlib.Core.List.{mem-cons_self}
use encore_mcp_base.Base.{
  ℕ, ◌<◌, String, Bool, true, false, ◌≡◌, ◌≢◌, refl, ◌↔◌, ◌⊎◌, Option, none, some, List, [], ◌∷◌,
  Mem, Result, ok, err, arith, eq_iff, truthy_number,
}
use encore_mcp_base.Base.Dict.{
  Dict, lookup, set, delete, any_value, keep_values, map_values, keep_some, HasUniqueKeys,
}
use encore_mcp_base.OAuth.Pkce.{matches_pkce, pkce_verifier}
use encore_mcp_base.Store.Records.{
  UserProfile, AuthorizationCodeRecord, AuthorizationCodeInput, AuthorizationCodeExpectation,
  RefreshTokenRecord, RefreshTokenInput, UpstreamAuthorizationStateRecord,
  UpstreamAuthorizationStateInput, McpSessionRecord, RateLimitRecord, OAuthStoreState, s256,
  empty_store_state, invalid_grant_error,
}
use encore_mcp_base.Store.Codes.{
  create_authorization_code, consume_authorization_code, check_authorization_code, check_challenge,
  differs, excludes, excludes_some, authorization_code_record, mark_consumed,
}
use encore_mcp_base.Store.Codes.Redeem.{
  IsRedeemable, consume_authorization_code-eq-ok_iff, consume_authorization_code_cases,
}
use encore_mcp_base.Store.Codes.Replay.{redeemed_once}
use encore_mcp_base.Store.Tokens.{
  create_refresh_token, refresh_token_record, rotate_refresh_token, rotate, check_refresh_token,
  successor, mark_used, is_rotated_from,
}
use encore_mcp_base.Store.Tokens.Rotate.{IsUsable, Outcome, rotate_refresh_token_cases}
use encore_mcp_base.Store.Tokens.Families.{IsSucceeded, reuse_ends_family}
use encore_mcp_base.Store.Tokens.Once.{rotated_once}
use encore_mcp_base.Store.States.{
  create_upstream_authorization_state, consume_upstream_authorization_state,
  upstream_authorization_state_record, prune_expired_upstream_states,
}
use encore_mcp_base.Store.States.Login.{
  login_completes_once, consume_upstream_authorization_state-eq-ok_iff,
}
use encore_mcp_base.Store.Sessions.{
  open_session, touch_mcp_session, reserve_mcp_request_id, terminate_mcp_session, save_mcp_session,
  session_not_found_error,
}
use encore_mcp_base.Store.Sessions.Lifecycle.{terminated_stays, initialized_stays, reserved_once}
use encore_mcp_base.Store.RateLimits.{
  RateLimitPolicy, hit, next_rate_limit_record, counters_for_window, prune_expired_rate_limits,
  rate_limit_error,
}
use encore_mcp_base.Store.RateLimits.Window.{admitted, admitted-le-max_requests}
use encore_mcp_base.Store.RateLimits.Hits.{hit_lem, hit_fresh}
use encore_mcp_base.Mcp.SessionStore.{create_mcp_session, mcp_session_record}
use encore_mcp_base.Store.History.{
  Call, creates_code, consumes_code, creates_token, rotates_token, hits, step, run,
}
use encore_mcp_base.Store.History.WellFormed.{IsWellFormed, run-IsWellFormed}

abbrev pub sha : String → String
sha s = s

unfoldable pub store : Unit {0}
unfolding create_authorization_code consume_authorization_code check_authorization_code
    check_challenge differs excludes excludes_some authorization_code_record pkce_verifier
    matches_pkce create_refresh_token refresh_token_record rotate_refresh_token rotate
    check_refresh_token successor create_upstream_authorization_state
    consume_upstream_authorization_state upstream_authorization_state_record
    prune_expired_upstream_states open_session touch_mcp_session reserve_mcp_request_id
    terminate_mcp_session save_mcp_session create_mcp_session mcp_session_record hit
    next_rate_limit_record counters_for_window prune_expired_rate_limits lookup set delete any_value
    keep_values map_values step run
store = tt

abbrev pub ann : UserProfile
ann = record {
  sub = "u1";
  given_name = "Ann";
  family_name = "Lee";
  name = "Ann Lee";
  preferred_username = "ann";
  email = "ann@example.com";
  email_verified = true;
}
