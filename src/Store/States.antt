-- ===== src/Store/States.antt =====
-- auth/storage/disk-store.ts: the upstream authorization states, which carry a login across the
-- redirect to the identity provider.
pub mod Login
use encore_mcp_base.Base.{
  ℕ, ◌+◌, String, Bool, true, false, not, Option, none, some, List, Result, ok, err, ◌>>=◌, ◌>>◌,
  throw_if, or_throw, truthy,
}
use encore_mcp_base.Base.Dict.{Dict, lookup, set, delete, keep_values}
use encore_mcp_base.Store.Records.{
  UpstreamAuthorizationStateRecord, UpstreamAuthorizationStateInput, OAuthStoreState, Operation,
  update, is_expired, invalid_grant_error,
}

unfoldable pub prune_expired_upstream_states :
    Dict UpstreamAuthorizationStateRecord → ℕ → Dict UpstreamAuthorizationStateRecord
prune_expired_upstream_states records now =
    keep_values (λ r. not (is_expired r.expires_at now)) records

module _ (sha : String → String) where
  unfoldable pub upstream_authorization_state_record :
      UpstreamAuthorizationStateInput → String → ℕ → UpstreamAuthorizationStateRecord
  upstream_authorization_state_record input state now = record {
    state_hash = sha state;
    client_id = input.client_id;
    redirect_uri = input.redirect_uri;
    resource = input.resource;
    scopes = input.scopes;
    client_state = input.client_state;
    code_verifier = input.code_verifier;
    upstream_nonce = input.upstream_nonce;
    nonce = truthy input.nonce;
    code_challenge = truthy input.code_challenge;
    code_challenge_method = input.code_challenge_method;
    expires_at = now + input.ttl_seconds;
    created_at = now;
  }

  unfoldable pub create_upstream_authorization_state :
      UpstreamAuthorizationStateInput → String → ℕ → Operation String
  create_upstream_authorization_state input state now = update λ s. ok (
    state,
    record s {
      upstream_authorization_states =
          set (sha state) (upstream_authorization_state_record input state now)
            (prune_expired_upstream_states s.upstream_authorization_states now);
    },
  )

  unfoldable pub consume_upstream_authorization_state :
      String → ℕ → Operation UpstreamAuthorizationStateRecord
  consume_upstream_authorization_state state now = update λ s. do
    let pruned = prune_expired_upstream_states s.upstream_authorization_states now
    found ← or_throw (lookup (sha state) pruned) invalid_grant_error
    throw_if (is_expired found.expires_at now) invalid_grant_error
    ok (found, record s { upstream_authorization_states = delete (sha state) pruned })
