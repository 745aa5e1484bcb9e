-- ===== src/OAuth/Callback.antt =====
-- auth/endpoints.upstream-callback.ts and `enforceRateLimit` of rate-limit.ts: the answer of the
-- identity provider. `exchangeUpstreamCode` is a parameter. The rate limits and the OAuth store are
-- in one file, as in auth/storage/store-provider.ts without DynamoDB.
pub mod Bound
pub mod Login
use Prim.Native.String
use encore_mcp_base.Base.{
  ℕ, String, Bool, Option, none, some, List, [], ◌∷◌, Result, ok, err, ◌>>=◌, ◌>>◌, truthy, or_else,
}
use encore_mcp_base.Store.Records.{
  UserProfile, UpstreamAuthorizationStateRecord, OAuthStoreState, Operation, given, after,
}
use encore_mcp_base.Store.States.{consume_upstream_authorization_state}
use encore_mcp_base.Store.RateLimits.{RateLimitPolicy, hit}
use encore_mcp_base.OAuth.Header.{trim}
use encore_mcp_base.OAuth.Parameters.{
  Form, assert_allowed_parameters, optional_parameter, required_parameter,
}
use encore_mcp_base.OAuth.Authorize.{UpstreamConfig, Redirect, create_service_authorization_code}

module _ (sha : String → String) where
  unfoldable pub enforce_rate_limit : RateLimitPolicy → String → String → ℕ → Operation (Unit {0})
  enforce_rate_limit policy bucket subject now =
      hit sha
        (String.◌++◌ bucket
          (String.◌++◌ ":" (sha (or_else (truthy (some (trim subject))) "anonymous"))))
        policy now

-- The times at which the callback reads the clock, and the code that it draws.
pub record CallbackDraw : Type 0 where
  pub limit_time : ℕ
  pub store_time : ℕ
  pub create_time : ℕ
  pub new_code : String

abbrev pub callback_parameters : List String
callback_parameters = "code" ∷ "state" ∷ "error" ∷ "error_description" ∷ []

module _ (sha : String → String) (exchange : String → String → String → Result UserProfile) where
  -- `url.searchParams` up to the state.
  unfoldable pub read_callback_state : Form → Result String
  read_callback_state params = do
    assert_allowed_parameters params callback_parameters
    required_parameter params "state"

  -- The user whom the provider's code stands for.
  unfoldable pub read_callback_user : Form → UpstreamAuthorizationStateRecord → Result UserProfile
  read_callback_user params authorization = do
    code ← required_parameter params "code"
    exchange code authorization.code_verifier authorization.upstream_nonce

  -- What follows once the state is consumed.
  unfoldable pub answer_client :
      UpstreamConfig → Form → CallbackDraw → UpstreamAuthorizationStateRecord → Operation Redirect
  answer_client config params draw authorization =
      given (optional_parameter params "error") λ upstream_error. elim (truthy upstream_error) [
        | some e ↦ λ s. (
          ok (record {
            url = authorization.redirect_uri;
            set_params = ("error", "access_denied") ∷ ("state", authorization.client_state) ∷ [];
          }),
          s,
        )
        | none ↦ given (read_callback_user params authorization) λ user.
            create_service_authorization_code sha config authorization user draw.new_code
              draw.create_time
      ]

  unfoldable pub upstream_callback :
      UpstreamConfig → RateLimitPolicy → String → Form → CallbackDraw → Operation Redirect
  upstream_callback config policy subject params draw =
      after (enforce_rate_limit sha policy "oauth-authorize" subject draw.limit_time) λ _.
        given (read_callback_state params) λ state.
          after (consume_upstream_authorization_state sha state draw.store_time)
            (answer_client config params draw)
