-- ===== src/OAuth/Authorize.antt =====
-- auth/authorize.ts, oauth-state.ts, id-token-hint.ts and upstream-authorization.ts: from an
-- authorization request to the redirect to the identity provider, and from the provider's answer to
-- the client. A URL whose `searchParams` are set is its text with the pairs that were set.
pub mod Sound
use encore_mcp_base.Base.{
  ℕ, ◌+◌, String, Bool, true, false, not, ◌&&◌, ◌||◌, Option, none, some, List, [], ◌∷◌, Result, ok,
  err, ◌>>=◌, ◌>>◌, throw_if, or_throw, bad_request_error, service_error, unsupported_response_type,
  truthy, is_some, nat_eq, leb, ltb, length, any, all, codes, utf16_length, is_alphanumeric, ◌==◌,
  if◌then◌else◌,
}
use encore_mcp_base.Base.Split.{split, join}
use encore_mcp_base.Store.Records.{
  UserProfile, CodeChallengeMethod, AuthorizationCodeInput, UpstreamAuthorizationStateInput,
  UpstreamAuthorizationStateRecord, OAuthStoreState, Operation, given, after,
}
use encore_mcp_base.Store.Codes.{create_authorization_code}
use encore_mcp_base.Store.States.{create_upstream_authorization_state}
use encore_mcp_base.OAuth.Parameters.{Form}
use encore_mcp_base.OAuth.Pkce.{PkceInput, pkce_input, oidc_nonce}
use encore_mcp_base.OAuth.Scopes.{parse_scopes, assert_allowed_scopes}
use encore_mcp_base.OAuth.Scopes.Laws.{space}
use encore_mcp_base.OAuth.Clients.{OAuthClient, resolve_client, assert_redirect_uri}
use encore_mcp_base.OAuth.Resource.{Url, resolve_oauth_resource}

abbrev is_control : ℕ → Bool
is_control c = leb c 0x1f || nat_eq c 0x7f

unfoldable pub oauth_state : Option String → Result String
oauth_state value = do
  state ← or_throw (truthy value) (bad_request_error "state is required")
  throw_if (ltb 512 (utf16_length (codes state)) || any is_control (codes state))
      (bad_request_error "state is invalid")
  ok state

abbrev is_base64url_char : ℕ → Bool
is_base64url_char c = is_alphanumeric c || nat_eq c b'_' || nat_eq c b'-'

abbrev is_jwt_part : String → Bool
is_jwt_part part = is_some (truthy (some part)) && all is_base64url_char (codes part)

unfoldable pub is_compact_jwt : String → Bool
is_compact_jwt value =
    if nat_eq (length (codes value)) 0 || ltb 4096 (utf16_length (codes value))
    then false
    else nat_eq (length (split b'.' value)) 3 && all is_jwt_part (split b'.' value)

unfoldable pub id_token_hint : Option String → Result (Unit {0})
id_token_hint none = ok tt
id_token_hint (some value) =
    throw_if (not (is_compact_jwt value)) (bad_request_error "invalid id_token_hint")

pub record AuthorizationRequest : Type 0 where
  pub response_type : String
  pub client_id : String
  pub redirect_uri : String
  pub scope : Option String
  pub state : Option String
  pub resource : Option String
  pub code_challenge : Option String
  pub code_challenge_method : Option String
  pub nonce : Option String
  pub id_token_hint : Option String

pub record ValidatedAuthorization : Type 0 where
  pub client_id : String
  pub redirect_uri : String
  pub resource : String
  pub scopes : List String
  pub client_state : String
  pub nonce : Option String
  pub code_challenge : Option String
  pub code_challenge_method : Option CodeChallengeMethod

pub record UpstreamConfig : Type 0 where
  pub authorization_url : String
  pub client_id : String
  pub redirect_uri : String
  pub scopes : List String
  pub authorization_code_ttl_seconds : ℕ

-- A URL and the pairs that are set in its query.
pub record Redirect : Type 0 where
  pub url : String
  pub set_params : Form

-- The random tokens of a login.
pub record LoginDraw : Type 0 where
  pub state : String
  pub code_verifier : String
  pub upstream_nonce : String

-- The checks of `createAuthorizationRedirect`, in its order. The last two arguments are what
-- `resolveClient` knows of a client that is not configured.
unfoldable pub validate_authorization :
    (String → Option Url)
    → List OAuthClient
    → Bool
    → Result OAuthClient
    → AuthorizationRequest
    → Result ValidatedAuthorization
validate_authorization parse_url clients is_url_client_id fetched request = do
  throw_if (not (request.response_type == "code"))
      (service_error unsupported_response_type "unsupported response_type" 400)
  state ← oauth_state request.state
  id_token_hint request.id_token_hint
  client ← resolve_client clients request.client_id is_url_client_id fetched
  assert_redirect_uri client request.redirect_uri
  resource ← resolve_oauth_resource parse_url client request.resource
  scopes ← parse_scopes request.scope
  assert_allowed_scopes scopes client.allowed_scopes
  pkce ← pkce_input client.pkce_policy request.code_challenge request.code_challenge_method
  nonce ← oidc_nonce request.nonce
  ok (record {
    client_id = client.client_id;
    redirect_uri = request.redirect_uri;
    resource = resource;
    scopes = scopes;
    client_state = state;
    nonce = truthy nonce;
    code_challenge = pkce.code_challenge;
    code_challenge_method = pkce.code_challenge_method;
  })

module _ (sha : String → String) where
  abbrev pub login_state :
      UpstreamConfig → ValidatedAuthorization → LoginDraw → UpstreamAuthorizationStateInput
  login_state config request draw = record {
    client_id = request.client_id;
    redirect_uri = request.redirect_uri;
    resource = request.resource;
    scopes = request.scopes;
    client_state = request.client_state;
    code_verifier = draw.code_verifier;
    upstream_nonce = draw.upstream_nonce;
    nonce = request.nonce;
    code_challenge = request.code_challenge;
    code_challenge_method = request.code_challenge_method;
    ttl_seconds = config.authorization_code_ttl_seconds;
  }

  unfoldable pub create_login_redirect :
      UpstreamConfig → ValidatedAuthorization → LoginDraw → ℕ → Operation Redirect
  create_login_redirect config request draw now =
      after
        (create_upstream_authorization_state sha (login_state config request draw) draw.state now)
        λ state s. (
          ok (record {
            url = config.authorization_url;
            set_params =
                ("response_type", "code")
                ∷ ("client_id", config.client_id)
                ∷ ("redirect_uri", config.redirect_uri)
                ∷ ("scope", join space config.scopes)
                ∷ ("state", state)
                ∷ ("nonce", draw.upstream_nonce)
                ∷ ("code_challenge", sha draw.code_verifier)
                ∷ ("code_challenge_method", "S256")
                ∷ [];
          }),
          s,
        )

  unfoldable pub create_authorization_redirect :
      (String → Option Url)
      → UpstreamConfig
      → List OAuthClient
      → Bool
      → Result OAuthClient
      → AuthorizationRequest
      → LoginDraw
      → ℕ
      → Operation Redirect
  create_authorization_redirect parse_url config clients is_url_client_id fetched request draw now =
      given (validate_authorization parse_url clients is_url_client_id fetched request)
        λ validated. create_login_redirect config validated draw now

  abbrev pub code_input_of :
      UpstreamConfig → UpstreamAuthorizationStateRecord → UserProfile → AuthorizationCodeInput
  code_input_of config request user = record {
    client_id = request.client_id;
    redirect_uri = request.redirect_uri;
    resource = request.resource;
    scopes = request.scopes;
    nonce = truthy request.nonce;
    code_challenge = truthy request.code_challenge;
    code_challenge_method = request.code_challenge_method;
    user = user;
    ttl_seconds = config.authorization_code_ttl_seconds;
  }

  unfoldable pub create_service_authorization_code :
      UpstreamConfig
      → UpstreamAuthorizationStateRecord
      → UserProfile
      → String
      → ℕ
      → Operation Redirect
  create_service_authorization_code config request user new_code now =
      after (create_authorization_code sha (code_input_of config request user) new_code now)
        λ code s. (
          ok (record {
            url = request.redirect_uri;
            set_params = ("code", code) ∷ ("state", request.client_state) ∷ [];
          }),
          s,
        )
