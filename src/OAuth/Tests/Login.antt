-- ===== src/OAuth/Tests/Login.antt =====
-- A login of auth/authorize.ts and auth/endpoints.upstream-callback.ts at concrete inputs.
use encore_mcp_base.Base.{String, false, ◌≡◌, refl, none, some, [], ◌∷◌, Result, ok, err}
use encore_mcp_base.Base.Dict.{lookup, HasUniqueKeys}
use encore_mcp_base.Store.Records.{UserProfile, OAuthStoreState, empty_store_state, s256}
use encore_mcp_base.Store.RateLimits.{RateLimitPolicy}
use encore_mcp_base.Store.Tests.{sha, ann}
use encore_mcp_base.Store.Tests.Codes.{verifier}
use encore_mcp_base.OAuth.Parameters.{Form, required_parameter}
use encore_mcp_base.OAuth.Pkce.{oidc_nonce, is_oidc_nonce}
use encore_mcp_base.OAuth.Scopes.{assert_allowed_scopes}
use encore_mcp_base.OAuth.Clients.{OAuthClient, assert_redirect_uri, invalid_client_error}
use encore_mcp_base.OAuth.Header.{trim}
use encore_mcp_base.OAuth.Authorize.{
  AuthorizationRequest, ValidatedAuthorization, UpstreamConfig, LoginDraw, Redirect, oauth_state,
  is_compact_jwt, id_token_hint, validate_authorization, create_login_redirect,
  create_authorization_redirect, create_service_authorization_code,
}
use encore_mcp_base.OAuth.Authorize.Sound.{IsValid, validate_authorization-IsValid}
use encore_mcp_base.OAuth.Callback.{
  CallbackDraw, enforce_rate_limit, read_callback_state, read_callback_user, answer_client,
  upstream_callback,
}
use encore_mcp_base.OAuth.Callback.Bound.{Outcome, IsAnswered, upstream_callback-IsAnswered}
use encore_mcp_base.OAuth.Callback.Login.{login_bound}
use encore_mcp_base.OAuth.Tests.{oauth, parse_url, client}

login : Unit {0}
unfolding oauth oauth_state is_compact_jwt id_token_hint assert_redirect_uri assert_allowed_scopes
    oidc_nonce is_oidc_nonce trim validate_authorization create_login_redirect
    create_authorization_redirect create_service_authorization_code enforce_rate_limit
    read_callback_state read_callback_user answer_client upstream_callback
login = tt

abbrev request : AuthorizationRequest
request = record {
  response_type = "code";
  client_id = "gpt";
  redirect_uri = "https://chatgpt.com/cb";
  scope = some "openid email";
  state = some "client state";
  resource = some "https://s.example/mcp/";
  code_challenge = some verifier;
  code_challenge_method = some "S256";
  nonce = none;
  id_token_hint = none;
}

abbrev validated : ValidatedAuthorization
validated = record {
  client_id = "gpt";
  redirect_uri = "https://chatgpt.com/cb";
  resource = "https://s.example/mcp";
  scopes = "openid" ∷ "email" ∷ [];
  client_state = "client state";
  nonce = none;
  code_challenge = some verifier;
  code_challenge_method = some s256;
}

abbrev config : UpstreamConfig
config = record {
  authorization_url = "https://idp.example/authorize";
  client_id = "service";
  redirect_uri = "https://s.example/oauth/callback";
  scopes = "openid" ∷ "email" ∷ [];
  authorization_code_ttl_seconds = 300;
}

abbrev draw : LoginDraw
draw = record { state = "st"; code_verifier = "cv"; upstream_nonce = "un" }

abbrev policy : RateLimitPolicy
policy = record { window_seconds = 60; max_requests = 5 }

abbrev callback_draw : CallbackDraw
callback_draw = record { limit_time = 120; store_time = 120; create_time = 120; new_code = "c1" }

abbrev params : Form
params = ("code", "upstream code") ∷ ("state", "st") ∷ []

abbrev exchange : String → String → String → Result UserProfile
exchange code code_verifier nonce = ok ann

abbrev fetched : Result OAuthClient
fetched = err invalid_client_error

abbrev begun : Result Redirect × OAuthStoreState
begun =
    create_authorization_redirect sha parse_url config (client ∷ []) false fetched request draw 100
      empty_store_state

abbrev redirect : Redirect
redirect = record {
  url = "https://idp.example/authorize";
  set_params =
      ("response_type", "code")
      ∷ ("client_id", "service")
      ∷ ("redirect_uri", "https://s.example/oauth/callback")
      ∷ ("scope", "openid email")
      ∷ ("state", "st")
      ∷ ("nonce", "un")
      ∷ ("code_challenge", "cv")
      ∷ ("code_challenge_method", "S256")
      ∷ [];
}

abbrev ended : Result Redirect × OAuthStoreState
ended = upstream_callback sha exchange config policy "10.0.0.1" params callback_draw begun.1

abbrev answer : Redirect
answer = record {
  url = "https://chatgpt.com/cb";
  set_params = ("code", "c1") ∷ ("state", "client state") ∷ [];
}

login_tests :
    (validate_authorization parse_url (client ∷ []) false fetched request ≡ ok validated)
    × (begun ≡ (ok redirect, begun.1))
    × (ended ≡ (ok answer, ended.1))
    × (required_parameter params "state" ≡ ok "st")
    × (lookup "st" ended.1.upstream_authorization_states ≡ none)
unfolding login
login_tests = (refl, refl, refl, refl, refl)

begun_unique : HasUniqueKeys begun.1.upstream_authorization_states
unfolding login
begun_unique = (refl, tt)

validate_authorization-IsValid_example :
    IsValid parse_url (client ∷ []) false fetched request validated
validate_authorization-IsValid_example =
    validate_authorization-IsValid parse_url (client ∷ []) false fetched request validated
      login_tests.0

login_bound_example :
    (v : ValidatedAuthorization) × IsValid parse_url (client ∷ []) false fetched request v
    × (answer.url ≡ request.redirect_uri)
    × Outcome sha exchange v "cv" "un" params callback_draw answer begun.1 ended.1
login_bound_example =
    login_bound sha exchange parse_url config (client ∷ []) false fetched request draw 100 policy
      "10.0.0.1" params callback_draw empty_store_state begun.1 ended.1 redirect answer tt
      login_tests.1 login_tests.2 login_tests.3

upstream_callback-IsAnswered_example :
    IsAnswered sha exchange config params callback_draw answer begun.1 ended.1
upstream_callback-IsAnswered_example =
    upstream_callback-IsAnswered sha exchange config policy "10.0.0.1" params callback_draw begun.1
      ended.1 answer begun_unique login_tests.2
