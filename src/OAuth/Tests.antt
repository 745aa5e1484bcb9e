-- ===== src/OAuth/Tests.antt =====
-- Concrete requests to the OAuth endpoints: tests of the code, and the theorems at inputs that meet
-- their hypotheses.
pub mod Bearer
pub mod Cache
pub mod Login
pub mod Assertion
use encore_mcp_base.Base.{
  String, true, false, ◌≡◌, ◌≢◌, refl, ◌↔◌, ◌⊎◌, Option, none, some, List, [], ◌∷◌, ok, err, Thrown,
  arith, contains, All, truthy, eq_iff,
}
use encore_mcp_base.Base.Split.{split, join, distinct, AreDistinct}
use encore_mcp_base.Store.Records.{OAuthStoreState, invalid_grant_error, s256}
use encore_mcp_base.Store.History.{run}
use encore_mcp_base.Store.Tests.{store, sha}
use encore_mcp_base.Store.Tests.Codes.{verifier, with_code, calls}
use encore_mcp_base.OAuth.Pkce.{PkceInput, optional, required, pkce_input, matches_pkce}
use encore_mcp_base.OAuth.Pkce.Laws.{pkce_input_iff}
use encore_mcp_base.OAuth.Parameters.{
  Form, keys, get_all, check_keys, assert_allowed_parameters, optional_parameter,
  required_parameter,
}
use encore_mcp_base.OAuth.Parameters.Laws.{assert_allowed_parameters_iff}
use encore_mcp_base.OAuth.Scopes.{is_scope_char, matches_scope_list, parse_scopes}
use encore_mcp_base.OAuth.Scopes.Laws.{space, IsScope, parse_scopes-IsScope, parse_scopes-join}
use encore_mcp_base.OAuth.Clients.{
  OAuthClient, client_secret_post, assert_client_auth_method, assert_client_secret, resolve_client,
  invalid_client_error, local_client,
}
use encore_mcp_base.OAuth.Resource.{
  Url, canonical_resource, find_allowed, resolve_grant_resource, resolve_allowed_resource,
  resolve_oauth_resource, without_last_slash, default_actions_resource,
}
use encore_mcp_base.OAuth.Resource.Laws.{IsRequested, IsCanonical, resolve_oauth_resource-allowed}
use encore_mcp_base.OAuth.Header.{
  authorization_credentials, read_authorization_credentials, decode_basic_credentials,
}
use encore_mcp_base.OAuth.ClientAuth.{
  read_client_credentials, read_form_credentials, read_basic_credentials,
  read_assertion_credentials,
}
use encore_mcp_base.OAuth.Token.{
  TokenConfig, TokenResponse, Draw, CodeGrant, access_token_claims, id_token_claims, issue_id_token,
  issue_token_response, read_code_grant, grant_tokens, authorization_code_grant,
  token_grant_parameters,
}
use encore_mcp_base.OAuth.Token.Grants.{IsGranted, IsAsked, code_grant-eq-ok, code_granted_once}
use encore_mcp_base.OAuth.TokenEndpoint.{
  Environment, assert_credentials, authenticate, read_token_request, handle_token_grant,
}
use encore_mcp_base.OAuth.TokenEndpoint.Authenticated.{
  IsAuthenticated, handle_token_grant-IsAuthenticated,
}

unfoldable pub oauth : Unit {0}
unfolding store split join distinct get_all check_keys assert_allowed_parameters optional_parameter
    required_parameter is_scope_char matches_scope_list parse_scopes assert_client_auth_method
    assert_client_secret resolve_client local_client canonical_resource find_allowed
    resolve_grant_resource resolve_allowed_resource resolve_oauth_resource without_last_slash
    default_actions_resource authorization_credentials read_authorization_credentials
    decode_basic_credentials read_client_credentials read_form_credentials read_basic_credentials
    read_assertion_credentials access_token_claims id_token_claims issue_id_token
    issue_token_response read_code_grant grant_tokens authorization_code_grant
    token_grant_parameters assert_credentials authenticate read_token_request handle_token_grant
    pkce_input
oauth = tt

abbrev pub parse_url : String → Option Url
parse_url s = some (record {
  protocol = "https:";
  username = "";
  password = "";
  hash = "";
  hostname = "s.example";
  href = s;
})

abbrev env : Environment
env = record {
  sha = sha;
  parse_url = parse_url;
  sign_access = λ claims. ok claims.scope;
  sign_id = λ claims. ok claims.aud;
  decode_base64 = λ s. some s;
  decode_uri_component = λ s. some s;
  check_assertion = λ client assertion. err invalid_client_error;
  is_url_client_id = λ s. false;
  fetched = λ s. err invalid_client_error;
}

abbrev pub client : OAuthClient
client = record {
  client_id = "gpt";
  client_secret_hash = some "secret";
  display_name = "GPT";
  redirect_uris = "https://chatgpt.com/cb" ∷ [];
  allowed_scopes = "openid" ∷ "email" ∷ [];
  allowed_resources = "https://s.example/mcp" ∷ [];
  token_endpoint_auth_method = client_secret_post;
  jwks_uri = none;
  pkce_policy = required;
  client_class = "gpt-apps-mcp";
}

abbrev config : TokenConfig
config = record {
  issuer = "https://s.example";
  access_token_ttl_seconds = 300;
  id_token_ttl_seconds = 300;
  refresh_token_ttl_seconds = 3600;
}

abbrev draw : Draw
draw = record {
  new_token = "fresh";
  family = "family";
  jti = "jti";
  store_time = 110;
  create_time = 110;
  access_time = 111;
  id_time = 111;
}

abbrev form : Form
form =
    ("grant_type", "authorization_code")
    ∷ ("client_id", "gpt")
    ∷ ("client_secret", "secret")
    ∷ ("code", "code")
    ∷ ("redirect_uri", "https://chatgpt.com/cb")
    ∷ ("code_verifier", verifier)
    ∷ ("resource", "https://s.example/mcp/")
    ∷ []

abbrev grant : CodeGrant
grant = record {
  code = "code";
  redirect_uri = "https://chatgpt.com/cb";
  resource = "https://s.example/mcp";
  code_verifier = some verifier;
}

abbrev response : TokenResponse
response = record {
  access_token = "openid";
  expires_in = 300;
  refresh_token = some "fresh";
  id_token = some "gpt";
  scope = "openid";
}

abbrev granted : OAuthStoreState
granted = (handle_token_grant env config (client ∷ []) form none draw with_code).1

form_tests :
    (assert_allowed_parameters form ("code" ∷ []) ≢ ok tt)
    × (read_code_grant parse_url client form ≡ ok grant)
    × (parse_scopes (some "openid email openid") ≡ ok ("openid" ∷ "email" ∷ []))
    × (resolve_oauth_resource parse_url client (some "https://s.example/mcp/")
        ≡ ok "https://s.example/mcp")
unfolding oauth
form_tests = (λ e. cc, refl, refl, refl)

grant_tests :
    ((handle_token_grant env config (client ∷ []) form none draw with_code).0 ≡ ok response)
    × ((handle_token_grant env config [] form none draw with_code).0 ≡ err invalid_client_error)
unfolding oauth
grant_tests = (refl, refl)

abbrev scopes : List String
scopes = "openid" ∷ "profile" ∷ "email" ∷ []

abbrev pub challenge : PkceInput
challenge = record { code_challenge = some verifier; code_challenge_method = some s256 }

parse_tests : All IsScope scopes × (parse_scopes (some "openid profile openid email") ≡ ok scopes)
unfolding oauth
parse_tests = ((refl, (refl, (refl, tt))), refl)

parse_scopes-join_example : parse_scopes (some (join space scopes)) ≡ ok scopes
parse_scopes-join_example =
    parse_scopes-join "openid" ("profile" ∷ "email" ∷ []) parse_tests.0 (refl, (refl, (refl, tt)))

assert_allowed_parameters_iff_example : (assert_allowed_parameters form ("code" ∷ []) ≡ ok tt) ↔ (
    ((key : String) → contains (keys form) key ≡ true → contains ("code" ∷ []) key ≡ true)
    × AreDistinct (keys form))
assert_allowed_parameters_iff_example = assert_allowed_parameters_iff form ("code" ∷ [])

resolve_oauth_resource-allowed_example :
    (contains client.allowed_resources "https://s.example/mcp" ≡ true)
    × ((wanted : String) × (canonical : String) × IsRequested client
          (some "https://s.example/mcp/")
          wanted
        × IsCanonical parse_url wanted canonical
        × IsCanonical parse_url "https://s.example/mcp" canonical)
resolve_oauth_resource-allowed_example =
    resolve_oauth_resource-allowed parse_url client (some "https://s.example/mcp/")
      "https://s.example/mcp" form_tests.3

code_grant_answers :
    authorization_code_grant sha parse_url env.sign_access env.sign_id config client form draw
      with_code
    ≡ (ok response, granted)
unfolding oauth
code_grant_answers = refl

code_grant-eq-ok_example :
    (g : CodeGrant) × (read_code_grant parse_url client form ≡ ok g)
    × IsGranted sha parse_url env.sign_access env.sign_id config client g draw response with_code
        granted
    × IsAsked sha parse_url env.sign_access env.sign_id client form g
code_grant-eq-ok_example =
    code_grant-eq-ok sha parse_url env.sign_access env.sign_id config client form draw with_code
      granted response code_grant_answers

code_granted_once_example :
    authorization_code_grant sha parse_url env.sign_access env.sign_id config client form draw
      (run sha granted calls)
    ≡ (err invalid_grant_error, run sha granted calls)
code_granted_once_example =
    code_granted_once sha parse_url env.sign_access env.sign_id config client client form form draw
      draw with_code granted response grant grant calls (omega arith) code_grant_answers
      form_tests.1 form_tests.1 refl (next_not_code, (tt, tt))
  where
    next_not_code : ◌≢◌ {A = String} "next" "code"
    next_not_code = ground (arith, eq_iff "next" "code")

handle_token_grant-IsAuthenticated_example :
    ((e : Thrown) × (handle_token_grant env config (client ∷ []) form none draw with_code
        ≡ (err e, with_code)))
    ⊎ ((c : OAuthClient) × IsAuthenticated env (client ∷ []) form none c × AreDistinct (keys form))
handle_token_grant-IsAuthenticated_example =
    handle_token_grant-IsAuthenticated env config (client ∷ []) form none draw with_code
