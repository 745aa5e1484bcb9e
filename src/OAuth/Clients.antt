-- ===== src/OAuth/Clients.antt =====
-- auth/client-types.ts, clients.ts and client-resolver.ts: the OAuth clients. `sha` is
-- `sha256Base64Url`. The parsing of OAUTH_CLIENTS_JSON and the client metadata documents are not
-- modelled: a client that `resolveClient` fetches is an argument.
pub mod Laws
use encore_mcp_base.Base.{
  String, Bool, true, false, not, Option, none, some, List, [], ◌∷◌, Result, ok, err, throw_if,
  or_throw, service_error, invalid_client, invalid_target, bad_request_error, Thrown, find,
  contains, truthy, ◌==◌, if◌then◌else◌, ◌>>=◌,
}
use encore_mcp_base.OAuth.Pkce.{PkcePolicy, optional, required}
use encore_mcp_base.OAuth.Scopes.{default_scopes}

pub data TokenEndpointAuthMethod : Type 0 where
  client_secret_post client_secret_basic no_auth private_key_jwt : TokenEndpointAuthMethod

abbrev pub same_method : TokenEndpointAuthMethod → TokenEndpointAuthMethod → Bool
same_method client_secret_post client_secret_post = true
same_method client_secret_basic client_secret_basic = true
same_method no_auth no_auth = true
same_method private_key_jwt private_key_jwt = true
same_method m n = false

pub record OAuthClient : Type 0 where
  pub client_id : String
  pub client_secret_hash : Option String
  pub display_name : String
  pub redirect_uris : List String
  pub allowed_scopes : List String
  pub allowed_resources : List String
  pub token_endpoint_auth_method : TokenEndpointAuthMethod
  pub jwks_uri : Option String
  pub pkce_policy : PkcePolicy
  pub client_class : String

abbrev pub invalid_client_error : Thrown
invalid_client_error = service_error invalid_client "invalid client" 401

unfoldable pub find_client : List OAuthClient → String → Result OAuthClient
find_client clients id = or_throw (find (λ c. c.client_id == id) clients) invalid_client_error

-- `resolveClientIdMetadataDocument(config, clientId)` is `fetched`, and `isUrlClientId(clientId)`
-- is `is_url_client_id`.
unfoldable pub resolve_client :
    List OAuthClient → String → Bool → Result OAuthClient → Result OAuthClient
resolve_client clients id is_url_client_id fetched = elim (find (λ c. c.client_id == id) clients) [
  | some c ↦ ok c
  | none ↦ if is_url_client_id then fetched else err invalid_client_error
]

unfoldable pub assert_client_auth_method : OAuthClient → TokenEndpointAuthMethod → Result (Unit {0})
assert_client_auth_method client method =
    throw_if (not (same_method client.token_endpoint_auth_method method)) invalid_client_error

unfoldable pub assert_redirect_uri : OAuthClient → String → Result (Unit {0})
assert_redirect_uri client uri =
    throw_if (not (contains client.redirect_uris uri))
      (bad_request_error "redirect_uri is not registered")

unfoldable pub assert_resource : OAuthClient → String → Result (Unit {0})
assert_resource client resource =
    throw_if (not (contains client.allowed_resources resource))
      (service_error invalid_target "resource is not allowed" 400)

module _ (sha : String → String) where
  unfoldable pub assert_client_secret : OAuthClient → Option String → Result (Unit {0})
  assert_client_secret client secret = do
    given ← or_throw (truthy secret) invalid_client_error
    known ← or_throw (truthy client.client_secret_hash) invalid_client_error
    throw_if (not (sha given == known)) invalid_client_error

  unfoldable pub local_client :
      String
      → String
      → String
      → List String
      → List String
      → List String
      → String
      → PkcePolicy
      → OAuthClient
  local_client id secret display_name redirect_uris allowed_scopes allowed_resources class policy =
      record {
        client_id = id;
        client_secret_hash = some (sha secret);
        display_name = display_name;
        redirect_uris = redirect_uris;
        allowed_scopes = allowed_scopes;
        allowed_resources = allowed_resources;
        token_endpoint_auth_method = client_secret_post;
        jwks_uri = none;
        pkce_policy = policy;
        client_class = class;
      }

  -- The arguments are `config.actionsAudience` and `config.mcpResource`.
  unfoldable pub local_clients : String → String → List OAuthClient
  unfolding local_client
  local_clients actions_audience mcp_resource =
      local_client "local-test" "local-test-secret" "Local Test"
        ("http://localhost:4000/test/callback" ∷ []) default_scopes
        (actions_audience ∷ mcp_resource ∷ []) "local-test" optional
      ∷ local_client "gpt-actions" "gpt-actions-secret" "GPT Actions"
          ("https://chat.openai.com/aip/g-local/oauth/callback"
            ∷ "https://chatgpt.com/aip/g-local/oauth/callback" ∷ [])
          default_scopes (actions_audience ∷ []) "gpt-actions" optional
      ∷ local_client "gpt-apps-mcp" "gpt-apps-secret" "GPT Apps MCP"
          ("https://chatgpt.com/connector/oauth/local-callback"
            ∷ "https://chatgpt.com/connector_platform_oauth_redirect" ∷ [])
          default_scopes (mcp_resource ∷ []) "gpt-apps-mcp" required
      ∷ []
