-- ===== src/OAuth/TokenEndpoint.antt =====
-- auth/token.ts: the token endpoint, from the form to the grant. The check of a private-key
-- assertion (auth/client-assertion.ts), and whether a client identifier is a URL with the client
-- that is then fetched (auth/client-id-metadata-document.ts), are parameters.
pub mod Authenticated
use encore_mcp_base.Base.{
  ℕ, String, Bool, true, false, not, ◌&&◌, ◌||◌, Option, none, some, List, [], ◌∷◌, ◌++◌, Result,
  ok, err, service_error, unsupported_grant_type, Thrown, if◌then◌else◌, ◌>>=◌, ◌>>◌,
}
use encore_mcp_base.Store.Records.{OAuthStoreState, Operation, given}
use encore_mcp_base.OAuth.Parameters.{Form, assert_allowed_parameters, optional_parameter}
use encore_mcp_base.OAuth.Clients.{
  OAuthClient, TokenEndpointAuthMethod, client_secret_post, client_secret_basic, no_auth,
  private_key_jwt, assert_client_auth_method, assert_client_secret, resolve_client,
}
use encore_mcp_base.OAuth.Resource.{Url}
use encore_mcp_base.OAuth.ClientAuth.{ClientCredentials, read_client_credentials, equals}
use encore_mcp_base.OAuth.Token.{
  TokenConfig, TokenResponse, Draw, AccessTokenClaims, IdTokenClaims, authorization_code_grant,
  refresh_token_grant, token_grant_parameters, token_parameters,
}

-- What the environment of the endpoint brings: the digest, the URL parser, the signatures, the
-- decoders, the check of an assertion, and how a client that is not configured is resolved.
pub record Environment : Type 0 where
  pub sha : String → String
  pub parse_url : String → Option Url
  pub sign_access : AccessTokenClaims → Result String
  pub sign_id : IdTokenClaims → Result String
  pub decode_base64 : String → Option String
  pub decode_uri_component : String → Option String
  pub check_assertion : OAuthClient → Option String → Result (Unit {0})
  pub is_url_client_id : String → Bool
  pub fetched : String → Result OAuthClient

abbrev pub unsupported_grant_type_error : Thrown
unsupported_grant_type_error = service_error unsupported_grant_type "unsupported grant_type" 400

module _ (env : Environment) where
  -- The checks of a client's secret or assertion.
  unfoldable pub assert_credentials : OAuthClient → ClientCredentials → Result (Unit {0})
  assert_credentials client credentials = elim credentials.method [
    | client_secret_post ↦ assert_client_secret env.sha client credentials.client_secret
    | client_secret_basic ↦ assert_client_secret env.sha client credentials.client_secret
    | private_key_jwt ↦ env.check_assertion client credentials.client_assertion
    | no_auth ↦ ok tt
  ]

  -- The client of the request, authenticated.
  unfoldable pub authenticate : List OAuthClient → Form → Option String → Result OAuthClient
  authenticate clients form authorization = do
    credentials ←
        read_client_credentials env.decode_base64 env.decode_uri_component form authorization
    client ←
        resolve_client clients credentials.client_id (env.is_url_client_id credentials.client_id)
          (env.fetched credentials.client_id)
    assert_client_auth_method client credentials.method
    assert_credentials client credentials
    ok client

  -- What precedes the grant: the form's keys, the grant type, the client.
  unfoldable pub read_token_request :
      List OAuthClient → Form → Option String → Result (Option String × OAuthClient)
  read_token_request clients form authorization = do
    assert_allowed_parameters form token_parameters
    grant ← optional_parameter form "grant_type"
    assert_allowed_parameters form (token_grant_parameters grant)
    client ← authenticate clients form authorization
    ok (grant, client)

  abbrev run_grant :
      TokenConfig → Form → Draw → Option String × OAuthClient → Operation TokenResponse
  run_grant config form draw (grant, client) =
      if equals grant "authorization_code"
      then authorization_code_grant env.sha env.parse_url env.sign_access env.sign_id config client
          form draw
      else if equals grant "refresh_token"
      then refresh_token_grant env.sha env.parse_url env.sign_access env.sign_id config client form
          draw
      else λ s. (err unsupported_grant_type_error, s)

  unfoldable pub handle_token_grant :
      TokenConfig → List OAuthClient → Form → Option String → Draw → Operation TokenResponse
  handle_token_grant config clients form authorization draw =
      given (read_token_request clients form authorization) (run_grant config form draw)
