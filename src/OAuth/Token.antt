-- ===== src/OAuth/Token.antt =====
-- auth/token.ts, tokens/authorization-code.ts, tokens/refresh-token.ts, tokens/token-response.ts,
-- tokens/id-token.ts and the issuing half of tokens/access-token.ts: the token endpoint's grants.
-- A store operation's time and random tokens are arguments. `getSigningKey` with `signJwt` is the
-- parameter `sign`, which can throw.
pub mod Grants
use Prim.Native.String
use Prim.Native.Char.{Char}
use encore_mcp_base.Base.{
  ℕ, ◌+◌, String, Bool, true, false, not, ◌&&◌, ◌||◌, Option, none, some, List, [], ◌∷◌, ◌++◌,
  Result, ok, err, throw_if, or_throw, service_error, unsupported_grant_type, Thrown, truthy,
  contains, or_else, ◌==◌, if◌then◌else◌, ◌>>=◌, ◌>>◌,
}
use encore_mcp_base.Base.Split.{join}
use encore_mcp_base.Store.Records.{
  UserProfile, AuthorizationCodeRecord, AuthorizationCodeExpectation, RefreshTokenRecord,
  OAuthStoreState, Operation, given, after,
}
use encore_mcp_base.Store.Codes.{consume_authorization_code}
use encore_mcp_base.Store.Tokens.{create_refresh_token, rotate_refresh_token}
use encore_mcp_base.OAuth.Parameters.{
  Form, assert_allowed_parameters, optional_parameter, required_parameter,
}
use encore_mcp_base.OAuth.Clients.{
  OAuthClient, TokenEndpointAuthMethod, client_secret_post, client_secret_basic, no_auth,
  private_key_jwt, assert_client_auth_method, assert_client_secret,
}
use encore_mcp_base.OAuth.Resource.{Url, resolve_oauth_resource}
use encore_mcp_base.OAuth.Scopes.Laws.{space}
use encore_mcp_base.OAuth.ClientAuth.{ClientCredentials, read_client_credentials, equals}

pub record TokenConfig : Type 0 where
  pub issuer : String
  pub access_token_ttl_seconds : ℕ
  pub id_token_ttl_seconds : ℕ
  pub refresh_token_ttl_seconds : ℕ

-- What a request draws: random tokens, and the times at which it reads the clock.
pub record Draw : Type 0 where
  pub new_token : String
  pub family : String
  pub jti : String
  pub store_time : ℕ
  pub create_time : ℕ
  pub access_time : ℕ
  pub id_time : ℕ

pub record AccessTokenClaims : Type 0 where
  pub iss : String
  pub aud : String
  pub exp : ℕ
  pub iat : ℕ
  pub nbf : ℕ
  pub jti : String
  pub client_id : String
  pub scope : String
  -- The seven claims of the profile, `sub` among them.
  pub user : UserProfile

pub record IdTokenClaims : Type 0 where
  pub iss : String
  pub aud : String
  pub exp : ℕ
  pub iat : ℕ
  pub auth_time : ℕ
  pub user : UserProfile
  pub nonce : Option String

pub record TokenResponse : Type 0 where
  pub access_token : String
  pub expires_in : ℕ
  pub refresh_token : Option String
  pub id_token : Option String
  pub scope : String

pub record TokenResponseInput : Type 0 where
  pub client_id : String
  pub resource : String
  pub scopes : List String
  pub refresh_token : String
  pub auth_time : ℕ
  pub user : UserProfile
  pub nonce : Option String

unfoldable pub access_token_claims : TokenConfig → TokenResponseInput → Draw → AccessTokenClaims
access_token_claims config input draw = record {
  iss = config.issuer;
  aud = input.resource;
  exp = draw.access_time + config.access_token_ttl_seconds;
  iat = draw.access_time;
  nbf = draw.access_time;
  jti = draw.jti;
  client_id = input.client_id;
  scope = join space input.scopes;
  user = input.user;
}

unfoldable pub id_token_claims : TokenConfig → TokenResponseInput → Draw → IdTokenClaims
id_token_claims config input draw = record {
  iss = config.issuer;
  aud = input.client_id;
  exp = draw.id_time + config.id_token_ttl_seconds;
  iat = draw.id_time;
  auth_time = input.auth_time;
  user = input.user;
  nonce = truthy input.nonce;
}

abbrev map_ok : {A B : Type 0} → (A → B) → Result A → Result B
map_ok f (ok a) = ok (f a)
map_ok f (err e) = err e

module _ (sign_access : AccessTokenClaims → Result String)
    (sign_id : IdTokenClaims → Result String) where
  -- The ID token, for the scope `openid`.
  unfoldable pub issue_id_token : TokenConfig → TokenResponseInput → Draw → Result (Option String)
  issue_id_token config input draw =
      if contains input.scopes "openid"
      then map_ok some (sign_id (id_token_claims config input draw))
      else ok none

  unfoldable pub issue_token_response :
      TokenConfig → TokenResponseInput → Draw → Result TokenResponse
  issue_token_response config input draw = do
    access_token ← sign_access (access_token_claims config input draw)
    id_token ← issue_id_token config input draw
    ok (record {
      access_token = access_token;
      expires_in = config.access_token_ttl_seconds;
      refresh_token = some input.refresh_token;
      id_token = id_token;
      scope = join space input.scopes;
    })

-- What a code grant reads from the form before it touches the store.
pub record CodeGrant : Type 0 where
  pub code : String
  pub redirect_uri : String
  pub resource : String
  pub code_verifier : Option String

pub record RefreshGrant : Type 0 where
  pub token : String
  pub resource : String

module _ (parse_url : String → Option Url) where
  unfoldable pub read_code_grant : OAuthClient → Form → Result CodeGrant
  read_code_grant client form = do
    code ← required_parameter form "code"
    redirect_uri ← required_parameter form "redirect_uri"
    asked ← optional_parameter form "resource"
    resource ← resolve_oauth_resource parse_url client asked
    code_verifier ← optional_parameter form "code_verifier"
    ok (record {
      code = code;
      redirect_uri = redirect_uri;
      resource = resource;
      code_verifier = code_verifier;
    })

  unfoldable pub read_refresh_grant : OAuthClient → Form → Result RefreshGrant
  read_refresh_grant client form = do
    token ← required_parameter form "refresh_token"
    asked ← optional_parameter form "resource"
    resource ← resolve_oauth_resource parse_url client asked
    ok (record { token = token; resource = resource })

abbrev pub code_expectation : OAuthClient → CodeGrant → AuthorizationCodeExpectation
code_expectation client grant = record {
  client_id = client.client_id;
  redirect_uri = grant.redirect_uri;
  resource = some grant.resource;
  allowed_resources = some client.allowed_resources;
  allowed_scopes = some client.allowed_scopes;
}

module _ (sha : String → String) (parse_url : String → Option Url)
    (sign_access : AccessTokenClaims → Result String)
    (sign_id : IdTokenClaims → Result String) where
  -- The grant behind the redeemed code.
  unfoldable pub grant_tokens :
      TokenConfig → OAuthClient → String → Draw → AuthorizationCodeRecord → Operation TokenResponse
  grant_tokens config client resource draw found =
      after
        (create_refresh_token sha
          (record {
            client_id = client.client_id;
            user = found.user;
            resource = resource;
            scopes = found.scopes;
            auth_time = found.auth_time;
            ttl_seconds = config.refresh_token_ttl_seconds;
          })
          draw.new_token draw.family draw.create_time)
        λ refresh_token s. (
          issue_token_response sign_access sign_id config
              (record {
                client_id = client.client_id;
                resource = resource;
                scopes = found.scopes;
                refresh_token = refresh_token;
                auth_time = found.auth_time;
                user = found.user;
                nonce = found.nonce;
              })
              draw,
          s,
        )

  unfoldable pub authorization_code_grant :
      TokenConfig → OAuthClient → Form → Draw → Operation TokenResponse
  authorization_code_grant config client form draw =
      given (read_code_grant parse_url client form) λ grant.
        after
          (consume_authorization_code sha grant.code grant.code_verifier
            (code_expectation client grant) draw.store_time)
          (grant_tokens config client grant.resource draw)

  unfoldable pub refresh_token_grant :
      TokenConfig → OAuthClient → Form → Draw → Operation TokenResponse
  refresh_token_grant config client form draw =
      given (read_refresh_grant parse_url client form) λ grant.
        after
          (rotate_refresh_token sha grant.token client.client_id config.refresh_token_ttl_seconds
            (some grant.resource) (some client.allowed_resources) draw.new_token draw.store_time)
          λ rotated s. (
            issue_token_response sign_access sign_id config
                (record {
                  client_id = client.client_id;
                  resource = rotated.0.resource;
                  scopes = rotated.0.scopes;
                  refresh_token = rotated.1;
                  auth_time = rotated.0.auth_time;
                  user = rotated.0.user;
                  nonce = none;
                })
                draw,
            s,
          )

abbrev auth_parameters : List String
auth_parameters = "client_id" ∷ "client_secret" ∷ "client_assertion_type" ∷ "client_assertion" ∷ []

unfoldable pub token_grant_parameters : Option String → List String
token_grant_parameters grant =
    if equals grant "authorization_code"
    then "grant_type"
      ∷ (auth_parameters ++ "code" ∷ "redirect_uri" ∷ "code_verifier" ∷ "resource" ∷ [])
    else if equals grant "refresh_token"
    then "grant_type" ∷ (auth_parameters ++ "refresh_token" ∷ "resource" ∷ [])
    else "grant_type" ∷ auth_parameters

abbrev pub token_parameters : List String
token_parameters =
    "grant_type" ∷ "client_id" ∷ "client_secret" ∷ "client_assertion_type" ∷ "client_assertion"
    ∷ "code" ∷ "redirect_uri" ∷ "code_verifier" ∷ "resource" ∷ "refresh_token" ∷ []
