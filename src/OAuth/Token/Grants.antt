-- ===== src/OAuth/Token/Grants.antt =====
-- What a code grant of auth/tokens/authorization-code.ts leaves behind.
use mathlib.Core.Path.{subst}
use encore_mcp_base.Base.{
  ℕ, ◌<◌, ◌+◌, none, true, contains, String, ◌≡◌, refl, ap, sym, ◌∙◌, truthy_number-pos, ok_inj,
  Option, some, List, Result, ok, err, arith, bind-eq-ok, All,
}
use encore_mcp_base.Base.Dict.{lookup, set, lookup-set_self}
use encore_mcp_base.Base.Split.{join}
use encore_mcp_base.Store.Records.{
  AuthorizationCodeRecord, RefreshTokenInput, OAuthStoreState, given-eq-ok, after-eq-ok,
  invalid_grant_error,
}
use encore_mcp_base.Store.Codes.{consume_authorization_code, mark_consumed}
use encore_mcp_base.Store.Codes.Redeem.{IsRedeemable, consume_authorization_code-eq-ok_iff}
use encore_mcp_base.Store.Codes.Replay.{SparesCode, IsSpent, run-IsSpent, consume_spent}
use encore_mcp_base.Store.History.{Call, run}
use encore_mcp_base.Store.Tokens.{create_refresh_token, refresh_token_record}
use encore_mcp_base.OAuth.Parameters.{Form, required_parameter, optional_parameter}
use encore_mcp_base.OAuth.Clients.{OAuthClient}
use encore_mcp_base.OAuth.Resource.{Url, resolve_oauth_resource}
use encore_mcp_base.OAuth.Resource.Laws.{IsRequested, IsCanonical, resolve_oauth_resource-allowed}
use encore_mcp_base.OAuth.Scopes.Laws.{space}
use encore_mcp_base.OAuth.Token.{
  TokenConfig, TokenResponse, TokenResponseInput, Draw, AccessTokenClaims, IdTokenClaims, CodeGrant,
  read_code_grant, code_expectation, grant_tokens, authorization_code_grant, issue_token_response,
  access_token_claims, issue_id_token,
}

-- The input of the refresh token that goes with a redeemed code.
abbrev pub token_input :
    TokenConfig → OAuthClient → String → AuthorizationCodeRecord → RefreshTokenInput
token_input config client resource found = record {
  client_id = client.client_id;
  user = found.user;
  resource = resource;
  scopes = found.scopes;
  auth_time = found.auth_time;
  ttl_seconds = config.refresh_token_ttl_seconds;
}

abbrev pub response_input :
    OAuthClient → String → AuthorizationCodeRecord → String → TokenResponseInput
response_input client resource found refresh_token = record {
  client_id = client.client_id;
  resource = resource;
  scopes = found.scopes;
  refresh_token = refresh_token;
  auth_time = found.auth_time;
  user = found.user;
  nonce = found.nonce;
}

module _ (sign_access : AccessTokenClaims → Result String)
    (sign_id : IdTokenClaims → Result String) where
  pub issue_token_response-eq-ok :
      (config : TokenConfig) (input : TokenResponseInput) (draw : Draw) (response : TokenResponse)
      → issue_token_response sign_access sign_id config input draw ≡ ok response
      → (sign_access (access_token_claims config input draw) ≡ ok response.access_token)
        × (response.refresh_token ≡ some input.refresh_token)
        × (response.scope ≡ join space input.scopes)
  unfolding issue_token_response
  issue_token_response-eq-ok config input draw response h =
      let (token, signed, rest) =
        bind-eq-ok (sign_access (access_token_claims config input draw)) _ h in
      let (id_token, id_signed, answer) =
        bind-eq-ok (issue_id_token sign_access sign_id config input draw) _ rest in
      ground (arith, signed)

module _ (sha : String → String) (parse_url : String → Option Url)
    (sign_access : AccessTokenClaims → Result String)
    (sign_id : IdTokenClaims → Result String) where
  abbrev code_grant :
      TokenConfig
      → OAuthClient
      → Form
      → Draw
      → OAuthStoreState
      → Result TokenResponse × OAuthStoreState
  code_grant = authorization_code_grant sha parse_url sign_access sign_id

  -- What a successful code grant means.
  pub record IsGranted (config : TokenConfig) (client : OAuthClient) (grant : CodeGrant)
      (draw : Draw) (response : TokenResponse) (s t : OAuthStoreState) : Type 0 where
    pub found : AuthorizationCodeRecord
    pub stored : lookup (sha grant.code) s.authorization_codes ≡ some found
    pub redeemable :
        IsRedeemable sha found grant.code_verifier
          (record {
            client_id = client.client_id;
            redirect_uri = grant.redirect_uri;
            resource = some grant.resource;
            allowed_resources = some client.allowed_resources;
            allowed_scopes = some client.allowed_scopes;
          })
          draw.store_time
    pub spent :
        lookup (sha grant.code) t.authorization_codes
        ≡ some (record found { consumed_at = some draw.store_time })
    pub token_kept :
        lookup (sha draw.new_token) t.refresh_tokens
        ≡ some (record {
          token_hash = sha draw.new_token;
          family_id = draw.family;
          client_id = client.client_id;
          user = found.user;
          resource = grant.resource;
          scopes = found.scopes;
          expires_at = draw.create_time + config.refresh_token_ttl_seconds;
          auth_time = found.auth_time;
          rotated_from_hash = none;
          revoked_at = none;
          created_at = draw.create_time;
          last_used_at = none;
        })
    pub answered : response.refresh_token ≡ some draw.new_token
    pub signed :
        sign_access (record {
          iss = config.issuer;
          aud = grant.resource;
          exp = draw.access_time + config.access_token_ttl_seconds;
          iat = draw.access_time;
          nbf = draw.access_time;
          jti = draw.jti;
          client_id = client.client_id;
          scope = join space found.scopes;
          user = found.user;
        })
        ≡ ok response.access_token
    pub scope_answered : response.scope ≡ join space found.scopes

  -- What a grant has of the form.
  pub record IsAsked (client : OAuthClient) (form : Form) (grant : CodeGrant) : Type 0 where
    pub code_named : required_parameter form "code" ≡ ok grant.code
    pub redirect_named : required_parameter form "redirect_uri" ≡ ok grant.redirect_uri
    pub verifier_named : optional_parameter form "code_verifier" ≡ ok grant.code_verifier
    pub resource_allowed : contains client.allowed_resources grant.resource ≡ true
    pub resource_asked :
        (asked : Option String) × (wanted : String) × (canonical : String) × (optional_parameter
            form "resource"
          ≡ ok asked)
        × IsRequested client asked wanted
        × IsCanonical parse_url wanted canonical
        × IsCanonical parse_url grant.resource canonical

  read_code_grant-IsAsked :
      (client : OAuthClient) (form : Form) (grant : CodeGrant)
      → read_code_grant parse_url client form ≡ ok grant
      → IsAsked client form grant
  unfolding read_code_grant
  read_code_grant-IsAsked client form grant h =
      let (code, code_named, h1) = bind-eq-ok (required_parameter form "code") _ h in
      let (uri, uri_named, h2) = bind-eq-ok (required_parameter form "redirect_uri") _ h1 in
      let (asked, asked_named, h3) = bind-eq-ok (optional_parameter form "resource") _ h2 in
      let (resource, resolves, h4) =
        bind-eq-ok (resolve_oauth_resource parse_url client asked) _ h3 in
      let (verifier, verifier_named, returns) =
        bind-eq-ok (optional_parameter form "code_verifier") _ h4 in
      let (allowed, (wanted, canonical, requests, asked_for, bound)) =
        resolve_oauth_resource-allowed parse_url client asked resource resolves in
      subst (IsAsked client form) (ok_inj returns) (record {
        code_named = code_named;
        redirect_named = uri_named;
        verifier_named = verifier_named;
        resource_allowed = allowed;
        resource_asked = (asked, wanted, canonical, asked_named, requests, asked_for, bound);
      })

  grant_tokens-eq-ok :
      (config : TokenConfig) (client : OAuthClient) (resource : String) (draw : Draw)
      (found : AuthorizationCodeRecord) (s t : OAuthStoreState) (response : TokenResponse)
      → grant_tokens sha parse_url sign_access sign_id config client resource draw found s
        ≡ (ok response, t)
      → (issue_token_response sign_access sign_id config
            (response_input client resource found draw.new_token)
            draw
          ≡ ok response)
        × (t ≡ record s {
          refresh_tokens =
              set
                (sha draw.new_token)
                (refresh_token_record sha
                  (token_input config client resource found)
                  draw.new_token
                  draw.family
                  draw.create_time)
                s.refresh_tokens;
        })
  unfolding grant_tokens create_refresh_token
  grant_tokens-eq-ok config client resource draw found s t response h = (ground arith, ground arith)

  -- The claims that a token for a redeemed code is signed for.
  signed_claims :
      (config : TokenConfig) (client : OAuthClient) (resource : String)
      (found : AuthorizationCodeRecord) (draw : Draw)
      → access_token_claims config (response_input client resource found draw.new_token) draw
        ≡ record {
          iss = config.issuer;
          aud = resource;
          exp = draw.access_time + config.access_token_ttl_seconds;
          iat = draw.access_time;
          nbf = draw.access_time;
          jti = draw.jti;
          client_id = client.client_id;
          scope = join space found.scopes;
          user = found.user;
        }
  unfolding access_token_claims
  signed_claims config client resource found draw = refl

  granted :
      (config : TokenConfig) (client : OAuthClient) (grant : CodeGrant) (draw : Draw)
      (s u t : OAuthStoreState) (found consumed : AuthorizationCodeRecord)
      (response : TokenResponse)
      → lookup (sha grant.code) s.authorization_codes ≡ some found
      → IsRedeemable sha found grant.code_verifier (code_expectation client grant) draw.store_time
      → consumed ≡ mark_consumed draw.store_time found
      → u ≡ record s { authorization_codes = set (sha grant.code) consumed s.authorization_codes }
      → grant_tokens sha parse_url sign_access sign_id config client grant.resource draw consumed u
        ≡ (ok response, t)
      → IsGranted config client grant draw response s t
  unfolding refresh_token_record
  granted config client grant draw s u t found consumed response stored redeemable marked written
        grants =
      let (issues, keeps) =
        grant_tokens-eq-ok config client grant.resource draw consumed u t response grants in
      let (signed, answered, scope_answered) =
        issue_token_response-eq-ok sign_access sign_id config
          (response_input client grant.resource consumed draw.new_token) draw response issues in
      record {
        found = found;
        stored = stored;
        redeemable = redeemable;
        spent = rw (keeps, written, lookup-set_self, marked) refl;
        token_kept = rw (keeps, lookup-set_self, marked) refl;
        signed =
            ap sign_access (sym (signed_claims config client grant.resource found draw))
            ∙ subst
                (λ c.
                  sign_access (
                    access_token_claims config
                      (response_input client grant.resource c draw.new_token) draw)
                  ≡ ok response.access_token)
                marked signed;
        answered = answered;
        scope_answered = scope_answered ∙ ap (λ c. join space c.scopes) marked;
      }

  -- A code grant that answers has redeemed a code for the client, the redirect URI and the
  -- resource of the request: the code's record is marked as consumed, a refresh token for the
  -- code's user and scopes is stored under the hash of the one that is answered, the access token
  -- is signed for that resource as its audience, with the client, the user and the scopes of the
  -- code, and expires when the configuration says, and the answered scope is that of the code. The
  -- code, the redirect URI and the verifier are the form's, and the resource is the one that the form
  -- asks for, which the client is allowed.
  pub code_grant-eq-ok :
      (config : TokenConfig) (client : OAuthClient) (form : Form) (draw : Draw)
      (s t : OAuthStoreState) (response : TokenResponse)
      → code_grant config client form draw s ≡ (ok response, t)
      → (grant : CodeGrant) × (read_code_grant parse_url client form ≡ ok grant)
        × IsGranted config client grant draw response s t
        × IsAsked client form grant
  unfolding authorization_code_grant
  code_grant-eq-ok config client form draw s t response h =
      let (grant, read, continues) = given-eq-ok (read_code_grant parse_url client form) _ s t h in
      let (consumed, u, consumes, rest) =
        after-eq-ok
          (consume_authorization_code sha grant.code grant.code_verifier
            (code_expectation client grant) draw.store_time)
          _ s t continues in
      let (found, stored, redeemable, marked, written) =
        (consume_authorization_code-eq-ok_iff sha grant.code grant.code_verifier
            (code_expectation client grant) draw.store_time s u consumed).0
          consumes in
      (
        grant,
        read,
        granted config client grant draw s u t found consumed response stored redeemable marked
            written rest,
        read_code_grant-IsAsked client form grant read,
      )

  granted-IsSpent :
      (config : TokenConfig) (client : OAuthClient) (grant : CodeGrant) (draw : Draw)
      (s t : OAuthStoreState) (response : TokenResponse)
      → 0 < draw.store_time
      → IsGranted config client grant draw response s t
      → IsSpent (sha grant.code) t.authorization_codes
  granted-IsSpent config client grant draw s t response positive done = record {
    found = mark_consumed draw.store_time done.found;
    stored = done.spent;
    used = truthy_number-pos draw.store_time positive;
  }

  refused :
      (config : TokenConfig) (client : OAuthClient) (form : Form) (draw : Draw)
      (s : OAuthStoreState) (grant : CodeGrant)
      → read_code_grant parse_url client form ≡ ok grant
      → consume_authorization_code sha grant.code grant.code_verifier
          (code_expectation client grant)
          draw.store_time
          s
        ≡ (err invalid_grant_error, s)
      → code_grant config client form draw s ≡ (err invalid_grant_error, s)
  unfolding authorization_code_grant
  refused config client form draw s grant reads refuses = rw (reads, refuses) refl

  -- A code buys one answer: after a code grant that answered, at a time that is not 0, every later
  -- grant that brings the same code is refused with "invalid_grant" and changes nothing, whatever
  -- calls of the store come in between, if none of them draws a new code with the same hash.
  pub code_granted_once :
      (config : TokenConfig) (client client' : OAuthClient) (form form' : Form) (draw draw' : Draw)
      (s t : OAuthStoreState) (response : TokenResponse) (grant grant' : CodeGrant)
      (cs : List (ℕ × Call))
      → 0 < draw.store_time
      → code_grant config client form draw s ≡ (ok response, t)
      → read_code_grant parse_url client form ≡ ok grant
      → read_code_grant parse_url client' form' ≡ ok grant'
      → grant'.code ≡ grant.code
      → All (SparesCode sha (sha grant.code)) cs
      → code_grant config client' form' draw' (run sha t cs)
        ≡ (err invalid_grant_error, run sha t cs)
  code_granted_once config client client' form form' draw draw' s t response grant grant' cs
        positive answers reads reads' same fresh =
      let (g, read, granted_before, asked) =
        code_grant-eq-ok config client form draw s t response answers in
      refused config client' form' draw' (run sha t cs) grant' reads' (
        consume_spent sha grant'.code grant'.code_verifier (code_expectation client' grant')
          draw'.store_time (run sha t cs)
          (rw same (
            run-IsSpent sha (sha grant.code) t cs fresh (
              rw (ok_inj (sym reads ∙ read))
                (granted-IsSpent config client g draw s t response positive granted_before)))))
