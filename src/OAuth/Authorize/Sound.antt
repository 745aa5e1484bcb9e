-- ===== src/OAuth/Authorize/Sound.antt =====
-- What auth/authorize.ts lets through to the identity provider, and that the code which the client
-- gets in the end is bound to what was let through.
use mathlib.Core.Path.{subst}
use encore_mcp_base.Base.{
  String, none, arith, Bool-cases, sym, ◌∙◌, or_throw, bad_request_error, ◌≡◌, refl, ap, inl, inr,
  Bool, true, Option, some, List, Result, ok, contains, truthy, throw_if, not, bind-eq-ok,
  then-eq-ok, ok_inj, All, ◌==◌, service_error, unsupported_response_type,
}
use encore_mcp_base.Store.Records.{s256}
use encore_mcp_base.OAuth.Pkce.{
  PkceInput, PkcePolicy, required, pkce_input, oidc_nonce, is_oidc_nonce, matches_pkce,
}
use encore_mcp_base.OAuth.Pkce.Laws.{pkce_input_iff}
use encore_mcp_base.OAuth.Scopes.{parse_scopes, assert_allowed_scopes}
use encore_mcp_base.OAuth.Scopes.Laws.{assert_allowed_scopes_iff}
use encore_mcp_base.OAuth.Clients.{OAuthClient, resolve_client, assert_redirect_uri}
use encore_mcp_base.OAuth.Clients.Laws.{
  IsResolved, resolve_client-IsResolved, assert_redirect_uri-ok,
}
use encore_mcp_base.OAuth.Resource.{Url, resolve_oauth_resource}
use encore_mcp_base.OAuth.Resource.Laws.{
  IsRequested, IsCanonical, truthy-some, or_throw-eq-ok, resolve_oauth_resource-allowed,
}
use encore_mcp_base.OAuth.Authorize.{
  AuthorizationRequest, ValidatedAuthorization, oauth_state, id_token_hint, validate_authorization,
}

-- The challenge that is kept is of the pattern, with the method "S256".
abbrev pub HasChallenge : ValidatedAuthorization → Type 0
HasChallenge v =
    (c : String) × (v.code_challenge ≡ some c)
    × (matches_pkce c ≡ true)
    × (v.code_challenge_method ≡ some s256)

-- What a validated request is bound to.
pub record IsValid (parse_url : String → Option Url) (clients : List OAuthClient)
    (is_url_client_id : Bool) (fetched : Result OAuthClient) (request : AuthorizationRequest)
    (v : ValidatedAuthorization) : Type 0 where
  pub client : OAuthClient
  pub resolved : IsResolved clients request.client_id is_url_client_id fetched client
  pub same_client : v.client_id ≡ client.client_id
  pub same_redirect : v.redirect_uri ≡ request.redirect_uri
  pub registered : contains client.redirect_uris request.redirect_uri ≡ true
  pub resource_allowed : contains client.allowed_resources v.resource ≡ true
  pub resource_asked :
      (wanted : String) × (canonical : String) × IsRequested client request.resource wanted
      × IsCanonical parse_url wanted canonical
      × IsCanonical parse_url v.resource canonical
  pub scopes_parsed : parse_scopes request.scope ≡ ok v.scopes
  pub scopes_allowed : All (λ scope. contains client.allowed_scopes scope ≡ true) v.scopes
  pub challenged : client.pkce_policy ≡ required → HasChallenge v
  pub same_state : request.state ≡ some v.client_state
  pub same_nonce : v.nonce ≡ truthy request.nonce
  pub same_challenge : v.code_challenge ≡ truthy request.code_challenge
  pub same_method :
      (c : String) → v.code_challenge ≡ some c → request.code_challenge_method ≡ some "S256"

required-challenge :
    (policy : PkcePolicy) (challenge method : Option String) (r : PkceInput)
    → pkce_input policy challenge method ≡ ok r
    → policy ≡ required
    → (c : String) × (r.code_challenge ≡ some c)
      × (matches_pkce c ≡ true)
      × (r.code_challenge_method ≡ some s256)
required-challenge policy challenge method r accepts demands =
    elim ((pkce_input_iff policy challenge method r).0 accepts) [
      | inl (absent, optional_policy, kept) ↦ absurd (cc (demands, optional_policy))
      | inr (c, present, matches, s256_method, kept) ↦
          (c, ap (λ p. p.code_challenge) kept, matches, ap (λ p. p.code_challenge_method) kept)
    ]

kept_challenge :
    (policy : PkcePolicy) (challenge method : Option String) (r : PkceInput)
    → pkce_input policy challenge method ≡ ok r
    → (r.code_challenge ≡ truthy challenge)
      × ((c : String) → r.code_challenge ≡ some c → method ≡ some "S256")
kept_challenge policy challenge method r accepts =
    elim ((pkce_input_iff policy challenge method r).0 accepts) [
      | inl (absent, optional_policy, kept) ↦ (
        ap (λ p. p.code_challenge) kept ∙ sym absent,
        λ c there. absurd (cc (ap (λ p. p.code_challenge) kept, there)),
      )
      | inr (c, present, matches, s256_method, kept) ↦
          (ap (λ p. p.code_challenge) kept ∙ sym present, λ d there. s256_method)
    ]

kept_nonce : (value kept : Option String) → oidc_nonce value ≡ ok kept → truthy kept ≡ truthy value
unfolding oidc_nonce
kept_nonce none kept h = ap truthy (sym (ok_inj h))
kept_nonce (some value) kept h = elim (Bool-cases (is_oidc_nonce value)) [
  | inl accepted ↦ let same : some value ≡ kept = ground (arith, accepted) in ap truthy (sym same)
  | inr refused ↦ absurd (ground (arith, refused))
]

kept_state :
    (value : Option String) (state : String) → oauth_state value ≡ ok state → value ≡ some state
unfolding oauth_state
kept_state value state h =
    let (found, there, h1) =
      bind-eq-ok (or_throw (truthy value) (bad_request_error "state is required")) _ h in
    let (passed, returns) = then-eq-ok _ _ h1 in
    truthy-some value state (
      or_throw-eq-ok (truthy value) (bad_request_error "state is required") state (there ∙ returns))

module _ (parse_url : String → Option Url) (clients : List OAuthClient) (is_url_client_id : Bool)
    (fetched : Result OAuthClient) (request : AuthorizationRequest) where
  abbrev validated_by :
      OAuthClient
      → String
      → String
      → List String
      → PkceInput
      → Option String
      → ValidatedAuthorization
  validated_by client state resource scopes pkce nonce = record {
    client_id = client.client_id;
    redirect_uri = request.redirect_uri;
    resource = resource;
    scopes = scopes;
    client_state = state;
    nonce = truthy nonce;
    code_challenge = pkce.code_challenge;
    code_challenge_method = pkce.code_challenge_method;
  }

  validated_by-IsValid :
      (client : OAuthClient) (state resource : String) (scopes : List String) (pkce : PkceInput)
      (issued_nonce : Option String)
      → resolve_client clients request.client_id is_url_client_id fetched ≡ ok client
      → assert_redirect_uri client request.redirect_uri ≡ ok tt
      → resolve_oauth_resource parse_url client request.resource ≡ ok resource
      → parse_scopes request.scope ≡ ok scopes
      → assert_allowed_scopes scopes client.allowed_scopes ≡ ok tt
      → pkce_input client.pkce_policy request.code_challenge request.code_challenge_method ≡ ok pkce
      → oauth_state request.state ≡ ok state
      → oidc_nonce request.nonce ≡ ok issued_nonce
      → IsValid parse_url clients is_url_client_id fetched request
          (validated_by client state resource scopes pkce issued_nonce)
  validated_by-IsValid client state resource scopes pkce issued_nonce resolves registers finds
        parses allows accepts stated given_nonce =
      record {
        client = client;
        resolved =
            resolve_client-IsResolved clients request.client_id is_url_client_id fetched client
              resolves;
        same_client = refl;
        same_redirect = refl;
        registered = assert_redirect_uri-ok client request.redirect_uri registers;
        resource_allowed =
            (resolve_oauth_resource-allowed parse_url client request.resource resource finds).0;
        resource_asked =
            (resolve_oauth_resource-allowed parse_url client request.resource resource finds).1;
        scopes_parsed = parses;
        scopes_allowed = (assert_allowed_scopes_iff scopes client.allowed_scopes).0 allows;
        challenged =
            required-challenge client.pkce_policy request.code_challenge
              request.code_challenge_method pkce accepts;
        same_state = kept_state request.state state stated;
        same_nonce = kept_nonce request.nonce issued_nonce given_nonce;
        same_challenge =
            (kept_challenge client.pkce_policy request.code_challenge request.code_challenge_method
              pkce accepts).0;
        same_method =
            (kept_challenge client.pkce_policy request.code_challenge request.code_challenge_method
              pkce accepts).1;
      }

  -- An authorization request that is let through names a known client, one of its redirect URIs,
  -- and scopes of its own; it is bound to the resource that it asks for, which the client is
  -- allowed, and to a PKCE
  -- challenge of the method "S256" where the client's policy requires one. The state, the nonce and
  -- the challenge that are kept are those of the request, an empty one counting as none.
  pub validate_authorization-IsValid :
      (v : ValidatedAuthorization)
      → validate_authorization parse_url clients is_url_client_id fetched request ≡ ok v
      → IsValid parse_url clients is_url_client_id fetched request v
  unfolding validate_authorization
  validate_authorization-IsValid v h =
      let (code_type, h1) =
        then-eq-ok
          (throw_if (not (request.response_type == "code"))
            (service_error unsupported_response_type "unsupported response_type" 400))
          _ h in
      let (state, stated, h2) = bind-eq-ok (oauth_state request.state) _ h1 in
      let (hinted, h3) = then-eq-ok (id_token_hint request.id_token_hint) _ h2 in
      let (client, resolves, h4) =
        bind-eq-ok (resolve_client clients request.client_id is_url_client_id fetched) _ h3 in
      let (registers, h5) = then-eq-ok (assert_redirect_uri client request.redirect_uri) _ h4 in
      let (resource, finds, h6) =
        bind-eq-ok (resolve_oauth_resource parse_url client request.resource) _ h5 in
      let (scopes, parses, h7) = bind-eq-ok (parse_scopes request.scope) _ h6 in
      let (allows, h8) = then-eq-ok (assert_allowed_scopes scopes client.allowed_scopes) _ h7 in
      let (pkce, accepts, h9) =
        bind-eq-ok
          (pkce_input client.pkce_policy request.code_challenge request.code_challenge_method) _
          h8 in
      let (issued_nonce, given_nonce, returns) = bind-eq-ok (oidc_nonce request.nonce) _ h9 in
      subst (IsValid parse_url clients is_url_client_id fetched request) (ok_inj returns) (
        validated_by-IsValid client state resource scopes pkce issued_nonce resolves registers finds
          parses allows accepts stated given_nonce)
