-- ===== src/OAuth/TokenEndpoint/Authenticated.antt =====
-- The token endpoint of auth/token.ts acts for authenticated clients only.
use encore_mcp_base.Base.{
  String, ◌≡◌, refl, ◌⊎◌, inl, inr, true, Option, none, some, List, ok, err, Thrown, arith, eq_iff,
  truthy, bind-eq-ok, then-eq-ok, ok_inj, ◌>>◌, ap, ◌∙◌, Result-cases, or_throw,
}
use mathlib.Core.Path.{subst}
use encore_mcp_base.Base.Split.{AreDistinct}
use encore_mcp_base.Store.Records.{OAuthStoreState}
use encore_mcp_base.OAuth.Parameters.{Form, keys, assert_allowed_parameters, optional_parameter}
use encore_mcp_base.OAuth.Parameters.Laws.{assert_allowed_parameters_iff}
use encore_mcp_base.OAuth.Clients.{
  OAuthClient, TokenEndpointAuthMethod, client_secret_post, client_secret_basic, no_auth,
  private_key_jwt, same_method, assert_client_auth_method, assert_client_secret, resolve_client,
  invalid_client_error,
}
use encore_mcp_base.OAuth.Clients.Laws.{IsResolved, resolve_client-IsResolved}
use encore_mcp_base.OAuth.Resource.Laws.{truthy-some}
use encore_mcp_base.OAuth.ClientAuth.{ClientCredentials, read_client_credentials}
use encore_mcp_base.OAuth.Token.{TokenConfig, Draw, token_grant_parameters, token_parameters}
use encore_mcp_base.OAuth.TokenEndpoint.{
  Environment, assert_credentials, authenticate, read_token_request, handle_token_grant,
}

same_method_sound : (m n : TokenEndpointAuthMethod) → same_method m n ≡ true → m ≡ n
same_method_sound m n h = ground arith

or_throw-eq-ok : {A : Type 0} (o : Option A) (e : Thrown) (a : A) → or_throw o e ≡ ok a → o ≡ some a
or_throw-eq-ok none e a h = cc
or_throw-eq-ok (some b) e a h = cc

-- The client brought the secret whose digest is registered.
abbrev pub KnowsSecret : (String → String) → OAuthClient → ClientCredentials → Type 0
KnowsSecret sha client credentials =
    (secret : String) × (credentials.client_secret ≡ some secret)
    × (client.client_secret_hash ≡ some (sha secret))

module _ (env : Environment) where
  -- What each method of authentication asks for.
  abbrev pub HasProof : OAuthClient → ClientCredentials → TokenEndpointAuthMethod → Type 0
  HasProof client credentials client_secret_post = KnowsSecret env.sha client credentials
  HasProof client credentials client_secret_basic = KnowsSecret env.sha client credentials
  HasProof client credentials private_key_jwt =
      env.check_assertion client credentials.client_assertion ≡ ok tt
  HasProof client credentials no_auth = Unit {0}

  abbrev pub IsKnown : List OAuthClient → String → OAuthClient → Type 0
  IsKnown clients id = IsResolved clients id (env.is_url_client_id id) (env.fetched id)

  -- The client of a token request, with the credentials that authenticate it.
  pub record IsAuthenticated (clients : List OAuthClient) (form : Form)
      (authorization : Option String) (client : OAuthClient) : Type 0 where
    pub credentials : ClientCredentials
    pub read :
        read_client_credentials env.decode_base64 env.decode_uri_component form authorization
        ≡ ok credentials
    pub known : IsKnown clients credentials.client_id client
    pub same_method : client.token_endpoint_auth_method ≡ credentials.method
    pub proven : HasProof client credentials credentials.method

  assert_client_secret-ok :
      (client : OAuthClient) (credentials : ClientCredentials)
      → assert_client_secret env.sha client credentials.client_secret ≡ ok tt
      → KnowsSecret env.sha client credentials
  unfolding assert_client_secret
  assert_client_secret-ok client credentials h =
      let (secret, brought, continues) =
        bind-eq-ok (or_throw (truthy credentials.client_secret) invalid_client_error) _ h in
      let (known, registered, rest) =
        bind-eq-ok (or_throw (truthy client.client_secret_hash) invalid_client_error) _ continues in
      (
        secret,
        truthy-some _ secret (or_throw-eq-ok _ _ secret brought),
        rw ((eq_iff (env.sha secret) known).0 (ground (arith, rest)))
            (truthy-some _ known (or_throw-eq-ok _ _ known registered)),
      )

  assert_credentials-ok :
      (client : OAuthClient) (credentials : ClientCredentials) (m : TokenEndpointAuthMethod)
      → credentials.method ≡ m
      → assert_credentials env client credentials ≡ ok tt
      → HasProof client credentials m
  unfolding assert_credentials
  assert_credentials-ok client credentials client_secret_post e h =
      assert_client_secret-ok client credentials (rw e at h)
  assert_credentials-ok client credentials client_secret_basic e h =
      assert_client_secret-ok client credentials (rw e at h)
  assert_credentials-ok client credentials private_key_jwt e h = rw e at h
  assert_credentials-ok client credentials no_auth e h = tt

  authenticated :
      (clients : List OAuthClient) (form : Form) (authorization : Option String)
      (credentials : ClientCredentials) (client : OAuthClient)
      → read_client_credentials env.decode_base64 env.decode_uri_component form authorization
        ≡ ok credentials
      → resolve_client clients credentials.client_id
          (env.is_url_client_id credentials.client_id)
          (env.fetched credentials.client_id)
        ≡ ok client
      → assert_client_auth_method client credentials.method ≡ ok tt
      → assert_credentials env client credentials ≡ ok tt
      → IsAuthenticated clients form authorization client
  unfolding assert_client_auth_method
  authenticated clients form authorization credentials client read resolved right_method proves =
      record {
        credentials = credentials;
        read = read;
        known =
            resolve_client-IsResolved clients credentials.client_id
              (env.is_url_client_id credentials.client_id) (env.fetched credentials.client_id)
              client resolved;
        same_method =
            same_method_sound client.token_endpoint_auth_method credentials.method (ground arith);
        proven = assert_credentials-ok client credentials credentials.method refl proves;
      }

  checked :
      (clients : List OAuthClient) (form : Form) (authorization : Option String)
      (credentials : ClientCredentials) (found client : OAuthClient)
      → read_client_credentials env.decode_base64 env.decode_uri_component form authorization
        ≡ ok credentials
      → resolve_client clients credentials.client_id
          (env.is_url_client_id credentials.client_id)
          (env.fetched credentials.client_id)
        ≡ ok found
      → (assert_client_auth_method found credentials.method
          >> (assert_credentials env found credentials >> ok found))
        ≡ ok client
      → IsAuthenticated clients form authorization client
  checked clients form authorization credentials found client read resolved checks =
      let (right_method, continues) =
        then-eq-ok (assert_client_auth_method found credentials.method)
          (assert_credentials env found credentials >> ok found) checks in
      let (proves, returns) =
        then-eq-ok (assert_credentials env found credentials) (ok found) continues in
      subst (IsAuthenticated clients form authorization) (ok_inj returns) (
        authenticated clients form authorization credentials found read resolved right_method
          proves)

  authenticate-ok :
      (clients : List OAuthClient) (form : Form) (authorization : Option String)
      (client : OAuthClient)
      → authenticate env clients form authorization ≡ ok client
      → IsAuthenticated clients form authorization client
  unfolding authenticate
  authenticate-ok clients form authorization client h =
      let (credentials, read, resolves) =
        bind-eq-ok
          (read_client_credentials env.decode_base64 env.decode_uri_component form authorization) _
          h in
      let (found, resolved, checks) =
        bind-eq-ok
          (resolve_client clients credentials.client_id (env.is_url_client_id credentials.client_id)
            (env.fetched credentials.client_id))
          _ resolves in
      checked clients form authorization credentials found client read resolved checks

  read_token_request-ok :
      (clients : List OAuthClient) (form : Form) (authorization grant : Option String)
      (client : OAuthClient)
      → read_token_request env clients form authorization ≡ ok (grant, client)
      → IsAuthenticated clients form authorization client × AreDistinct (keys form)
  unfolding read_token_request
  read_token_request-ok clients form authorization grant client h =
      let (allowed, continues) = then-eq-ok (assert_allowed_parameters form token_parameters) _ h in
      let (asked, reads, rest) = bind-eq-ok (optional_parameter form "grant_type") _ continues in
      let (proper, authenticates) =
        then-eq-ok (assert_allowed_parameters form (token_grant_parameters asked)) _ rest in
      let (found, proves, returns) =
        bind-eq-ok (authenticate env clients form authorization) _ authenticates in
      (
        authenticate-ok clients form authorization client
            (proves ∙ ap (λ c. ok c) (ap (λ p. p.1) (ok_inj returns))),
        ((assert_allowed_parameters_iff form token_parameters).0 allowed).1,
      )

  -- The token endpoint acts for authenticated clients only: a request either throws and leaves the
  -- store as it was, or its form repeats no key and it comes from a client that is configured
  -- under the identifier of its credentials, or was fetched for it, that uses the method which is
  -- registered for it, and that brought the registered secret, or an assertion that was accepted,
  -- where the method asks for one.
  pub handle_token_grant-IsAuthenticated :
      (config : TokenConfig) (clients : List OAuthClient) (form : Form)
      (authorization : Option String) (draw : Draw) (s : OAuthStoreState)
      → ((e : Thrown) × (handle_token_grant env config clients form authorization draw s
            ≡ (err e, s)))
        ⊎ ((client : OAuthClient) × IsAuthenticated clients form authorization client
            × AreDistinct (keys form))
  unfolding handle_token_grant
  handle_token_grant-IsAuthenticated config clients form authorization draw s =
      elim (Result-cases (read_token_request env clients form authorization)) [
        | inl ((grant, client), reads) ↦
            let proven = read_token_request-ok clients form authorization grant client reads in
            inr (client, proven.0, proven.1)
        | inr (e, throws) ↦ inl (e, rw throws refl)
      ]
