-- ===== src/OAuth/Callback/Login.antt =====
-- A login from the authorization request to the client's code.
use mathlib.Core.Path.{subst}
use encore_mcp_base.Base.{
  ℕ, String, ◌≡◌, sym, ap, ◌∙◌, Bool, Option, some, List, Result, ok, arith, ok_inj, some_inj,
  truthy_twice, inl, inr,
}
use encore_mcp_base.Base.Dict.{
  lookup, set, lookup-set_self, HasUniqueKeys, set-HasUniqueKeys, keep_values-HasUniqueKeys,
}
use encore_mcp_base.Store.Records.{
  UserProfile, UpstreamAuthorizationStateRecord, OAuthStoreState, given-eq-ok,
}
use encore_mcp_base.Store.States.{
  create_upstream_authorization_state, upstream_authorization_state_record,
  prune_expired_upstream_states,
}
use encore_mcp_base.Store.RateLimits.{RateLimitPolicy}
use encore_mcp_base.OAuth.Parameters.{Form, required_parameter}
use encore_mcp_base.OAuth.Clients.{OAuthClient}
use encore_mcp_base.OAuth.Resource.{Url}
use encore_mcp_base.OAuth.Authorize.{
  ValidatedAuthorization, AuthorizationRequest, UpstreamConfig, LoginDraw, Redirect, login_state,
  create_login_redirect, create_authorization_redirect, validate_authorization,
}
use encore_mcp_base.OAuth.Authorize.Sound.{IsValid, validate_authorization-IsValid}
use encore_mcp_base.OAuth.Callback.{CallbackDraw, upstream_callback}
use encore_mcp_base.OAuth.Callback.Bound.{
  terms_of, Outcome, IsAnswered, upstream_callback-IsAnswered,
}

prune-HasUniqueKeys :
    (s : OAuthStoreState) (now : ℕ)
    → HasUniqueKeys s.upstream_authorization_states
    → HasUniqueKeys (prune_expired_upstream_states s.upstream_authorization_states now)
unfolding prune_expired_upstream_states
prune-HasUniqueKeys s now unique =
    keep_values-HasUniqueKeys _ s.upstream_authorization_states unique

module _ (sha : String → String) where
  -- The state's record for a validated request.
  abbrev pub login_record :
      UpstreamConfig → ValidatedAuthorization → LoginDraw → ℕ → UpstreamAuthorizationStateRecord
  login_record config v draw now =
      upstream_authorization_state_record sha (login_state sha config v draw) draw.state now

  create_login_redirect-ok :
      (config : UpstreamConfig) (v : ValidatedAuthorization) (draw : LoginDraw) (now : ℕ)
      (s t : OAuthStoreState) (redirect : Redirect)
      → HasUniqueKeys s.upstream_authorization_states
      → create_login_redirect sha config v draw now s ≡ (ok redirect, t)
      → (lookup (sha draw.state) t.upstream_authorization_states
          ≡ some (login_record config v draw now))
        × HasUniqueKeys t.upstream_authorization_states
  unfolding create_login_redirect create_upstream_authorization_state
  create_login_redirect-ok config v draw now s t redirect unique h =
      let written : t.upstream_authorization_states
          ≡ set (sha draw.state) (login_record config v draw now)
              (prune_expired_upstream_states s.upstream_authorization_states now) =
        ground arith in
      (
        ap (lookup (sha draw.state)) written ∙ lookup-set_self (sha draw.state) _ _,
        subst HasUniqueKeys (sym written)
            (set-HasUniqueKeys (sha draw.state) _ _ (prune-HasUniqueKeys s now unique)),
      )

  -- The state that the callback consumed is the one that was stored for the request.
  found_again :
      (config : UpstreamConfig) (v : ValidatedAuthorization) (draw : LoginDraw) (now : ℕ)
      (params : Form) (callback_draw : CallbackDraw) (answer : Redirect) (t u : OAuthStoreState)
      (exchange : String → String → String → Result UserProfile)
      → lookup (sha draw.state) t.upstream_authorization_states
        ≡ some (login_record config v draw now)
      → required_parameter params "state" ≡ ok draw.state
      → (done : IsAnswered sha exchange config params callback_draw answer t u)
      → done.login ≡ login_record config v draw now
  found_again config v draw now params callback_draw answer t u exchange stored names done =
      some_inj (
        sym done.stored
        ∙ ap (λ state. lookup (sha state) t.upstream_authorization_states)
            (ok_inj (sym done.named ∙ names))
        ∙ stored)

  on_terms :
      (exchange : String → String → String → Result UserProfile) (config : UpstreamConfig)
      (v : ValidatedAuthorization) (draw : LoginDraw) (now : ℕ) (params : Form)
      (callback_draw : CallbackDraw) (answer : Redirect) (t u : OAuthStoreState)
      → Outcome sha exchange
          (terms_of (login_record config v draw now))
          draw.code_verifier
          draw.upstream_nonce
          params
          callback_draw
          answer
          t
          u
      → Outcome sha exchange v draw.code_verifier draw.upstream_nonce params callback_draw answer t
          u
  unfolding upstream_authorization_state_record
  on_terms exchange config v draw now params callback_draw answer t u (inl denied) = inl denied
  on_terms exchange config v draw now params callback_draw answer t u
        (inr (sent, (code, user, issued, brought, exchanged, stored, bound))) =
      inr (
        sent,
        (
          code,
          user,
          issued,
          brought,
          exchanged,
          stored,
          record {
            same_client = bound.same_client;
            same_redirect = bound.same_redirect;
            same_resource = bound.same_resource;
            same_scopes = bound.same_scopes;
            same_nonce = bound.same_nonce ∙ truthy_twice v.nonce;
            same_challenge = bound.same_challenge ∙ truthy_twice v.code_challenge;
            same_method = bound.same_method;
            same_user = bound.same_user;
            unspent = bound.unspent;
          },
        ),
      )

  -- A login that begins with an authorization request and ends with a callback that names its
  -- state: the request was valid, the client is sent to the request's redirect URI, and the
  -- outcome is on the terms that were validated: a code that is issued has the client, the redirect
  -- URI, the resource, the scopes, the nonce and the PKCE challenge of that request, and is not
  -- consumed; and it was issued for the user whom the provider answered for the verifier and the
  -- nonce that the login drew. The keys of the stored states are unique.
  pub login_bound :
      (exchange : String → String → String → Result UserProfile) (parse_url : String → Option Url)
      (config : UpstreamConfig) (clients : List OAuthClient) (is_url_client_id : Bool)
      (fetched : Result OAuthClient) (request : AuthorizationRequest) (draw : LoginDraw) (now : ℕ)
      (policy : RateLimitPolicy) (subject : String) (params : Form) (callback_draw : CallbackDraw)
      (s t u : OAuthStoreState) (redirect answer : Redirect)
      → HasUniqueKeys s.upstream_authorization_states
      → create_authorization_redirect sha parse_url config clients is_url_client_id fetched request
          draw now s
        ≡ (ok redirect, t)
      → upstream_callback sha exchange config policy subject params callback_draw t ≡ (ok answer, u)
      → required_parameter params "state" ≡ ok draw.state
      → (v : ValidatedAuthorization) × IsValid parse_url clients is_url_client_id fetched request v
        × (answer.url ≡ request.redirect_uri)
        × Outcome sha exchange v draw.code_verifier draw.upstream_nonce params callback_draw answer
            t u
  unfolding create_authorization_redirect upstream_authorization_state_record
  login_bound exchange parse_url config clients is_url_client_id fetched request draw now policy
        subject params callback_draw s t u redirect answer unique begins ends names =
      let (v, validates, stores) =
        given-eq-ok (validate_authorization parse_url clients is_url_client_id fetched request) _ s
          t begins in
      let valid =
        validate_authorization-IsValid parse_url clients is_url_client_id fetched request v
          validates in
      let (stored, still_unique) =
        create_login_redirect-ok config v draw now s t redirect unique stores in
      let done =
        upstream_callback-IsAnswered sha exchange config policy subject params callback_draw t u
          answer still_unique ends in
      let same_login =
        found_again config v draw now params callback_draw answer t u exchange stored names done in
      (
        v,
        valid,
        done.returned ∙ ap (λ r. r.redirect_uri) same_login ∙ valid.same_redirect,
        on_terms exchange config v draw now params callback_draw answer t u (
            subst
              (λ r.
                Outcome sha exchange (terms_of r) r.code_verifier r.upstream_nonce params
                  callback_draw answer t u)
              same_login done.outcome),
      )
