-- ===== src/OAuth/Callback/Bound.antt =====
-- A login from end to end: what the answer of the identity provider to
-- auth/endpoints.upstream-callback.ts gives the client, and that it is bound to the authorization
-- request that began the login.
use mathlib.Core.Path.{subst}
use encore_mcp_base.Base.{
  refl, truthy_twice, ℕ, ◌<◌, String, ◌≡◌, sym, ap, ◌∙◌, ◌⊎◌, inl, inr, none, some, [], ◌∷◌, Result,
  ok, arith, truthy, Option-cases, Result-cases, bind-eq-ok, then-eq-ok,
}
use encore_mcp_base.Base.Dict.{lookup, set, lookup-set_self, lookup-delete_self, HasUniqueKeys}
use encore_mcp_base.Store.Records.{
  UserProfile, AuthorizationCodeRecord, UpstreamAuthorizationStateRecord, OAuthStoreState,
  given-eq-ok, after-eq-ok, RateLimitRecord,
}
use encore_mcp_base.Base.Dict.{Dict}
use encore_mcp_base.Store.Codes.{create_authorization_code, authorization_code_record}
use encore_mcp_base.Store.States.{consume_upstream_authorization_state}
use encore_mcp_base.Store.States.Login.{consume_upstream_authorization_state-eq-ok_iff}
use encore_mcp_base.Store.RateLimits.{RateLimitPolicy, hit}
use encore_mcp_base.OAuth.Parameters.{
  Form, optional_parameter, required_parameter, assert_allowed_parameters,
}
use encore_mcp_base.OAuth.Authorize.{
  ValidatedAuthorization, UpstreamConfig, Redirect, create_service_authorization_code,
  code_input_of,
}
use encore_mcp_base.OAuth.Callback.{
  CallbackDraw, callback_parameters, enforce_rate_limit, read_callback_state, read_callback_user,
  answer_client, upstream_callback,
}

-- The record of a code that is issued to the user on these terms, and not consumed.
pub record IsIssued (terms : ValidatedAuthorization) (user : UserProfile)
    (issued : AuthorizationCodeRecord) : Type 0 where
  pub same_client : issued.client_id ≡ terms.client_id
  pub same_redirect : issued.redirect_uri ≡ terms.redirect_uri
  pub same_resource : issued.resource ≡ terms.resource
  pub same_scopes : issued.scopes ≡ terms.scopes
  pub same_nonce : issued.nonce ≡ truthy terms.nonce
  pub same_challenge : issued.code_challenge ≡ truthy terms.code_challenge
  pub same_method : issued.code_challenge_method ≡ terms.code_challenge_method
  pub same_user : issued.user ≡ user
  pub unspent : issued.consumed_at ≡ none

-- The terms of a login, as its record keeps them.
abbrev pub terms_of : UpstreamAuthorizationStateRecord → ValidatedAuthorization
terms_of r = record {
  client_id = r.client_id;
  redirect_uri = r.redirect_uri;
  resource = r.resource;
  scopes = r.scopes;
  client_state = r.client_state;
  nonce = r.nonce;
  code_challenge = r.code_challenge;
  code_challenge_method = r.code_challenge_method;
}

module _ (sha : String → String) where
  -- A hit touches nothing but the rate limits.
  enforce_rate_limit-rest :
      (policy : RateLimitPolicy) (bucket subject : String) (now : ℕ) (s t : OAuthStoreState)
      → enforce_rate_limit sha policy bucket subject now s ≡ (ok tt, t)
      → (limits : Dict RateLimitRecord) × (t ≡ record s { rate_limits = limits })
  unfolding enforce_rate_limit hit
  enforce_rate_limit-rest policy bucket subject now s t h = (t.rate_limits, ground arith)

module _ (sha : String → String) (exchange : String → String → String → Result UserProfile) where
  -- The client gets a code for the user, on the terms of the login, or hears that access was
  -- denied.
  abbrev pub Outcome :
      ValidatedAuthorization
      → String
      → String
      → Form
      → CallbackDraw
      → Redirect
      → OAuthStoreState
      → OAuthStoreState
      → Type 0
  Outcome terms code_verifier upstream_nonce params draw redirect s t =
      ((redirect.set_params ≡ ("error", "access_denied") ∷ ("state", terms.client_state) ∷ [])
        × (t.authorization_codes ≡ s.authorization_codes))
      ⊎ ((redirect.set_params ≡ ("code", draw.new_code) ∷ ("state", terms.client_state) ∷ [])
          × ((code : String) × (user : UserProfile) × (issued : AuthorizationCodeRecord)
              × (required_parameter params "code" ≡ ok code)
              × (exchange code code_verifier upstream_nonce ≡ ok user)
              × (lookup (sha draw.new_code) t.authorization_codes ≡ some issued)
              × IsIssued terms user issued))

  read_callback_user-ok :
      (params : Form) (r : UpstreamAuthorizationStateRecord) (user : UserProfile)
      → read_callback_user sha exchange params r ≡ ok user
      → (code : String) × (required_parameter params "code" ≡ ok code)
        × (exchange code r.code_verifier r.upstream_nonce ≡ ok user)
  unfolding read_callback_user
  read_callback_user-ok params r user h = bind-eq-ok (required_parameter params "code") _ h

  new_record-IsIssued :
      (config : UpstreamConfig) (r : UpstreamAuthorizationStateRecord) (user : UserProfile)
      (new_code : String) (now : ℕ)
      → IsIssued
          (terms_of r)
          user
          (authorization_code_record sha (code_input_of sha config r user) new_code now)
  unfolding authorization_code_record
  new_record-IsIssued config r user new_code now = record {
    same_client = refl;
    same_redirect = refl;
    same_resource = refl;
    same_scopes = refl;
    same_nonce = truthy_twice r.nonce;
    same_challenge = truthy_twice r.code_challenge;
    same_method = refl;
    same_user = refl;
    unspent = refl;
  }

  created-Outcome :
      (config : UpstreamConfig) (params : Form) (draw : CallbackDraw)
      (r : UpstreamAuthorizationStateRecord) (user : UserProfile) (s t : OAuthStoreState)
      (redirect : Redirect)
      → read_callback_user sha exchange params r ≡ ok user
      → create_service_authorization_code sha config r user draw.new_code draw.create_time s
        ≡ (ok redirect, t)
      → (redirect.url ≡ r.redirect_uri)
        × Outcome (terms_of r) r.code_verifier r.upstream_nonce params draw redirect s t
        × (t.upstream_authorization_states ≡ s.upstream_authorization_states)
  unfolding create_service_authorization_code create_authorization_code
  created-Outcome config params draw r user s t redirect reads issues =
      let (code, brought, exchanged) = read_callback_user-ok params r user reads in
      let written : t ≡ record s {
        authorization_codes =
            set (sha draw.new_code)
              (authorization_code_record sha (code_input_of sha config r user) draw.new_code
                draw.create_time)
              s.authorization_codes;
      } =
        ground arith in
      (
        ground arith,
        inr (
          ground arith,
          (
            code,
            user,
            authorization_code_record sha (code_input_of sha config r user) draw.new_code
                draw.create_time,
            brought,
            exchanged,
            ap (λ u. lookup (sha draw.new_code) u.authorization_codes) written
                ∙ lookup-set_self (sha draw.new_code) _ s.authorization_codes,
            new_record-IsIssued config r user draw.new_code draw.create_time,
          ),
        ),
        ap (λ u. u.upstream_authorization_states) written,
      )

  answer_client-Outcome :
      (config : UpstreamConfig) (params : Form) (draw : CallbackDraw)
      (r : UpstreamAuthorizationStateRecord) (s t : OAuthStoreState) (redirect : Redirect)
      → answer_client sha exchange config params draw r s ≡ (ok redirect, t)
      → (redirect.url ≡ r.redirect_uri)
        × Outcome (terms_of r) r.code_verifier r.upstream_nonce params draw redirect s t
        × (t.upstream_authorization_states ≡ s.upstream_authorization_states)
  unfolding answer_client
  answer_client-Outcome config params draw r s t redirect h =
      elim (Result-cases (optional_parameter params "error")) [
        | inr (e, throws) ↦ absurd (ground (arith, throws))
        | inl (upstream_error, reads) ↦ elim (Option-cases (truthy upstream_error)) [
          | inr (e, denied) ↦ (
            ground (arith, reads, denied),
            inl (ground (arith, reads, denied), ground (arith, reads, denied)),
            ground (arith, reads, denied),
          )
          | inl none_given ↦
              let (user, identified, issues) =
                given-eq-ok (read_callback_user sha exchange params r)
                  (λ user.
                    create_service_authorization_code sha config r user draw.new_code
                      draw.create_time)
                  s t (ground (arith, reads, none_given)) in
              created-Outcome config params draw r user s t redirect identified issues
        ]
      ]

  outcome-of_codes :
      (config : UpstreamConfig) (params : Form) (draw : CallbackDraw)
      (r : UpstreamAuthorizationStateRecord) (redirect : Redirect) (v s t : OAuthStoreState)
      → v.authorization_codes ≡ s.authorization_codes
      → Outcome (terms_of r) r.code_verifier r.upstream_nonce params draw redirect v t
      → Outcome (terms_of r) r.code_verifier r.upstream_nonce params draw redirect s t
  outcome-of_codes config params draw r redirect v s t same (inl (denied, kept)) =
      inl (denied, kept ∙ same)
  outcome-of_codes config params draw r redirect v s t same (inr issued) = inr issued

  -- What a callback that redirects has done.
  pub record IsAnswered (config : UpstreamConfig) (params : Form) (draw : CallbackDraw)
      (redirect : Redirect) (s t : OAuthStoreState) : Type 0 where
    pub state : String
    pub login : UpstreamAuthorizationStateRecord
    pub named : required_parameter params "state" ≡ ok state
    pub stored : lookup (sha state) s.upstream_authorization_states ≡ some login
    pub alive : draw.store_time < login.expires_at
    pub gone : lookup (sha state) t.upstream_authorization_states ≡ none
    pub returned : redirect.url ≡ login.redirect_uri
    pub outcome :
        Outcome (terms_of login) login.code_verifier login.upstream_nonce params draw redirect s t

  consumed-IsAnswered :
      (config : UpstreamConfig) (params : Form) (draw : CallbackDraw) (state : String)
      (r : UpstreamAuthorizationStateRecord) (s u v t : OAuthStoreState)
      (limits : Dict RateLimitRecord) (redirect : Redirect)
      → HasUniqueKeys s.upstream_authorization_states
      → required_parameter params "state" ≡ ok state
      → u ≡ record s { rate_limits = limits }
      → consume_upstream_authorization_state sha state draw.store_time u ≡ (ok r, v)
      → answer_client sha exchange config params draw r v ≡ (ok redirect, t)
      → IsAnswered config params draw redirect s t
  consumed-IsAnswered config params draw state r s u v t limits redirect unique reads untouched
        consumes answers =
      let (stored, alive, written) =
        (consume_upstream_authorization_state-eq-ok_iff sha state draw.store_time u v r
            (subst (λ w. HasUniqueKeys w.upstream_authorization_states) (sym untouched) unique)).0
          consumes in
      let (returned, outcome, states) =
        answer_client-Outcome config params draw r v t redirect answers in
      record {
        state = state;
        login = r;
        named = reads;
        stored =
            ap (λ w. lookup (sha state) w.upstream_authorization_states) (sym untouched) ∙ stored;
        alive = alive;
        gone =
            ap (lookup (sha state)) (states ∙ ap (λ w. w.upstream_authorization_states) written)
            ∙ lookup-delete_self (sha state) _;
        returned = returned;
        outcome =
            outcome-of_codes config params draw r redirect v s t
              (ap (λ w. w.authorization_codes) written ∙ ap (λ w. w.authorization_codes) untouched)
              outcome;
      }

  -- A callback that redirects has consumed a live state: the state that the request names was
  -- stored and not expired, and it is gone now. The redirect goes to the URI of the authorization
  -- request and carries the client's own `state`. Either it says that access was denied, and no
  -- code was created, or the provider's code was exchanged with the verifier and the nonce of that
  -- login, and the new code is stored for the user with the client, redirect URI, resource,
  -- scopes, nonce and PKCE challenge of the login. The keys of the stored states are unique.
  pub upstream_callback-IsAnswered :
      (config : UpstreamConfig) (policy : RateLimitPolicy) (subject : String) (params : Form)
      (draw : CallbackDraw) (s t : OAuthStoreState) (redirect : Redirect)
      → HasUniqueKeys s.upstream_authorization_states
      → upstream_callback sha exchange config policy subject params draw s ≡ (ok redirect, t)
      → IsAnswered config params draw redirect s t
  unfolding upstream_callback read_callback_state
  upstream_callback-IsAnswered config policy subject params draw s t redirect unique h =
      let (done, u, limited, h1) =
        after-eq-ok (enforce_rate_limit sha policy "oauth-authorize" subject draw.limit_time) _ s t
          h in
      let (limits, untouched) =
        enforce_rate_limit-rest sha policy "oauth-authorize" subject draw.limit_time s u limited in
      let (state, reads, h2) = given-eq-ok (read_callback_state sha exchange params) _ u t h1 in
      let (r, v, consumes, answers) =
        after-eq-ok (consume_upstream_authorization_state sha state draw.store_time) _ u t h2 in
      consumed-IsAnswered config params draw state r s u v t limits redirect unique
        (then-eq-ok (assert_allowed_parameters params callback_parameters)
          (required_parameter params "state") reads).1
        untouched consumes answers
