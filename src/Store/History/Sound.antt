-- ===== src/Store/History/Sound.antt =====
-- Sound maps: unique keys, every record under its own hash, at most 4096 request ids in a session.
-- The codes, tokens and states of auth/storage stay so at every call.
use mathlib.Core.Path.{subst}
use encore_mcp_base.Base.{ℕ, ◌≤◌, String, ◌≡◌, refl, sym, Option, List, arith, length, inl, inr}
use encore_mcp_base.Base.Dict.{
  Dict, set, HasUniqueKeys, set-HasUniqueKeys, delete-HasUniqueKeys, keep_values-HasUniqueKeys,
  map_values-HasUniqueKeys,
}
use encore_mcp_base.Base.Dict.Each.{Each, set-Each, delete-Each, keep_values-Each, map_values-Each}
use encore_mcp_base.Store.Records.{
  AuthorizationCodeExpectation, AuthorizationCodeRecord, RefreshTokenRecord,
  UpstreamAuthorizationStateRecord, McpSessionRecord, OAuthStoreState,
}
use encore_mcp_base.Store.Codes.{create_authorization_code, consume_authorization_code}
use encore_mcp_base.Store.Codes.Redeem.{
  consume_authorization_code-eq-ok_iff, consume_authorization_code_cases,
}
use encore_mcp_base.Store.Tokens.{create_refresh_token, rotate_refresh_token, successor}
use encore_mcp_base.Store.Tokens.Rotate.{Outcome, revokes, rotates, rotate_refresh_token_cases}
use encore_mcp_base.Store.States.Login.{consume_upstream_authorization_state_cases}
use encore_mcp_base.Store.States.{
  create_upstream_authorization_state, consume_upstream_authorization_state,
  prune_expired_upstream_states, upstream_authorization_state_record,
}
use encore_mcp_base.Store.History.{
  Call, creates_code, consumes_code, creates_token, rotates_token, creates_state, consumes_state,
  step,
}
use encore_mcp_base.Store.History.Frames.{step-codes, step-tokens, step-states}

abbrev pub CodeFits : String → AuthorizationCodeRecord → Type 0
CodeFits key r = r.code_hash ≡ key

abbrev pub TokenFits : String → RefreshTokenRecord → Type 0
TokenFits key r = r.token_hash ≡ key

abbrev pub StateFits : String → UpstreamAuthorizationStateRecord → Type 0
StateFits key r = r.state_hash ≡ key

abbrev pub SessionFits : String → McpSessionRecord → Type 0
SessionFits key r = (r.session_id_hash ≡ key) × (length r.request_id_hashes ≤ 4096)

-- A map with unique keys whose entries fit.
pub record IsSound {V : Type 0} (P : String → V → Type 0) (m : Dict V) : Type 0 where
  pub unique : HasUniqueKeys m
  pub fits : Each P m

module _ {V : Type 0} (P : String → V → Type 0) where
  pub set-IsSound : (k : String) (v : V) (m : Dict V) → P k v → IsSound P m → IsSound P (set k v m)
  set-IsSound k v m p h = record {
    unique = set-HasUniqueKeys k v m h.unique;
    fits = set-Each P k v m p h.fits;
  }

module _ (sha : String → String) where
  consume_code-IsSound :
      (code : String) (verifier : Option String) (expected : AuthorizationCodeExpectation) (now : ℕ)
      (s : OAuthStoreState)
      → IsSound CodeFits s.authorization_codes
      → IsSound CodeFits
          (consume_authorization_code sha code verifier expected now s).1.authorization_codes
  consume_code-IsSound code verifier expected now s v =
      elim (consume_authorization_code_cases sha code verifier expected now s) [
        | inl (r, t, done) ↦
            let (found, stored, _, marked, written) =
              (consume_authorization_code-eq-ok_iff sha code verifier expected now s t r).0 done in
            rw done (
              subst (λ u. IsSound CodeFits u.authorization_codes) (sym written)
                (set-IsSound CodeFits (sha code) r s.authorization_codes
                  (subst (CodeFits (sha code)) (sym marked) (v.fits.at_key (sha code) found stored))
                  v))
        | inr refused ↦ rw refused v
      ]

  pub step-codes-IsSound :
      (s : OAuthStoreState) (c : ℕ × Call)
      → IsSound CodeFits s.authorization_codes
      → IsSound CodeFits (step sha s c).authorization_codes
  unfolding step create_authorization_code
  step-codes-IsSound s (now, creates_code input code) v =
      set-IsSound CodeFits (sha code) _ s.authorization_codes refl v
  step-codes-IsSound s (now, consumes_code code verifier expected) v =
      consume_code-IsSound code verifier expected now s v
  step-codes-IsSound s (now, c) v = subst (IsSound CodeFits) (sym (step-codes sha s now c refl)) v

  rotate-IsSound :
      (token client : String) (ttl : ℕ) (resource : Option String) (allowed : Option (List String))
      (new_token : String) (now : ℕ) (s : OAuthStoreState)
      → IsSound TokenFits s.refresh_tokens
      → Outcome sha token client ttl resource allowed new_token now s
      → IsSound TokenFits
          (rotate_refresh_token sha token client ttl resource allowed new_token now
            s).1.refresh_tokens
  unfolding successor
  rotate-IsSound token client ttl resource allowed new_token now s v (Outcome.refuses _ e) = rw e v
  rotate-IsSound token client ttl resource allowed new_token now s v (revokes found _ _ _ e) =
      rw e (record {
        unique = map_values-HasUniqueKeys _ s.refresh_tokens v.unique;
        fits = map_values-Each TokenFits _ s.refresh_tokens (λ j r h. ground arith) v.fits;
      })
  rotate-IsSound token client ttl resource allowed new_token now s v (rotates found stored _ _ e) =
      rw e (
        set-IsSound TokenFits (sha new_token) _ _ refl (
          set-IsSound TokenFits (sha token) _ s.refresh_tokens
            (v.fits.at_key (sha token) found stored) v))

  pub step-tokens-IsSound :
      (s : OAuthStoreState) (c : ℕ × Call)
      → IsSound TokenFits s.refresh_tokens
      → IsSound TokenFits (step sha s c).refresh_tokens
  unfolding step create_refresh_token
  step-tokens-IsSound s (now, creates_token input token family) v =
      set-IsSound TokenFits (sha token) _ s.refresh_tokens refl v
  step-tokens-IsSound s (now, rotates_token token client ttl resource allowed new_token) v =
      rotate-IsSound token client ttl resource allowed new_token now s v
        (rotate_refresh_token_cases sha token client ttl resource allowed new_token now s)
  step-tokens-IsSound s (now, c) v =
      subst (IsSound TokenFits) (sym (step-tokens sha s now c refl)) v

  prune-IsSound :
      (states : Dict UpstreamAuthorizationStateRecord) (now : ℕ)
      → IsSound StateFits states
      → IsSound StateFits (prune_expired_upstream_states states now)
  unfolding prune_expired_upstream_states
  prune-IsSound states now v = record {
    unique = keep_values-HasUniqueKeys _ states v.unique;
    fits = keep_values-Each StateFits _ states v.unique v.fits;
  }

  consume_state-IsSound :
      (state : String) (now : ℕ) (s : OAuthStoreState)
      → IsSound StateFits s.upstream_authorization_states
      → IsSound StateFits
          (consume_upstream_authorization_state sha state now s).1.upstream_authorization_states
  consume_state-IsSound state now s v =
      let p = prune-IsSound s.upstream_authorization_states now v in
      elim (consume_upstream_authorization_state_cases sha state now s) [
        | inl e ↦ rw e v
        | inr (r, e) ↦ rw e (record {
          unique = delete-HasUniqueKeys (sha state) _ p.unique;
          fits = delete-Each StateFits (sha state) _ p.fits;
        })
      ]

  pub step-states-IsSound :
      (s : OAuthStoreState) (c : ℕ × Call)
      → IsSound StateFits s.upstream_authorization_states
      → IsSound StateFits (step sha s c).upstream_authorization_states
  unfolding step create_upstream_authorization_state upstream_authorization_state_record
  step-states-IsSound s (now, creates_state input state) v =
      set-IsSound StateFits (sha state) (upstream_authorization_state_record sha input state now) _
        refl (prune-IsSound s.upstream_authorization_states now v)
  step-states-IsSound s (now, consumes_state state) v = consume_state-IsSound state now s v
  step-states-IsSound s (now, c) v =
      subst (IsSound StateFits) (sym (step-states sha s now c refl)) v
