-- ===== src/OAuth/Bearer/Verified.antt =====
-- What a bearer token that passes auth/bearer.ts shows.
use encore_mcp_base.Base.{
  All, ℕ, ok_inj, sym, ◌∙◌, String, ap, ◌≤◌, ◌<◌, ◌≡◌, true, Option, none, List, [], ◌∷◌, Mem,
  Result, ok, Thrown, arith, eq_iff, contains, all, bind-eq-ok, then-eq-ok, Result-cases, inl, inr,
}
use mathlib.Core.Path.{subst}
use mathlib.Core.List.{mem-cons_self, mem-cons_of_mem}
use encore_mcp_base.Mcp.Json.{Fields}
use encore_mcp_base.OAuth.Scopes.{has_scopes}
use encore_mcp_base.OAuth.Bearer.Words.{IsWordIn, all_words}
use encore_mcp_base.OAuth.Bearer.{
  VerifiedClaims, read_bearer, words, access_claims, check_claims, verify_access_token, note_error,
  try_audiences, verify_bearer_any_audience,
}
use encore_mcp_base.OAuth.Bearer.Read.{IsRead, IsBearer, access_claims-IsRead, read_bearer-IsBearer}

-- The claims entitle to the audience and the scopes at that time.
pub record IsEntitled (issuer audience : String) (scopes : List String) (now : ℕ)
    (claims : VerifiedClaims) : Type 0 where
  pub same_issuer : claims.iss ≡ issuer
  pub same_audience : claims.aud ≡ audience
  pub unexpired : now < claims.exp
  pub begun : claims.nbf ≤ now
  pub issued : claims.iat ≤ now
  pub scoped : all (contains (words claims.scope)) scopes ≡ true
  pub granted : All (λ w. IsWordIn w claims.scope) scopes

check_claims-IsEntitled :
    (issuer audience : String) (scopes : List String) (now : ℕ) (claims : VerifiedClaims)
    → check_claims issuer audience scopes now claims ≡ ok tt
    → IsEntitled issuer audience scopes now claims
unfolding check_claims has_scopes
check_claims-IsEntitled issuer audience scopes now claims h = record {
  same_issuer = (eq_iff claims.iss issuer).0 (ground arith);
  same_audience = (eq_iff claims.aud audience).0 (ground arith);
  unexpired = ground arith;
  begun = ground arith;
  issued = ground arith;
  scoped = ground arith;
  granted = all_words claims.scope scopes (ground arith);
}

module _ (payload_of : String → Result Fields) (issuer : String) where
  verify_access_token-IsEntitled :
      (token audience : String) (scopes : List String) (now : ℕ) (claims : VerifiedClaims)
      → verify_access_token payload_of issuer token audience scopes now ≡ ok claims
      → (payload_of token ≡ ok claims.payload)
        × IsRead claims
        × IsEntitled issuer audience scopes now claims
  unfolding verify_access_token
  verify_access_token-IsEntitled token audience scopes now claims h =
      let (payload, signed, h1) = bind-eq-ok (payload_of token) _ h in
      let (found, claimed, h2) = bind-eq-ok (access_claims payload) _ h1 in
      let (checks, returns) =
        then-eq-ok (check_claims issuer audience scopes now found) (ok found) h2 in
      let (same, read) = access_claims-IsRead payload found claimed in
      subst
        (λ c.
          (payload_of token ≡ ok c.payload) × IsRead c × IsEntitled issuer audience scopes now c)
        (ok_inj returns)
        (
          signed ∙ ap ok (sym same),
          read,
          check_claims-IsEntitled issuer audience scopes now found checks,
        )

  -- The claims are those of the token's payload, and entitle to one of the audiences.
  abbrev pub EntitledToAny : String → List String → List String → ℕ → VerifiedClaims → Type 0
  EntitledToAny token audiences scopes now claims =
      (audience : String) × Mem audience audiences
      × (payload_of token ≡ ok claims.payload)
      × IsRead claims
      × IsEntitled issuer audience scopes now claims

  try_audiences-EntitledToAny :
      (token : String) (scopes : List String) (now : ℕ) (scope_error token_error : Option Thrown)
      (audiences : List String) (claims : VerifiedClaims)
      → try_audiences payload_of issuer token scopes now scope_error token_error audiences
        ≡ ok claims
      → EntitledToAny token audiences scopes now claims
  unfolding try_audiences
  try_audiences-EntitledToAny token scopes now scope_error token_error [] claims h = cc
  try_audiences-EntitledToAny token scopes now scope_error token_error (a ∷ rest) claims h =
      elim (Result-cases (verify_access_token payload_of issuer token a scopes now)) [
        | inl (found, verifies) ↦
            let verified =
              verify_access_token-IsEntitled token a scopes now claims (ground (arith, verifies)) in
            (a, mem-cons_self, verified.0, verified.1, verified.2)
        | inr (e, fails) ↦ elim (Result-cases (note_error scope_error token_error e)) [
          | inr (thrown, again) ↦ absurd (ground (arith, fails, again))
          | inl ((scope_error', token_error'), noted) ↦
              let continues : try_audiences payload_of issuer token scopes now scope_error'
                    token_error' rest
                  ≡ ok claims =
                ground (arith, fails, noted) in
              let (audience, listed, signed, read, entitled) =
                try_audiences-EntitledToAny token scopes now scope_error' token_error' rest claims
                  continues in
              (audience, mem-cons_of_mem _ listed, signed, read, entitled)
        ]
      ]

  -- An Authorization header that is accepted for a list of audiences names the scheme "Bearer" and
  -- brings a token. The returned claims are read from the payload that the token was verified to
  -- have; they name this service as the issuer and one of the audiences, are valid at this time, and
  -- each required scope is a word of the scope claim.
  pub verify_bearer_any_audience-EntitledToAny :
      (header : Option String) (audiences scopes : List String) (now : ℕ) (claims : VerifiedClaims)
      → verify_bearer_any_audience payload_of issuer header audiences scopes now ≡ ok claims
      → (token : String) × IsBearer header token × EntitledToAny token audiences scopes now claims
  unfolding verify_bearer_any_audience
  verify_bearer_any_audience-EntitledToAny header audiences scopes now claims h =
      let (token, read, tries) = bind-eq-ok (read_bearer header) _ h in
      (
        token,
        read_bearer-IsBearer header token read,
        try_audiences-EntitledToAny token scopes now none none audiences claims tries,
      )
