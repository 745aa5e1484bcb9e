-- ===== src/OAuth/Pkce.antt =====
-- auth/pkce.ts and auth/nonce.ts: the code challenge of an authorization request, the verifier of
-- a token request, and the OpenID Connect nonce.
pub mod Laws
use encore_mcp_base.Base.{
  ℕ, String, Bool, true, false, not, ◌&&◌, ◌||◌, Option, none, some, Result, ok, err, ◌>>=◌, ◌>>◌,
  throw_if, bad_request_error, nat_eq, is_alphanumeric, matches_class, truthy, is_some, ◌==◌,
  if◌then◌else◌,
}
use encore_mcp_base.Store.Records.{CodeChallengeMethod, s256, invalid_grant_error}

-- [A-Za-z0-9._~-]
abbrev is_unreserved : ℕ → Bool
is_unreserved c =
    is_alphanumeric c || nat_eq c b'.' || nat_eq c b'_' || nat_eq c b'~' || nat_eq c b'-'

-- `pkcePattern`
unfoldable pub matches_pkce : String → Bool
matches_pkce s = matches_class is_unreserved 43 128 s

pub data PkcePolicy : Type 0 where
  required optional : PkcePolicy

abbrev is_required : PkcePolicy → Bool
is_required required = true
is_required optional = false

-- `{ codeChallenge?, codeChallengeMethod? }`
pub record PkceInput : Type 0 where
  pub code_challenge : Option String
  pub code_challenge_method : Option CodeChallengeMethod

abbrev equals : Option String → String → Bool
equals none t = false
equals (some s) t = s == t

unfoldable pub pkce_input : PkcePolicy → Option String → Option String → Result PkceInput
pkce_input policy challenge method = do
  throw_if (not (is_some (truthy challenge)) && is_required policy)
      (bad_request_error "code_challenge is required")
  elim (truthy challenge) [
    | none ↦ ok (record { code_challenge = none; code_challenge_method = none })
    | some c ↦ do
      throw_if (not (matches_pkce c)) (bad_request_error "invalid code_challenge")
      throw_if (not (equals method "S256")) (bad_request_error "code_challenge_method must be S256")
      ok (record { code_challenge = some c; code_challenge_method = some s256 })
  ]

unfoldable pub pkce_verifier : Option String → Result String
pkce_verifier value = elim (truthy value) [
  | none ↦ err invalid_grant_error
  | some v ↦ if matches_pkce v then ok v else err invalid_grant_error
]

-- `isOidcNonce`
unfoldable pub is_oidc_nonce : String → Bool
is_oidc_nonce value = matches_class is_unreserved 8 256 value

unfoldable pub oidc_nonce : Option String → Result (Option String)
oidc_nonce none = ok none
oidc_nonce (some value) =
    if is_oidc_nonce value then ok (some value) else err (bad_request_error "invalid nonce")
