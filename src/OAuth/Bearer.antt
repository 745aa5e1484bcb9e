-- ===== src/OAuth/Bearer.antt =====
-- auth/bearer.ts and the verifying half of auth/tokens/access-token.ts. The payload of a token whose
-- key is known and whose signature holds is the parameter `payload_of` (`jwtKid`, the lookup of the
-- key, `verifyJwt`), which throws as those do. The reason of a failure is not modelled.
pub mod Verified
pub mod Words
pub mod Read
use Prim.Native.Char.{Char, code}
use Prim.Native.String
use encore_mcp_base.Base.{
  ℕ, String, Bool, true, false, not, ◌&&◌, ◌||◌, Option, none, some, List, [], ◌∷◌, Result, ok, err,
  ◌>>=◌, ◌>>◌, throw_if, or_throw, Thrown, service, protocol, challenge, other, ServiceError,
  service_error, unauthorized, forbidden, pos, leb, ltb, nat_eq, keep, all, is_some, truthy, codes,
  or_else, ◌==◌, if◌then◌else◌,
}
use encore_mcp_base.Base.Split.{split, onto_first}
use encore_mcp_base.Mcp.Json.{Json, string, boolean, number, safe_integer, Fields, get_field}
use encore_mcp_base.OAuth.Header.{is_white, trim, authorization_credentials}
use encore_mcp_base.OAuth.Scopes.{is_scope_char, has_scopes}

-- `accessTokenError(reason)` and `accessTokenError(reason, 403)`
abbrev pub invalid_token_error : Thrown
invalid_token_error = service_error unauthorized "invalid token" 401

abbrev pub insufficient_scope_error : Thrown
insufficient_scope_error = service_error forbidden "insufficient scope" 403

unfoldable pub read_bearer : Option String → Result String
read_bearer header = do
  given ← or_throw (truthy header) invalid_token_error
  or_throw (authorization_credentials (some given) "Bearer") invalid_token_error

-- `s.split(/\s+/)`, with the empty parts that the filter drops
abbrev pub split_white : String → List String
split_white String.[] = String.[] ∷ []
split_white (String.◌∷◌ c s) =
    let parts = split_white s in if is_white (code c) then String.[] ∷ parts else onto_first c parts

-- `s.split(/\s+/).filter(Boolean)`
unfoldable pub words : String → List String
unfolding is_white
words s = keep (λ w. is_some (truthy (some w))) (split_white s)

-- `nonEmptyString`
abbrev pub non_empty_string : Option Json → Bool
non_empty_string (some (string s)) = trim s == s && is_some (truthy (some s))
non_empty_string value = false

abbrev is_scope_text : String → Bool
is_scope_text s = is_some (truthy (some s)) && all is_scope_char (codes s)

unfoldable pub valid_scope_string : Option Json → Bool
valid_scope_string (some (string s)) = trim s == s && all is_scope_text (split b' ' s)
valid_scope_string value = false

-- `isNumericDate`: the date
abbrev pub numeric_date : Option Json → Option ℕ
numeric_date (some (number (safe_integer (pos n)))) = some n
numeric_date value = none

abbrev is_boolean : Option Json → Bool
is_boolean (some (boolean b)) = true
is_boolean value = false

abbrev pub text_of : Option Json → String
text_of (some (string s)) = s
text_of value = ""

-- The claims that `verifyAccessToken` reads, with the payload that it returns.
pub record VerifiedClaims : Type 0 where
  pub payload : Fields
  pub iss : String
  pub aud : String
  pub scope : String
  pub exp : ℕ
  pub iat : ℕ
  pub nbf : ℕ

abbrev pub required_claims : List String
required_claims =
    "iss" ∷ "sub" ∷ "aud" ∷ "jti" ∷ "client_id" ∷ "scope" ∷ "name" ∷ "given_name" ∷ "family_name"
    ∷ "preferred_username" ∷ "email" ∷ []

unfoldable pub access_claims : Fields → Result VerifiedClaims
access_claims payload = do
  throw_if (not (all (λ key. non_empty_string (get_field key payload)) required_claims))
      invalid_token_error
  throw_if (not (valid_scope_string (get_field "scope" payload))) invalid_token_error
  throw_if (not (is_boolean (get_field "email_verified" payload))) invalid_token_error
  exp ← or_throw (numeric_date (get_field "exp" payload)) invalid_token_error
  iat ← or_throw (numeric_date (get_field "iat" payload)) invalid_token_error
  nbf ← or_throw (numeric_date (get_field "nbf" payload)) invalid_token_error
  ok (record {
    payload = payload;
    iss = text_of (get_field "iss" payload);
    aud = text_of (get_field "aud" payload);
    scope = text_of (get_field "scope" payload);
    exp = exp;
    iat = iat;
    nbf = nbf;
  })

-- The checks of the claims against the service, the audience, the time and the scopes.
unfoldable pub check_claims : String → String → List String → ℕ → VerifiedClaims → Result (Unit {0})
check_claims issuer audience required_scopes now claims = do
  throw_if (not (claims.iss == issuer)) invalid_token_error
  throw_if (not (claims.aud == audience)) invalid_token_error
  throw_if (leb claims.exp now) invalid_token_error
  throw_if (ltb now claims.nbf) invalid_token_error
  throw_if (ltb now claims.iat) invalid_token_error
  throw_if (not (has_scopes (words claims.scope) required_scopes)) insufficient_scope_error

abbrev first_error : Option Thrown → Thrown → Option Thrown
first_error (some e) later = some e
first_error none later = some later

abbrev status_of : Thrown → Option ℕ
status_of (service e) = some e.status
status_of (challenge scopes e) = some e.status
status_of e = none

-- The `catch` of the loop over the audiences keeps the last error with status 403 and the first with
-- status 401, and throws any other again.
unfoldable pub note_error :
    Option Thrown → Option Thrown → Thrown → Result (Option Thrown × Option Thrown)
note_error scope_error token_error e = elim (status_of e) [
  | none ↦ err e
  | some status ↦
      if nat_eq status 403
      then ok (some e, token_error)
      else if nat_eq status 401
      then ok (scope_error, first_error token_error e)
      else err e
]

-- What is thrown behind the loop.
abbrev after_loop : Option Thrown → Option Thrown → Thrown
after_loop (some scope_error) token_error = scope_error
after_loop none token_error = or_else token_error invalid_token_error

module _ (payload_of : String → Result Fields) (issuer : String) where
  unfoldable pub verify_access_token : String → String → List String → ℕ → Result VerifiedClaims
  verify_access_token token audience required_scopes now = do
    payload ← payload_of token
    claims ← access_claims payload
    check_claims issuer audience required_scopes now claims
    ok claims

  unfoldable pub verify_bearer : Option String → String → List String → ℕ → Result VerifiedClaims
  verify_bearer header audience scopes now = do
    token ← read_bearer header
    verify_access_token token audience scopes now

  unfoldable pub try_audiences :
      String → List String → ℕ → Option Thrown → Option Thrown → List String → Result VerifiedClaims
  try_audiences token scopes now scope_error token_error [] =
      err (after_loop scope_error token_error)
  try_audiences token scopes now scope_error token_error (audience ∷ audiences) =
      elim (verify_access_token token audience scopes now) [
        | ok claims ↦ ok claims
        | err e ↦ elim (note_error scope_error token_error e) [
          | err other_error ↦ err other_error
          | ok (scope_error', token_error') ↦
              try_audiences token scopes now scope_error' token_error' audiences
        ]
      ]

  unfoldable pub verify_bearer_any_audience :
      Option String → List String → List String → ℕ → Result VerifiedClaims
  verify_bearer_any_audience header audiences scopes now = do
    token ← read_bearer header
    try_audiences token scopes now none none audiences
