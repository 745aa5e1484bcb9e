-- ===== src/OAuth/Tests/Bearer.antt =====
-- auth/bearer.ts at a concrete token.
use encore_mcp_base.Base.{String, ◌≡◌, refl, true, some, List, [], ◌∷◌, Result, ok, err, pos}
use encore_mcp_base.Mcp.Json.{string, boolean, number, safe_integer, Fields, no_fields, field}
use encore_mcp_base.OAuth.Header.{trim, is_white, same_scheme, credentials_behind}
use encore_mcp_base.OAuth.Scopes.{has_scopes}
use encore_mcp_base.OAuth.Bearer.{
  VerifiedClaims, insufficient_scope_error, read_bearer, words, valid_scope_string, access_claims,
  check_claims, verify_access_token, note_error, try_audiences, verify_bearer_any_audience,
}
use encore_mcp_base.OAuth.Bearer.Read.{IsBearer}
use encore_mcp_base.OAuth.Bearer.Verified.{EntitledToAny, verify_bearer_any_audience-EntitledToAny}
use encore_mcp_base.OAuth.Tests.{oauth}

bearer : Unit {0}
unfolding oauth trim is_white same_scheme credentials_behind has_scopes read_bearer words
    valid_scope_string access_claims check_claims verify_access_token note_error try_audiences
    verify_bearer_any_audience
bearer = tt

abbrev texts : List (String × String) → Fields → Fields
texts [] rest = rest
texts ((k, v) ∷ more) rest = field k (string v) (texts more rest)

abbrev payload : Fields
payload =
    texts
      (("iss", "https://s.example")
        ∷ ("sub", "u1")
        ∷ ("aud", "https://s.example/mcp")
        ∷ ("jti", "j")
        ∷ ("client_id", "gpt")
        ∷ ("scope", "openid email")
        ∷ ("name", "Ann Lee")
        ∷ ("given_name", "Ann")
        ∷ ("family_name", "Lee")
        ∷ ("preferred_username", "ann")
        ∷ ("email", "ann@example.com")
        ∷ [])
      (field "email_verified" (boolean true) (
        field "exp" (number (safe_integer (pos 400))) (
          field "iat" (number (safe_integer (pos 100)))
            (field "nbf" (number (safe_integer (pos 100))) no_fields))))

abbrev payload_of : String → Result Fields
payload_of token = ok payload

abbrev claims : VerifiedClaims
claims = record {
  payload = payload;
  iss = "https://s.example";
  aud = "https://s.example/mcp";
  scope = "openid email";
  exp = 400;
  iat = 100;
  nbf = 100;
}

abbrev audiences : List String
audiences = "https://s.example/actions" ∷ "https://s.example/mcp" ∷ []

bearer_tests :
    (verify_bearer_any_audience payload_of "https://s.example"
        (some "bearer  t")
        audiences
        ("email" ∷ [])
        399
      ≡ ok claims)
    × (verify_bearer_any_audience payload_of "https://s.example"
          (some "Bearer t")
          audiences
          ("profile" ∷ [])
          399
        ≡ err insufficient_scope_error)
unfolding bearer
bearer_tests = (refl, refl)

verify_bearer_any_audience-EntitledToAny_example :
    (token : String) × IsBearer (some "bearer  t") token
    × EntitledToAny payload_of "https://s.example" token audiences ("email" ∷ []) 399 claims
verify_bearer_any_audience-EntitledToAny_example =
    verify_bearer_any_audience-EntitledToAny payload_of "https://s.example" (some "bearer  t")
      audiences ("email" ∷ []) 399 claims bearer_tests.0
