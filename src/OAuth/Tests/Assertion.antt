-- ===== src/OAuth/Tests/Assertion.antt =====
-- auth/client-assertion.ts at one client: its key set, an assertion, and a second use of it.
use encore_mcp_base.Base.{
  ℕ, String, ◌≡◌, ◌≢◌, refl, arith, Bool, true, ◌&&◌, Option, none, some, [], ◌∷◌, Result, ok, err,
  pos, ◌==◌, if◌then◌else◌,
}
use encore_mcp_base.Base.Split.{split, join}
use encore_mcp_base.Base.Dict.{lookup, set, keep_values}
use encore_mcp_base.Mcp.Json.{
  Json, string, number, safe_integer, array, object, Fields, no_fields, field, no_items, item,
}
use encore_mcp_base.OAuth.Pkce.{required}
use encore_mcp_base.OAuth.Clients.{OAuthClient, private_key_jwt, invalid_client_error}
use encore_mcp_base.OAuth.ExpiringCache.{
  prune_expired_cache_entries, read_expiring_cache, evict, write_expiring_cache,
}
use encore_mcp_base.OAuth.Jwt.{header_kid, jwt_parts, decode_json_base64_url, jwt_kid, verify_jwt}
use encore_mcp_base.OAuth.ClientAssertion.{
  safe_string, numeric_date, audience_matches, validate_issued_at, validate_not_before,
  reject_replay, check_assertion_claims, validate_assertion_claims,
}
use encore_mcp_base.OAuth.ClientAssertion.Keys.{
  AssertionState, strong_client_jwks_rsa_key, parse_jwk, parse_keys, parse_jwks, client_jwks,
  client_assertion_key, assert_private_key_jwt_client_assertion,
}
use encore_mcp_base.OAuth.ClientAssertion.Accepted.{
  IsAcceptable, check_assertion_claims-IsAcceptable,
}
use encore_mcp_base.OAuth.ClientAssertion.Once.{Use, present, present_all, accepted_once}

assertion : Unit {0}
unfolding split join lookup set keep_values prune_expired_cache_entries read_expiring_cache evict
    write_expiring_cache header_kid jwt_parts decode_json_base64_url jwt_kid verify_jwt safe_string
    numeric_date audience_matches validate_issued_at validate_not_before reject_replay
    check_assertion_claims validate_assertion_claims strong_client_jwks_rsa_key parse_jwk parse_keys
    parse_jwks client_jwks client_assertion_key assert_private_key_jwt_client_assertion present
    present_all
assertion = tt

abbrev client : OAuthClient
client = record {
  client_id = "c";
  client_secret_hash = none;
  display_name = "Client";
  redirect_uris = [];
  allowed_scopes = [];
  allowed_resources = [];
  token_endpoint_auth_method = private_key_jwt;
  jwks_uri = some "https://c/jwks";
  pkce_policy = required;
  client_class = "metadata";
}

abbrev header : Json
header = object (field "alg" (string "RS256") (field "kid" (string "k") no_fields))

abbrev claims : Fields
claims = field "iss" (string "c") (
    field "sub" (string "c") (
      field "aud" (string "https://i/oauth/token")
        (field "exp" (number (safe_integer (pos 200))) (field "jti" (string "j") no_fields))))

abbrev jwks : Json
jwks = object (
    field "keys"
      (array (
        item
          (object (
            field "kty" (string "RSA") (
              field "n" (string "n")
                (field "e" (string "e") (field "kid" (string "k") no_fields)))))
          no_items))
      no_fields)

abbrev create_public_key : String → String → Result ℕ
create_public_key n e = ok 2048

abbrev parse_json : String → Option Json
parse_json s = if s == "h" then some header else if s == "p" then some (object claims) else none

abbrev verify_signature : ℕ → String → String → Bool
verify_signature key input signature = input == "h.p" && signature == "s"

abbrev use_at : ℕ → Use
use_at now_ms = record {
  client = client;
  assertion = some "h.p.s";
  durable = ok none;
  fetched = ok (record { body = jwks; cache_seconds = 60 });
  now_ms = now_ms;
}

abbrev empty : AssertionState ℕ
empty = record { replay = []; jwks = [] }

abbrev shown : Use → AssertionState ℕ → Result (Unit {0}) × AssertionState ℕ
shown = present create_public_key (λ bits. some bits) parse_json verify_signature "https://i" true

first_use : (shown (use_at 100000) empty).0 ≡ ok tt
unfolding assertion
first_use = refl

-- Past the expiry and the skew the entry is forgotten, and the expiry refuses.
late_use :
    (shown (use_at 260000) (shown (use_at 100000) empty).1)
    ≡ (err invalid_client_error, (shown (use_at 260000) (shown (use_at 100000) empty).1).1)
unfolding assertion
late_use = refl

accepted_once_example :
    (shown (use_at 150000) (
      present_all create_public_key
        (λ bits. some bits)
        parse_json
        verify_signature
        "https://i"
        true
        (use_at 120000 ∷ [])
        (shown (use_at 100000) empty).1)).0
    ≢ ok tt
accepted_once_example =
    accepted_once create_public_key (λ bits. some bits) parse_json verify_signature "https://i" true
      (use_at 100000) (use_at 150000) (use_at 120000 ∷ []) empty (omega arith) refl refl first_use

check_assertion_claims-IsAcceptable_example : IsAcceptable "https://i" "c" claims 100 "j" (pos 200)
unfolding assertion
check_assertion_claims-IsAcceptable_example =
    check_assertion_claims-IsAcceptable "https://i" "c" claims 100 "j" (pos 200) refl
