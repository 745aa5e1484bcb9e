-- ===== src/Store/Tests/Rows.antt =====
-- The rows of the store's file at a store with a code, a login, a session and a limit; the JSON of
-- its two inner texts is a table. And a user whose name, put together, is too long to be written.
use Prim.Native.String
use encore_mcp_base.Base.{
  String, ◌≡◌, refl, arith, true, Option, none, some, [], ◌∷◌, ok, err, codes, utf16_length, ltb,
  ◌==◌, if◌then◌else◌,
}
use encore_mcp_base.Mcp.Json.{
  Json, string, boolean, array, object, no_items, item, no_fields, field,
}
use encore_mcp_base.OAuth.Header.{is_white, trim}
use encore_mcp_base.OAuth.Pkce.{is_oidc_nonce}
use encore_mcp_base.Base.Split.{split}
use encore_mcp_base.Store.Records.{UserProfile, OAuthStoreState}
use encore_mcp_base.Store.Profile.{
  message, trimmed_claim, optional_profile_claim, required_profile_claim, matches_email,
  email_claim, boolean_claim, validate_user_profile, profile_value,
}
use encore_mcp_base.Store.Profile.Again.{validate_user_profile-again}
use encore_mcp_base.Store.Rows.{matches_hash, has_text}
use encore_mcp_base.Store.Rows.File.{normalize_store, serialize_store}
use encore_mcp_base.Store.Rows.RoundTrip.{IsStorable, normalize_store-serialize_store}
use encore_mcp_base.Store.Tests.{ann}
use encore_mcp_base.Store.Tests.Codes.{code_record}

rows : Unit {0}
unfolding is_white trim split is_oidc_nonce trimmed_claim optional_profile_claim
    required_profile_claim matches_email email_claim boolean_claim validate_user_profile
    matches_hash has_text
rows = tt

abbrev pub hash : String
hash = "abcdefghijklmnopqrstuvwxyzABCDEFGHIJKLMNOPQ"

abbrev pub parse_json : String → Option Json
parse_json s =
    if s == "[\"openid\"]"
    then some (array (item (string "openid") no_items))
    else some (profile_value ann)

abbrev pub stringify : Json → String
stringify (array items) = "[\"openid\"]"
stringify value = "{}"

abbrev stored : OAuthStoreState
stored = record {
  authorization_codes =
      (
        hash,
        record code_record { code_hash = hash; code_challenge = some hash; consumed_at = some 110 },
      )
      ∷ [];
  refresh_tokens = [];
  upstream_authorization_states =
      (
        hash,
        record {
          state_hash = hash;
          client_id = "gpt";
          redirect_uri = "https://chatgpt.com/cb";
          resource = "https://s.example/mcp";
          scopes = "openid" ∷ [];
          client_state = "s";
          code_verifier = hash;
          upstream_nonce = hash;
          nonce = none;
          code_challenge = none;
          code_challenge_method = none;
          expires_at = 160;
          created_at = 100;
        },
      )
      ∷ [];
  mcp_sessions =
      (
        hash,
        record {
          session_id_hash = hash;
          client_id = "gpt";
          protocol_version = "2025-11-25";
          created_at = 100;
          last_seen_at = 110;
          expires_at = 200;
          request_id_hashes = [];
          initialized_at = some 105;
          terminated_at = none;
        },
      )
      ∷ [];
  rate_limits =
      (hash, record { window_start = 60; previous_count = 1; current_count = 2; expires_at = 180 })
      ∷ [];
}

stored-IsStorable : IsStorable parse_json stringify stored
unfolding rows
stored-IsStorable = record {
  codes = (
    (
      refl,
      record {
        hashed = (refl, refl);
        client = refl;
        redirect = refl;
        resource = refl;
        scopes = record { texts = (refl, tt); read_back = (refl, refl) };
        nonce = tt;
        challenge = (refl, refl);
        user = record { valid = refl; read_back = (refl, refl) };
        expiry = omega arith;
        consumption = omega arith;
        login = omega arith;
      },
    ),
    tt,
  );
  tokens = tt;
  states = (
    (
      refl,
      record {
        hashed = (refl, refl);
        client = refl;
        redirect = refl;
        resource = refl;
        scopes = record { texts = (refl, tt); read_back = (refl, refl) };
        client_state = refl;
        verifier = refl;
        upstream_nonce = (refl, refl);
        nonce = tt;
        challenge = tt;
        expiry = omega arith;
      },
    ),
    tt,
  );
  sessions = (
    (
      refl,
      record {
        hashed = (refl, refl);
        client = refl;
        version = refl;
        seen = omega arith;
        expiry = omega arith;
        ids = tt;
        initialization = omega arith;
        termination = tt;
      },
    ),
    tt,
  );
  limits = ((refl, tt), tt);
}

normalize_store-serialize_store_example :
    (value : Json) × (serialize_store parse_json stringify stored ≡ ok value)
    × (normalize_store parse_json stringify value ≡ ok stored)
normalize_store-serialize_store_example =
    normalize_store-serialize_store parse_json stringify stored stored-IsStorable

abbrev x16 : String → String
x16 s = String.◌++◌ s (String.◌++◌ s (String.◌++◌ s s))

-- A given name and a family name of 160 characters each, and no name.
abbrev long : String
long = x16 (x16 "abcdefghij")

abbrev claims : Json
claims = object (
    field "sub" (string "u1") (
      field "given_name" (string long) (
        field "family_name" (string long) (
          field "email" (string "ann@example.com")
            (field "email_verified" (boolean true) no_fields)))))

abbrev nameless : UserProfile
nameless = record {
  sub = "u1";
  given_name = long;
  family_name = long;
  name = String.◌++◌ long (String.◌++◌ " " long);
  preferred_username = "ann@example.com";
  email = "ann@example.com";
  email_verified = true;
}

nameless_valid : validate_user_profile claims ≡ ok nameless
unfolding rows
nameless_valid = refl

validate_user_profile-again_example : validate_user_profile (profile_value nameless) ≡ (
    if ltb 256 (utf16_length (codes nameless.name))
    then err (message "name" " must be at most 256 characters")
    else ok nameless)
validate_user_profile-again_example = validate_user_profile-again claims nameless nameless_valid
