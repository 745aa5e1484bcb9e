-- ===== src/Store/Rows/Disk.antt =====
-- authorization-code-row.ts, refresh-token-row.ts, upstream-authorization-state-row.ts,
-- mcp-session-row.ts, rate-limit-row.ts and store-codec.ts of auth/storage: the rows of the file,
-- and the whole file.
use encore_mcp_base.Base.{String, Option, some, List, [], ◌∷◌, Result, ok, ◌>>=◌}
use encore_mcp_base.Mcp.Json.{Json, string, Fields}
use encore_mcp_base.Store.Records.{AuthorizationCodeRecord, RefreshTokenRecord, RateLimitRecord}
use encore_mcp_base.Store.Profile.{user_profile_from_json, user_profile_json}
use encore_mcp_base.Store.Rows.{
  row, text, hash, optional_hash, optional_nonce, seconds, auth_time, ordered_seconds,
  optional_ordered_seconds, method_s256, scopes, scopes_json, compact, string_field, number_of,
  number_field, method_field,
}

abbrev pub code_fields : List String
code_fields =
    "code_hash" ∷ "client_id" ∷ "redirect_uri" ∷ "resource" ∷ "scopes_json" ∷ "nonce"
    ∷ "code_challenge" ∷ "code_challenge_method" ∷ "user_json" ∷ "expires_at" ∷ "consumed_at"
    ∷ "auth_time" ∷ "created_at" ∷ []

abbrev pub token_fields : List String
token_fields =
    "token_hash" ∷ "family_id" ∷ "client_id" ∷ "user_json" ∷ "resource" ∷ "scopes_json"
    ∷ "expires_at" ∷ "auth_time" ∷ "rotated_from_hash" ∷ "revoked_at" ∷ "created_at"
    ∷ "last_used_at" ∷ []

abbrev pub state_fields : List String
state_fields =
    "state_hash" ∷ "client_id" ∷ "redirect_uri" ∷ "resource" ∷ "scopes_json" ∷ "client_state"
    ∷ "code_verifier" ∷ "upstream_nonce" ∷ "nonce" ∷ "code_challenge" ∷ "code_challenge_method"
    ∷ "expires_at" ∷ "created_at" ∷ []

abbrev pub session_fields : List String
session_fields =
    "session_id_hash" ∷ "client_id" ∷ "protocol_version" ∷ "created_at" ∷ "last_seen_at"
    ∷ "expires_at" ∷ "request_id_hashes_json" ∷ "initialized_at" ∷ "terminated_at" ∷ []

unfoldable pub rate_limit_from_disk : Json → Result RateLimitRecord
rate_limit_from_disk value = do
  record_ ← row value ("window_start" ∷ "previous_count" ∷ "current_count" ∷ "expires_at" ∷ [])
  window_start ← seconds record_ "window_start"
  previous_count ← seconds record_ "previous_count"
  current_count ← seconds record_ "current_count"
  expires_at ← seconds record_ "expires_at"
  ok (record {
    window_start = window_start;
    previous_count = previous_count;
    current_count = current_count;
    expires_at = expires_at;
  })

abbrev pub rate_limit_to_disk : RateLimitRecord → Fields
rate_limit_to_disk r = compact (
    ("window_start", some (number_of r.window_start))
    ∷ ("previous_count", some (number_of r.previous_count))
    ∷ ("current_count", some (number_of r.current_count))
    ∷ ("expires_at", some (number_of r.expires_at))
    ∷ [])

module _ (parse_json : String → Option Json) (stringify : Json → String) where
  unfoldable pub authorization_code_from_disk : Json → Result AuthorizationCodeRecord
  authorization_code_from_disk value = do
    record_ ← row value code_fields
    created_at ← seconds record_ "created_at"
    code_hash ← hash record_ "code_hash"
    client_id ← text record_ "client_id"
    redirect_uri ← text record_ "redirect_uri"
    resource ← text record_ "resource"
    granted ← scopes parse_json record_
    nonce ← optional_nonce record_ "nonce"
    challenge ← optional_hash record_ "code_challenge"
    method ← method_s256 record_ "code_challenge_method"
    user_json ← text record_ "user_json"
    user ← user_profile_from_json parse_json stringify user_json
    expires_at ← ordered_seconds record_ "expires_at" created_at
    consumed_at ← optional_ordered_seconds record_ "consumed_at" created_at
    time ← auth_time record_ created_at
    ok (record {
      code_hash = code_hash;
      client_id = client_id;
      redirect_uri = redirect_uri;
      resource = resource;
      scopes = granted;
      nonce = nonce;
      code_challenge = challenge;
      code_challenge_method = method;
      user = user;
      expires_at = expires_at;
      consumed_at = consumed_at;
      auth_time = time;
      created_at = created_at;
    })

  unfoldable pub authorization_code_to_disk : AuthorizationCodeRecord → Result Fields
  authorization_code_to_disk r = do
    user_json ← user_profile_json parse_json stringify r.user
    ok (
        compact (
          ("code_hash", some (string r.code_hash))
          ∷ ("client_id", some (string r.client_id))
          ∷ ("redirect_uri", some (string r.redirect_uri))
          ∷ ("resource", some (string r.resource))
          ∷ ("scopes_json", some (string (scopes_json stringify r.scopes)))
          ∷ ("nonce", string_field r.nonce)
          ∷ ("code_challenge", string_field r.code_challenge)
          ∷ ("code_challenge_method", method_field r.code_challenge_method)
          ∷ ("user_json", some (string user_json))
          ∷ ("expires_at", some (number_of r.expires_at))
          ∷ ("consumed_at", number_field r.consumed_at)
          ∷ ("auth_time", some (number_of r.auth_time))
          ∷ ("created_at", some (number_of r.created_at))
          ∷ []))

  unfoldable pub refresh_token_from_disk : Json → Result RefreshTokenRecord
  refresh_token_from_disk value = do
    record_ ← row value token_fields
    created_at ← seconds record_ "created_at"
    token_hash ← hash record_ "token_hash"
    family_id ← text record_ "family_id"
    client_id ← text record_ "client_id"
    user_json ← text record_ "user_json"
    user ← user_profile_from_json parse_json stringify user_json
    resource ← text record_ "resource"
    granted ← scopes parse_json record_
    expires_at ← ordered_seconds record_ "expires_at" created_at
    time ← auth_time record_ created_at
    rotated_from_hash ← optional_hash record_ "rotated_from_hash"
    revoked_at ← optional_ordered_seconds record_ "revoked_at" created_at
    last_used_at ← optional_ordered_seconds record_ "last_used_at" created_at
    ok (record {
      token_hash = token_hash;
      family_id = family_id;
      client_id = client_id;
      user = user;
      resource = resource;
      scopes = granted;
      expires_at = expires_at;
      auth_time = time;
      rotated_from_hash = rotated_from_hash;
      revoked_at = revoked_at;
      created_at = created_at;
      last_used_at = last_used_at;
    })

  unfoldable pub refresh_token_to_disk : RefreshTokenRecord → Result Fields
  refresh_token_to_disk r = do
    user_json ← user_profile_json parse_json stringify r.user
    ok (
        compact (
          ("token_hash", some (string r.token_hash))
          ∷ ("family_id", some (string r.family_id))
          ∷ ("client_id", some (string r.client_id))
          ∷ ("user_json", some (string user_json))
          ∷ ("resource", some (string r.resource))
          ∷ ("scopes_json", some (string (scopes_json stringify r.scopes)))
          ∷ ("expires_at", some (number_of r.expires_at))
          ∷ ("auth_time", some (number_of r.auth_time))
          ∷ ("rotated_from_hash", string_field r.rotated_from_hash)
          ∷ ("revoked_at", number_field r.revoked_at)
          ∷ ("created_at", some (number_of r.created_at))
          ∷ ("last_used_at", number_field r.last_used_at)
          ∷ []))
