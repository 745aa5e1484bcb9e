-- ===== src/Store/Rows/File.antt =====
-- upstream-authorization-state-row.ts, mcp-session-row.ts and store-codec.ts of auth/storage: the
-- other rows, and the whole of the store's file.
use encore_mcp_base.Base.{
  String, not, Option, none, some, List, [], ◌∷◌, Result, ok, err, ◌>>=◌, ◌>>◌, throw_if, or_throw,
}
use encore_mcp_base.Base.Dict.{Dict}
use encore_mcp_base.Mcp.Json.{
  Json, string, array, object, Fields, no_fields, field, get_field, as_object,
}
use encore_mcp_base.Store.Records.{
  UpstreamAuthorizationStateRecord, McpSessionRecord, OAuthStoreState,
}
use encore_mcp_base.Store.Rows.{
  malformed_error, matches_hash, row, text, hash, optional_hash, nonce_text, optional_nonce,
  seconds, ordered_seconds, optional_ordered_seconds, method_s256, texts_json, array_of, scopes,
  scopes_json, compact, string_field, number_of, number_field, method_field,
}
use encore_mcp_base.Store.Rows.Disk.{
  state_fields, session_fields, rate_limit_from_disk, rate_limit_to_disk,
  authorization_code_from_disk, authorization_code_to_disk, refresh_token_from_disk,
  refresh_token_to_disk,
}

abbrev store_fields : List String
store_fields =
    "authorizationCodes" ∷ "refreshTokens" ∷ "upstreamAuthorizationStates" ∷ "mcpSessions"
    ∷ "rateLimits" ∷ []

-- `mapKey`
abbrev pub map_key : String → Result String
map_key key = throw_if (not (matches_hash key)) malformed_error >> ok key

-- The entries of a map, each key checked and each value made into a record.
unfoldable pub normalize_entries : {T : Type 0} → (Json → Result T) → Fields → Result (Dict T)
normalize_entries normalize no_fields = ok []
normalize_entries normalize (field key value rest) =
    let more = normalize_entries normalize rest in
    map_key key >>= λ k. normalize value >>= λ r. more >>= λ rs. ok ((k, r) ∷ rs)

unfoldable pub normalize_map : {T : Type 0} → (Json → Result T) → Option Json → Result (Dict T)
normalize_map normalize none = ok []
normalize_map normalize (some value) = do
  entries ← or_throw (as_object value) malformed_error
  normalize_entries normalize entries

unfoldable pub serialize_map : {T : Type 0} → (T → Result Fields) → Dict T → Result Fields
serialize_map serialize [] = ok no_fields
serialize_map serialize ((key, r) ∷ rs) =
    let more = serialize_map serialize rs in
    map_key key >>= λ k. serialize r >>= λ value. more >>= λ rest. ok (field k (object value) rest)

module _ (parse_json : String → Option Json) (stringify : Json → String) where
  unfoldable pub upstream_authorization_state_from_disk :
      Json → Result UpstreamAuthorizationStateRecord
  upstream_authorization_state_from_disk value = do
    record_ ← row value state_fields
    created_at ← seconds record_ "created_at"
    state_hash ← hash record_ "state_hash"
    client_id ← text record_ "client_id"
    redirect_uri ← text record_ "redirect_uri"
    resource ← text record_ "resource"
    wanted ← scopes parse_json record_
    client_state ← text record_ "client_state"
    code_verifier ← text record_ "code_verifier"
    upstream_nonce ← nonce_text record_ "upstream_nonce"
    nonce ← optional_nonce record_ "nonce"
    challenge ← optional_hash record_ "code_challenge"
    method ← method_s256 record_ "code_challenge_method"
    expires_at ← ordered_seconds record_ "expires_at" created_at
    ok (record {
      state_hash = state_hash;
      client_id = client_id;
      redirect_uri = redirect_uri;
      resource = resource;
      scopes = wanted;
      client_state = client_state;
      code_verifier = code_verifier;
      upstream_nonce = upstream_nonce;
      nonce = nonce;
      code_challenge = challenge;
      code_challenge_method = method;
      expires_at = expires_at;
      created_at = created_at;
    })

  abbrev pub upstream_authorization_state_to_disk : UpstreamAuthorizationStateRecord → Fields
  upstream_authorization_state_to_disk r = compact (
      ("state_hash", some (string r.state_hash))
      ∷ ("client_id", some (string r.client_id))
      ∷ ("redirect_uri", some (string r.redirect_uri))
      ∷ ("resource", some (string r.resource))
      ∷ ("scopes_json", some (string (scopes_json stringify r.scopes)))
      ∷ ("client_state", some (string r.client_state))
      ∷ ("code_verifier", some (string r.code_verifier))
      ∷ ("upstream_nonce", some (string r.upstream_nonce))
      ∷ ("nonce", string_field r.nonce)
      ∷ ("code_challenge", string_field r.code_challenge)
      ∷ ("code_challenge_method", method_field r.code_challenge_method)
      ∷ ("expires_at", some (number_of r.expires_at))
      ∷ ("created_at", some (number_of r.created_at))
      ∷ [])

  unfoldable pub request_id_hashes : Fields → Result (List String)
  request_id_hashes record_ = elim (get_field "request_id_hashes_json" record_) [
    | none ↦ ok []
    | some (string s) ↦ texts_json parse_json matches_hash s
    | some value ↦ err malformed_error
  ]

  abbrev pub ids_field : List String → Option Json
  ids_field [] = none
  ids_field (id ∷ ids) = some (string (stringify (array (array_of (id ∷ ids)))))

  unfoldable pub mcp_session_from_disk : Json → Result McpSessionRecord
  mcp_session_from_disk value = do
    record_ ← row value session_fields
    created_at ← seconds record_ "created_at"
    session_id_hash ← hash record_ "session_id_hash"
    client_id ← text record_ "client_id"
    version ← text record_ "protocol_version"
    last_seen_at ← ordered_seconds record_ "last_seen_at" created_at
    expires_at ← ordered_seconds record_ "expires_at" created_at
    ids ← request_id_hashes record_
    initialized_at ← optional_ordered_seconds record_ "initialized_at" created_at
    terminated_at ← optional_ordered_seconds record_ "terminated_at" created_at
    ok (record {
      session_id_hash = session_id_hash;
      client_id = client_id;
      protocol_version = version;
      created_at = created_at;
      last_seen_at = last_seen_at;
      expires_at = expires_at;
      request_id_hashes = ids;
      initialized_at = initialized_at;
      terminated_at = terminated_at;
    })

  abbrev pub mcp_session_to_disk : McpSessionRecord → Fields
  mcp_session_to_disk r = compact (
      ("session_id_hash", some (string r.session_id_hash))
      ∷ ("client_id", some (string r.client_id))
      ∷ ("protocol_version", some (string r.protocol_version))
      ∷ ("created_at", some (number_of r.created_at))
      ∷ ("last_seen_at", some (number_of r.last_seen_at))
      ∷ ("expires_at", some (number_of r.expires_at))
      ∷ ("request_id_hashes_json", ids_field r.request_id_hashes)
      ∷ ("initialized_at", number_field r.initialized_at)
      ∷ ("terminated_at", number_field r.terminated_at)
      ∷ [])

  unfoldable pub normalize_store : Json → Result OAuthStoreState
  normalize_store value = do
    record_ ← row value store_fields
    codes ←
        normalize_map (authorization_code_from_disk parse_json stringify)
          (get_field "authorizationCodes" record_)
    tokens ←
        normalize_map (refresh_token_from_disk parse_json stringify)
          (get_field "refreshTokens" record_)
    states ←
        normalize_map upstream_authorization_state_from_disk
          (get_field "upstreamAuthorizationStates" record_)
    sessions ← normalize_map mcp_session_from_disk (get_field "mcpSessions" record_)
    limits ← normalize_map rate_limit_from_disk (get_field "rateLimits" record_)
    ok (record {
      authorization_codes = codes;
      refresh_tokens = tokens;
      upstream_authorization_states = states;
      mcp_sessions = sessions;
      rate_limits = limits;
    })

  unfoldable pub serialize_store : OAuthStoreState → Result Json
  serialize_store s = do
    codes ← serialize_map (authorization_code_to_disk parse_json stringify) s.authorization_codes
    tokens ← serialize_map (refresh_token_to_disk parse_json stringify) s.refresh_tokens
    states ←
        serialize_map (λ r. ok (upstream_authorization_state_to_disk r))
          s.upstream_authorization_states
    sessions ← serialize_map (λ r. ok (mcp_session_to_disk r)) s.mcp_sessions
    limits ← serialize_map (λ r. ok (rate_limit_to_disk r)) s.rate_limits
    ok (
        object (
          field "authorizationCodes" (object codes) (
            field "refreshTokens" (object tokens) (
              field "upstreamAuthorizationStates" (object states) (
                field "mcpSessions" (object sessions)
                  (field "rateLimits" (object limits) no_fields))))))
