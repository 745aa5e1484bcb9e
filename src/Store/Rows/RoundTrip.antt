-- ===== src/Store/Rows/RoundTrip.antt =====
-- The round trip of auth/storage/store-codec.ts.
use encore_mcp_base.Base.{String, ◌≡◌, refl, Option, Result, ok}
use encore_mcp_base.Mcp.Json.{Json, object, Fields, no_fields, field}
use encore_mcp_base.Store.Records.{
  AuthorizationCodeRecord, RefreshTokenRecord, UpstreamAuthorizationStateRecord, McpSessionRecord,
  RateLimitRecord, OAuthStoreState,
}
use encore_mcp_base.Store.Rows.{row, compact}
use encore_mcp_base.Store.Rows.Disk.{
  rate_limit_from_disk, rate_limit_to_disk, authorization_code_from_disk,
  authorization_code_to_disk, refresh_token_from_disk, refresh_token_to_disk,
}
use encore_mcp_base.Store.Rows.File.{
  upstream_authorization_state_from_disk, upstream_authorization_state_to_disk,
  mcp_session_from_disk, mcp_session_to_disk, normalize_store, serialize_store,
}
use encore_mcp_base.Store.Rows.Again.{
  IsStorableCode, IsStorableToken, rate_limit_again, code_again, token_again,
}
use encore_mcp_base.Store.Rows.Whole.{
  IsStorableMap, map_again, IsStorableState, state_list, state_read, IsStorableSession,
  session_list, session_read,
}

abbrev pub IsAnyLimit : RateLimitRecord → Type 0
IsAnyLimit r = Unit {0}

module _ (parse_json : String → Option Json) (stringify : Json → String) where
  code_row :
      (r : AuthorizationCodeRecord)
      → IsStorableCode parse_json stringify r
      → (f : Fields) × (authorization_code_to_disk parse_json stringify r ≡ ok f)
        × (authorization_code_from_disk parse_json stringify (object f) ≡ ok r)
  code_row r h = code_again parse_json stringify r h

  token_row :
      (r : RefreshTokenRecord)
      → IsStorableToken parse_json stringify r
      → (f : Fields) × (refresh_token_to_disk parse_json stringify r ≡ ok f)
        × (refresh_token_from_disk parse_json stringify (object f) ≡ ok r)
  token_row r h = token_again parse_json stringify r h

  abbrev pub write_state : UpstreamAuthorizationStateRecord → Result Fields
  write_state r = ok (upstream_authorization_state_to_disk parse_json stringify r)

  state_row :
      (r : UpstreamAuthorizationStateRecord)
      → IsStorableState parse_json stringify r
      → (f : Fields) × (write_state r ≡ ok f)
        × (upstream_authorization_state_from_disk parse_json stringify (object f) ≡ ok r)
  state_row r h =
      (compact (state_list parse_json stringify r), refl, state_read parse_json stringify r h)

  abbrev pub write_session : McpSessionRecord → Result Fields
  write_session r = ok (mcp_session_to_disk parse_json stringify r)

  session_row :
      (r : McpSessionRecord)
      → IsStorableSession parse_json stringify r
      → (f : Fields) × (write_session r ≡ ok f)
        × (mcp_session_from_disk parse_json stringify (object f) ≡ ok r)
  session_row r h =
      (compact (session_list parse_json stringify r), refl, session_read parse_json stringify r h)

  abbrev pub write_limit : RateLimitRecord → Result Fields
  write_limit r = ok (rate_limit_to_disk r)

  limit_row :
      (r : RateLimitRecord)
      → IsAnyLimit r
      → (f : Fields) × (write_limit r ≡ ok f) × (rate_limit_from_disk (object f) ≡ ok r)
  limit_row r h = (rate_limit_to_disk r, refl, rate_limit_again r)

  -- Keys are hashes, texts are not blank, hashes, nonces and challenges have their shape, times come
  -- in order, users are valid, and JSON's texts inside of the rows are read back.
  pub record IsStorable (s : OAuthStoreState) : Type 0 where
    pub codes : IsStorableMap (IsStorableCode parse_json stringify) s.authorization_codes
    pub tokens : IsStorableMap (IsStorableToken parse_json stringify) s.refresh_tokens
    pub states :
        IsStorableMap (IsStorableState parse_json stringify) s.upstream_authorization_states
    pub sessions : IsStorableMap (IsStorableSession parse_json stringify) s.mcp_sessions
    pub limits : IsStorableMap IsAnyLimit s.rate_limits

  -- A store whose records have the shapes that the rows ask for is written without an error, and what
  -- was written is read back as the same store.
  pub normalize_store-serialize_store :
      (s : OAuthStoreState)
      → IsStorable s
      → (value : Json) × (serialize_store parse_json stringify s ≡ ok value)
        × (normalize_store parse_json stringify value ≡ ok s)
  unfolding serialize_store normalize_store row
  normalize_store-serialize_store s h =
      let (codes, wrote_codes, read_codes) =
        map_again (IsStorableCode parse_json stringify)
          (authorization_code_to_disk parse_json stringify)
          (authorization_code_from_disk parse_json stringify) code_row s.authorization_codes
          h.codes in
      let (tokens, wrote_tokens, read_tokens) =
        map_again (IsStorableToken parse_json stringify)
          (refresh_token_to_disk parse_json stringify)
          (refresh_token_from_disk parse_json stringify) token_row s.refresh_tokens h.tokens in
      let (states, wrote_states, read_states) =
        map_again (IsStorableState parse_json stringify) write_state
          (upstream_authorization_state_from_disk parse_json stringify) state_row
          s.upstream_authorization_states h.states in
      let (sessions, wrote_sessions, read_sessions) =
        map_again (IsStorableSession parse_json stringify) write_session
          (mcp_session_from_disk parse_json stringify) session_row s.mcp_sessions h.sessions in
      let (limits, wrote_limits, read_limits) =
        map_again IsAnyLimit write_limit rate_limit_from_disk limit_row s.rate_limits h.limits in
      (
        object (
            field "authorizationCodes" (object codes) (
              field "refreshTokens" (object tokens) (
                field "upstreamAuthorizationStates" (object states) (
                  field "mcpSessions" (object sessions)
                    (field "rateLimits" (object limits) no_fields))))),
        rw (wrote_codes, wrote_tokens, wrote_states, wrote_sessions, wrote_limits) refl,
        rw (read_codes, read_tokens, read_states, read_sessions, read_limits) refl,
      )
