-- ===== src/Store/Rows/Whole.antt =====
-- The whole of the store's file is read back as the state that was written.
use encore_mcp_base.Base.{
  ◌≤◌, String, ◌≡◌, refl, arith, true, Option, some, List, [], ◌∷◌, Result, ok, All,
}
use encore_mcp_base.Base.Dict.{Dict}
use encore_mcp_base.Mcp.Json.{Json, string, array, object, Fields, no_fields, field, get_field}
use encore_mcp_base.Store.Records.{UpstreamAuthorizationStateRecord, McpSessionRecord}
use encore_mcp_base.Store.Rows.{
  matches_hash, has_text, texts_json, array_of, scopes_json, compact, string_field, number_of,
  number_field, method_field,
}
use encore_mcp_base.Store.Rows.Read.{
  value_at, get_field-compact, row-compact, IsNoneOr, text_read, hash_read, nonce_read,
  optional_hash_read, optional_nonce_read, seconds_read, ordered_read, optional_ordered_read,
  method_read, scopes_read, texts_of-array_of,
}
use encore_mcp_base.Store.Rows.Disk.{state_fields, session_fields}
use encore_mcp_base.Store.Rows.File.{
  normalize_entries, normalize_map, serialize_map, upstream_authorization_state_from_disk,
  ids_field, request_id_hashes, mcp_session_from_disk,
}
use encore_mcp_base.Store.Rows.Again.{IsHash, IsNonce, AreStorableScopes}

abbrev pub IsStorableMap : {T : Type 0} → (T → Type 0) → Dict T → Type 0
IsStorableMap P m = All (λ e. (matches_hash e.0 ≡ true) × P e.1) m

-- A map whose keys are hashes and whose rows are read back.
module _ {T : Type 0} (P : T → Type 0) (serialize : T → Result Fields) (normalize : Json → Result T)
    (again : (r : T)
      → P r
      → (f : Fields) × (serialize r ≡ ok f) × (normalize (object f) ≡ ok r)) where
  entries_again :
      (m : Dict T)
      → IsStorableMap P m
      → (f : Fields) × (serialize_map serialize m ≡ ok f) × (normalize_entries normalize f ≡ ok m)
  unfolding serialize_map normalize_entries
  entries_again [] h = (no_fields, refl, refl)
  entries_again ((key, r) ∷ m) h =
      let (f, written, read) = again r h.0.1 in
      let (rest, rest_written, rest_read) = entries_again m h.1 in
      (
        field key (object f) rest,
        rw (h.0.0, written, rest_written) refl,
        rw (h.0.0, read, rest_read) refl,
      )

  pub map_again :
      (m : Dict T)
      → IsStorableMap P m
      → (f : Fields) × (serialize_map serialize m ≡ ok f)
        × (normalize_map normalize (some (object f)) ≡ ok m)
  unfolding normalize_map
  map_again m h = entries_again m h

module _ (parse_json : String → Option Json) (stringify : Json → String) where
  pub record IsStorableState (r : UpstreamAuthorizationStateRecord) : Type 0 where
    pub hashed : IsHash r.state_hash
    pub client : has_text r.client_id ≡ true
    pub redirect : has_text r.redirect_uri ≡ true
    pub resource : has_text r.resource ≡ true
    pub scopes : AreStorableScopes parse_json stringify r.scopes
    pub client_state : has_text r.client_state ≡ true
    pub verifier : has_text r.code_verifier ≡ true
    pub upstream_nonce : IsNonce r.upstream_nonce
    pub nonce : IsNoneOr IsNonce r.nonce
    pub challenge : IsNoneOr IsHash r.code_challenge
    pub expiry : r.created_at ≤ r.expires_at

  abbrev pub state_list : UpstreamAuthorizationStateRecord → List (String × Option Json)
  state_list r =
      ("state_hash", some (string r.state_hash))
      ∷ ("client_id", some (string r.client_id))
      ∷ ("redirect_uri", some (string r.redirect_uri))
      ∷ ("resource", some (string r.resource))
      ∷ ("scopes_json", some (string (scopes_json stringify r.scopes)))
      ∷ ("client_state", some (string r.client_state))
      ∷ ("code_verifier", some (string r.code_verifier))
      ∷ ("upstream_nonce", some (string r.upstream_nonce))
      ∷ ("nonce", string_field r.nonce)
      ∷ ("code_challenge", string_field r.code_challenge)
      ∷ ("code_challenge_method", method_field r.code_challenge_method)
      ∷ ("expires_at", some (number_of r.expires_at))
      ∷ ("created_at", some (number_of r.created_at))
      ∷ []

  pub state_at :
      (r : UpstreamAuthorizationStateRecord) (key : String)
      → get_field key (compact (state_list r)) ≡ value_at key (state_list r)
  state_at r key = get_field-compact (state_list r) refl key

  pub state_read :
      (r : UpstreamAuthorizationStateRecord)
      → IsStorableState r
      → upstream_authorization_state_from_disk parse_json stringify
          (object (compact (state_list r)))
        ≡ ok r
  unfolding upstream_authorization_state_from_disk
  state_read r h =
      let f = compact (state_list r) in
      rw
        (
          row-compact state_fields (state_list r) refl,
          seconds_read f "created_at" r.created_at (state_at r "created_at"),
          hash_read f "state_hash" r.state_hash (state_at r "state_hash") h.hashed.0 h.hashed.1,
          text_read f "client_id" r.client_id (state_at r "client_id") h.client,
          text_read f "redirect_uri" r.redirect_uri (state_at r "redirect_uri") h.redirect,
          text_read f "resource" r.resource (state_at r "resource") h.resource,
          scopes_read parse_json stringify f r.scopes (state_at r "scopes_json")
              h.scopes.read_back.1 h.scopes.read_back.0 h.scopes.texts,
          text_read f "client_state" r.client_state (state_at r "client_state") h.client_state,
          text_read f "code_verifier" r.code_verifier (state_at r "code_verifier") h.verifier,
          nonce_read f "upstream_nonce" r.upstream_nonce (state_at r "upstream_nonce")
              h.upstream_nonce.0 h.upstream_nonce.1,
          optional_nonce_read f "nonce" r.nonce (state_at r "nonce") h.nonce,
          optional_hash_read f "code_challenge" r.code_challenge (state_at r "code_challenge")
              h.challenge,
          method_read f "code_challenge_method" r.code_challenge_method
              (state_at r "code_challenge_method"),
          ordered_read f "expires_at" r.expires_at r.created_at (state_at r "expires_at") h.expiry,
        )
        refl

  abbrev pub AreStorableIds : List String → Type 0
  AreStorableIds [] = Unit {0}
  AreStorableIds (id ∷ ids) =
      (parse_json (stringify (array (array_of (id ∷ ids)))) ≡ some (array (array_of (id ∷ ids))))
      × All (λ s. matches_hash s ≡ true) (id ∷ ids)

  pub record IsStorableSession (r : McpSessionRecord) : Type 0 where
    pub hashed : IsHash r.session_id_hash
    pub client : has_text r.client_id ≡ true
    pub version : has_text r.protocol_version ≡ true
    pub seen : r.created_at ≤ r.last_seen_at
    pub expiry : r.created_at ≤ r.expires_at
    pub ids : AreStorableIds r.request_id_hashes
    pub initialization : IsNoneOr (λ n. r.created_at ≤ n) r.initialized_at
    pub termination : IsNoneOr (λ n. r.created_at ≤ n) r.terminated_at

  ids_read :
      (f : Fields) (ids : List String)
      → get_field "request_id_hashes_json" f ≡ ids_field parse_json stringify ids
      → AreStorableIds ids
      → request_id_hashes parse_json stringify f ≡ ok ids
  unfolding request_id_hashes texts_json
  ids_read f [] there h = ground (arith, there)
  ids_read f (id ∷ ids) there h =
      ground (arith, there, h.0, texts_of-array_of matches_hash (id ∷ ids) h.1)

  abbrev pub session_list : McpSessionRecord → List (String × Option Json)
  session_list r =
      ("session_id_hash", some (string r.session_id_hash))
      ∷ ("client_id", some (string r.client_id))
      ∷ ("protocol_version", some (string r.protocol_version))
      ∷ ("created_at", some (number_of r.created_at))
      ∷ ("last_seen_at", some (number_of r.last_seen_at))
      ∷ ("expires_at", some (number_of r.expires_at))
      ∷ ("request_id_hashes_json", ids_field parse_json stringify r.request_id_hashes)
      ∷ ("initialized_at", number_field r.initialized_at)
      ∷ ("terminated_at", number_field r.terminated_at)
      ∷ []

  session_at :
      (r : McpSessionRecord) (key : String)
      → get_field key (compact (session_list r)) ≡ value_at key (session_list r)
  session_at r key = get_field-compact (session_list r) refl key

  pub session_read :
      (r : McpSessionRecord)
      → IsStorableSession r
      → mcp_session_from_disk parse_json stringify (object (compact (session_list r))) ≡ ok r
  unfolding mcp_session_from_disk
  session_read r h =
      let f = compact (session_list r) in
      rw
        (
          row-compact session_fields (session_list r) refl,
          seconds_read f "created_at" r.created_at (session_at r "created_at"),
          hash_read f "session_id_hash" r.session_id_hash (session_at r "session_id_hash")
              h.hashed.0 h.hashed.1,
          text_read f "client_id" r.client_id (session_at r "client_id") h.client,
          text_read f "protocol_version" r.protocol_version (session_at r "protocol_version")
              h.version,
          ordered_read f "last_seen_at" r.last_seen_at r.created_at (session_at r "last_seen_at")
              h.seen,
          ordered_read f "expires_at" r.expires_at r.created_at (session_at r "expires_at")
              h.expiry,
          ids_read f r.request_id_hashes (session_at r "request_id_hashes_json") h.ids,
          optional_ordered_read f "initialized_at" r.initialized_at r.created_at
              (session_at r "initialized_at") h.initialization,
          optional_ordered_read f "terminated_at" r.terminated_at r.created_at
              (session_at r "terminated_at") h.termination,
        )
        refl
