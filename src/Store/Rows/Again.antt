-- ===== src/Store/Rows/Again.antt =====
-- Every kind of row is read back as the record that was written.
use encore_mcp_base.Base.{◌≤◌, String, ◌≡◌, refl, arith, true, Option, some, List, [], ◌∷◌, ok, All}
use encore_mcp_base.Mcp.Json.{Json, string, array, object, Fields, get_field}
use encore_mcp_base.Store.Records.{
  UserProfile, AuthorizationCodeRecord, RefreshTokenRecord, RateLimitRecord,
}
use encore_mcp_base.OAuth.Pkce.{is_oidc_nonce}
use encore_mcp_base.Store.Profile.{
  validate_user_profile, profile_value, user_profile_from_json, user_profile_json,
}
use encore_mcp_base.Store.Rows.{
  matches_hash, has_text, array_of, scopes_json, compact, string_field, number_of, number_field,
  method_field,
}
use encore_mcp_base.Store.Rows.Read.{
  value_at, get_field-compact, row-compact, IsNoneOr, text_read, hash_read, optional_hash_read,
  optional_nonce_read, seconds_read, ordered_read, optional_ordered_read, method_read,
  auth_time_read, scopes_read,
}
use encore_mcp_base.Store.Rows.Disk.{
  code_fields, token_fields, rate_limit_from_disk, rate_limit_to_disk, authorization_code_from_disk,
  authorization_code_to_disk, refresh_token_from_disk, refresh_token_to_disk,
}

abbrev pub IsHash : String → Type 0
IsHash s = (has_text s ≡ true) × (matches_hash s ≡ true)

abbrev pub IsNonce : String → Type 0
IsNonce s = (has_text s ≡ true) × (is_oidc_nonce s ≡ true)

abbrev limit_fields : List String
limit_fields = "window_start" ∷ "previous_count" ∷ "current_count" ∷ "expires_at" ∷ []

abbrev limit_list : RateLimitRecord → List (String × Option Json)
limit_list r =
    ("window_start", some (number_of r.window_start))
    ∷ ("previous_count", some (number_of r.previous_count))
    ∷ ("current_count", some (number_of r.current_count))
    ∷ ("expires_at", some (number_of r.expires_at))
    ∷ []

pub rate_limit_again :
    (r : RateLimitRecord) → rate_limit_from_disk (object (rate_limit_to_disk r)) ≡ ok r
unfolding rate_limit_from_disk
rate_limit_again r =
    rw
      (
        row-compact limit_fields (limit_list r) refl,
        seconds_read (compact (limit_list r)) "window_start" r.window_start refl,
        seconds_read (compact (limit_list r)) "previous_count" r.previous_count refl,
        seconds_read (compact (limit_list r)) "current_count" r.current_count refl,
        seconds_read (compact (limit_list r)) "expires_at" r.expires_at refl,
      )
      refl

module _ (parse_json : String → Option Json) (stringify : Json → String) where
  -- A value whose text is read back, and is not blank.
  abbrev pub IsReadBack : Json → Type 0
  IsReadBack value =
      (parse_json (stringify value) ≡ some value) × (has_text (stringify value) ≡ true)

  pub record IsStorableUser (u : UserProfile) : Type 0 where
    pub valid : validate_user_profile (profile_value u) ≡ ok u
    pub read_back : IsReadBack (profile_value u)

  pub record AreStorableScopes (ss : List String) : Type 0 where
    pub texts : All (λ s. has_text s ≡ true) ss
    pub read_back : IsReadBack (array (array_of ss))

  pub record IsStorableCode (r : AuthorizationCodeRecord) : Type 0 where
    pub hashed : IsHash r.code_hash
    pub client : has_text r.client_id ≡ true
    pub redirect : has_text r.redirect_uri ≡ true
    pub resource : has_text r.resource ≡ true
    pub scopes : AreStorableScopes r.scopes
    pub nonce : IsNoneOr IsNonce r.nonce
    pub challenge : IsNoneOr IsHash r.code_challenge
    pub user : IsStorableUser r.user
    pub expiry : r.created_at ≤ r.expires_at
    pub consumption : IsNoneOr (λ n. r.created_at ≤ n) r.consumed_at
    pub login : r.auth_time ≤ r.created_at

  user_written :
      (u : UserProfile)
      → IsStorableUser u
      → user_profile_json parse_json stringify u ≡ ok (stringify (profile_value u))
  unfolding user_profile_json
  user_written u h = rw h.valid refl

  user_read :
      (u : UserProfile)
      → IsStorableUser u
      → user_profile_from_json parse_json stringify (stringify (profile_value u)) ≡ ok u
  unfolding user_profile_from_json
  user_read u h = ground (arith, h.valid, h.read_back.0)

  abbrev code_list : AuthorizationCodeRecord → List (String × Option Json)
  code_list r =
      ("code_hash", some (string r.code_hash))
      ∷ ("client_id", some (string r.client_id))
      ∷ ("redirect_uri", some (string r.redirect_uri))
      ∷ ("resource", some (string r.resource))
      ∷ ("scopes_json", some (string (scopes_json stringify r.scopes)))
      ∷ ("nonce", string_field r.nonce)
      ∷ ("code_challenge", string_field r.code_challenge)
      ∷ ("code_challenge_method", method_field r.code_challenge_method)
      ∷ ("user_json", some (string (stringify (profile_value r.user))))
      ∷ ("expires_at", some (number_of r.expires_at))
      ∷ ("consumed_at", number_field r.consumed_at)
      ∷ ("auth_time", some (number_of r.auth_time))
      ∷ ("created_at", some (number_of r.created_at))
      ∷ []

  code_at :
      (r : AuthorizationCodeRecord) (key : String)
      → get_field key (compact (code_list r)) ≡ value_at key (code_list r)
  code_at r key = get_field-compact (code_list r) refl key

  code_read :
      (r : AuthorizationCodeRecord)
      → IsStorableCode r
      → authorization_code_from_disk parse_json stringify (object (compact (code_list r))) ≡ ok r
  unfolding authorization_code_from_disk
  code_read r h =
      let f = compact (code_list r) in
      rw
        (
          row-compact code_fields (code_list r) refl,
          seconds_read f "created_at" r.created_at (code_at r "created_at"),
          hash_read f "code_hash" r.code_hash (code_at r "code_hash") h.hashed.0 h.hashed.1,
          text_read f "client_id" r.client_id (code_at r "client_id") h.client,
          text_read f "redirect_uri" r.redirect_uri (code_at r "redirect_uri") h.redirect,
          text_read f "resource" r.resource (code_at r "resource") h.resource,
          scopes_read parse_json stringify f r.scopes (code_at r "scopes_json") h.scopes.read_back.1
              h.scopes.read_back.0 h.scopes.texts,
          optional_nonce_read f "nonce" r.nonce (code_at r "nonce") h.nonce,
          optional_hash_read f "code_challenge" r.code_challenge (code_at r "code_challenge")
              h.challenge,
          method_read f "code_challenge_method" r.code_challenge_method
              (code_at r "code_challenge_method"),
          text_read f "user_json" (stringify (profile_value r.user)) (code_at r "user_json")
              h.user.read_back.1,
          user_read r.user h.user,
          ordered_read f "expires_at" r.expires_at r.created_at (code_at r "expires_at") h.expiry,
          optional_ordered_read f "consumed_at" r.consumed_at r.created_at (code_at r "consumed_at")
              h.consumption,
          auth_time_read f r.auth_time r.created_at (code_at r "auth_time") h.login,
        )
        refl

  pub code_again :
      (r : AuthorizationCodeRecord)
      → IsStorableCode r
      → (f : Fields) × (authorization_code_to_disk parse_json stringify r ≡ ok f)
        × (authorization_code_from_disk parse_json stringify (object f) ≡ ok r)
  unfolding authorization_code_to_disk
  code_again r h = (compact (code_list r), rw (user_written r.user h.user) refl, code_read r h)

  pub record IsStorableToken (r : RefreshTokenRecord) : Type 0 where
    pub hashed : IsHash r.token_hash
    pub family : has_text r.family_id ≡ true
    pub client : has_text r.client_id ≡ true
    pub user : IsStorableUser r.user
    pub resource : has_text r.resource ≡ true
    pub scopes : AreStorableScopes r.scopes
    pub expiry : r.created_at ≤ r.expires_at
    pub login : r.auth_time ≤ r.created_at
    pub predecessor : IsNoneOr IsHash r.rotated_from_hash
    pub revocation : IsNoneOr (λ n. r.created_at ≤ n) r.revoked_at
    pub rotation : IsNoneOr (λ n. r.created_at ≤ n) r.last_used_at

  abbrev token_list : RefreshTokenRecord → List (String × Option Json)
  token_list r =
      ("token_hash", some (string r.token_hash))
      ∷ ("family_id", some (string r.family_id))
      ∷ ("client_id", some (string r.client_id))
      ∷ ("user_json", some (string (stringify (profile_value r.user))))
      ∷ ("resource", some (string r.resource))
      ∷ ("scopes_json", some (string (scopes_json stringify r.scopes)))
      ∷ ("expires_at", some (number_of r.expires_at))
      ∷ ("auth_time", some (number_of r.auth_time))
      ∷ ("rotated_from_hash", string_field r.rotated_from_hash)
      ∷ ("revoked_at", number_field r.revoked_at)
      ∷ ("created_at", some (number_of r.created_at))
      ∷ ("last_used_at", number_field r.last_used_at)
      ∷ []

  token_at :
      (r : RefreshTokenRecord) (key : String)
      → get_field key (compact (token_list r)) ≡ value_at key (token_list r)
  token_at r key = get_field-compact (token_list r) refl key

  token_read :
      (r : RefreshTokenRecord)
      → IsStorableToken r
      → refresh_token_from_disk parse_json stringify (object (compact (token_list r))) ≡ ok r
  unfolding refresh_token_from_disk
  token_read r h =
      let f = compact (token_list r) in
      rw
        (
          row-compact token_fields (token_list r) refl,
          seconds_read f "created_at" r.created_at (token_at r "created_at"),
          hash_read f "token_hash" r.token_hash (token_at r "token_hash") h.hashed.0 h.hashed.1,
          text_read f "family_id" r.family_id (token_at r "family_id") h.family,
          text_read f "client_id" r.client_id (token_at r "client_id") h.client,
          text_read f "user_json" (stringify (profile_value r.user)) (token_at r "user_json")
              h.user.read_back.1,
          user_read r.user h.user,
          text_read f "resource" r.resource (token_at r "resource") h.resource,
          scopes_read parse_json stringify f r.scopes (token_at r "scopes_json")
              h.scopes.read_back.1 h.scopes.read_back.0 h.scopes.texts,
          ordered_read f "expires_at" r.expires_at r.created_at (token_at r "expires_at") h.expiry,
          auth_time_read f r.auth_time r.created_at (token_at r "auth_time") h.login,
          optional_hash_read f "rotated_from_hash" r.rotated_from_hash
              (token_at r "rotated_from_hash") h.predecessor,
          optional_ordered_read f "revoked_at" r.revoked_at r.created_at (token_at r "revoked_at")
              h.revocation,
          optional_ordered_read f "last_used_at" r.last_used_at r.created_at
              (token_at r "last_used_at") h.rotation,
        )
        refl

  pub token_again :
      (r : RefreshTokenRecord)
      → IsStorableToken r
      → (f : Fields) × (refresh_token_to_disk parse_json stringify r ≡ ok f)
        × (refresh_token_from_disk parse_json stringify (object f) ≡ ok r)
  unfolding refresh_token_to_disk
  token_again r h = (compact (token_list r), rw (user_written r.user h.user) refl, token_read r h)
