-- ===== src/Store/Tokens.antt =====
-- auth/storage/disk-store.ts: the refresh tokens. `sha` is `sha256Base64Url` of shared/crypto.ts;
-- random tokens and the time are arguments.
pub mod Rotate
pub mod Families
pub mod Once
use encore_mcp_base.Base.{
  ℕ, ◌+◌, String, Bool, true, false, not, ◌||◌, Option, none, some, List, Result, ok, err, ◌>>=◌,
  ◌>>◌, throw_if, or_throw, truthy_number, ◌==◌, if◌then◌else◌,
}
use encore_mcp_base.Base.Dict.{lookup, set, any_value, map_values}
use encore_mcp_base.Store.Codes.{differs, excludes}
use encore_mcp_base.Store.Records.{
  RefreshTokenRecord, RefreshTokenInput, OAuthStoreState, Operation, update, is_expired,
  invalid_grant_error,
}

module _ (sha : String → String) where
  unfoldable pub refresh_token_record : RefreshTokenInput → String → String → ℕ → RefreshTokenRecord
  refresh_token_record input token family now = record {
    token_hash = sha token;
    family_id = family;
    client_id = input.client_id;
    user = input.user;
    resource = input.resource;
    scopes = input.scopes;
    expires_at = now + input.ttl_seconds;
    auth_time = input.auth_time;
    rotated_from_hash = none;
    revoked_at = none;
    created_at = now;
    last_used_at = none;
  }

  unfoldable pub create_refresh_token : RefreshTokenInput → String → String → ℕ → Operation String
  unfolding refresh_token_record
  create_refresh_token input token family now = update λ s. ok (
    token,
    record s {
      refresh_tokens =
          set (sha token) (refresh_token_record input token family now) s.refresh_tokens;
    },
  )

-- `record.rotatedFromHash === hash`
abbrev pub is_rotated_from : String → RefreshTokenRecord → Bool
is_rotated_from hash r = elim r.rotated_from_hash [ none ↦ false | some h ↦ h == hash ]

-- One round of the loop that revokes a family.
abbrev pub revoke_in_family : String → ℕ → RefreshTokenRecord → RefreshTokenRecord
revoke_in_family family now r =
    if r.family_id == family then record r { revoked_at = some now } else r

-- `!oldRecord || oldRecord.revokedAt || isExpired(...)`, with the record known
abbrev pub is_dead : RefreshTokenRecord → ℕ → Bool
is_dead r now = truthy_number r.revoked_at || is_expired r.expires_at now

unfoldable pub check_refresh_token :
    RefreshTokenRecord → String → Option String → Option (List String) → ℕ → Result (Unit {0})
check_refresh_token found client_id expected_resource allowed_resources now = do
  throw_if (is_dead found now) invalid_grant_error
  throw_if (not (found.client_id == client_id)) invalid_grant_error
  throw_if (differs expected_resource found.resource) invalid_grant_error
  throw_if (excludes allowed_resources found.resource) invalid_grant_error

-- What the callback of `rotateRefreshToken` returns: `{ reused: true }`, or the record before and
-- the new token.
pub data Rotation : Type 0 where
  reused : Rotation
  rotated : RefreshTokenRecord → String → Rotation

abbrev pub mark_used : ℕ → RefreshTokenRecord → RefreshTokenRecord
mark_used now r = record r { last_used_at = some now }

module _ (sha : String → String) where
  unfoldable pub successor : RefreshTokenRecord → String → String → ℕ → ℕ → RefreshTokenRecord
  successor old old_hash new_token ttl_seconds now = record {
    token_hash = sha new_token;
    family_id = old.family_id;
    client_id = old.client_id;
    user = old.user;
    resource = old.resource;
    scopes = old.scopes;
    expires_at = now + ttl_seconds;
    auth_time = old.auth_time;
    rotated_from_hash = some old_hash;
    revoked_at = none;
    created_at = now;
    last_used_at = none;
  }

  -- The update's callback.
  unfoldable pub rotate :
      String
      → String
      → ℕ
      → Option String
      → Option (List String)
      → String
      → ℕ
      → OAuthStoreState
      → Result (Rotation × OAuthStoreState)
  unfolding successor
  rotate token client_id ttl_seconds expected_resource allowed_resources new_token now s = do
    let old_hash = sha token
    found ← or_throw (lookup old_hash s.refresh_tokens) invalid_grant_error
    check_refresh_token found client_id expected_resource allowed_resources now
    if any_value (is_rotated_from old_hash) s.refresh_tokens
        then ok (
          reused,
          record s {
            refresh_tokens = map_values (revoke_in_family found.family_id now) s.refresh_tokens;
          },
        )
        else ok (
          rotated (mark_used now found) new_token,
          record s {
            refresh_tokens =
                set (sha new_token) (successor found old_hash new_token ttl_seconds now)
                  (set old_hash (mark_used now found) s.refresh_tokens);
          },
        )

  -- A reuse is thrown after the revocation has been written.
  abbrev pub settle :
      Result Rotation × OAuthStoreState → Result (RefreshTokenRecord × String) × OAuthStoreState
  settle (ok reused, s) = (err invalid_grant_error, s)
  settle (ok (rotated old token), s) = (ok (old, token), s)
  settle (err e, s) = (err e, s)

  unfoldable pub rotate_refresh_token :
      String
      → String
      → ℕ
      → Option String
      → Option (List String)
      → String
      → ℕ
      → Operation (RefreshTokenRecord × String)
  rotate_refresh_token token client_id ttl_seconds expected_resource allowed_resources new_token now
        s =
      settle (
        update
          (rotate token client_id ttl_seconds expected_resource allowed_resources new_token now) s)
