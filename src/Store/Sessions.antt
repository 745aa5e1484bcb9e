-- ===== src/Store/Sessions.antt =====
-- auth/storage/disk-store.ts: the MCP sessions.
pub mod Lasting
pub mod Lifecycle
use encore_mcp_base.Base.{
  ℕ, ◌+◌, String, Bool, true, false, not, ◌&&◌, ◌||◌, Option, none, some, List, [], ◌∷◌, ◌++◌,
  Result, ok, err, ◌>>=◌, ◌>>◌, throw_if, or_throw, service_error, not_found, rate_limited,
  bad_request_error, Thrown, truthy_number, is_some, leb, length, contains, ◌==◌, if◌then◌else◌,
}
use encore_mcp_base.Base.Dict.{lookup, set}
use encore_mcp_base.Store.Records.{McpSessionRecord, OAuthStoreState, Operation, update, is_expired}

abbrev pub max_mcp_request_ids : ℕ
max_mcp_request_ids = 4096

abbrev pub session_not_found_error : Thrown
session_not_found_error = service_error not_found "mcp session not found" 404

abbrev pub version_error : Thrown
version_error = bad_request_error "unsupported protocol version"

abbrev pub request_ids_error : Thrown
request_ids_error = service_error rate_limited "too many mcp request ids" 429

-- `record.terminatedAt || isExpired(record.expiresAt, now)`
abbrev pub is_closed : McpSessionRecord → ℕ → Bool
is_closed r now = truthy_number r.terminated_at || is_expired r.expires_at now

-- `protocolVersion !== undefined && record.protocolVersion !== protocolVersion`
abbrev other_version : Option String → McpSessionRecord → Bool
other_version none r = false
other_version (some version) r = not (r.protocol_version == version)

-- The session, if it is open.
unfoldable pub open_session : String → ℕ → OAuthStoreState → Result McpSessionRecord
open_session hash now s = do
  found ← or_throw (lookup hash s.mcp_sessions) session_not_found_error
  throw_if (is_closed found now) session_not_found_error
  ok found

abbrev pub put_session : String → McpSessionRecord → OAuthStoreState → OAuthStoreState
put_session hash r s = record s { mcp_sessions = set hash r s.mcp_sessions }

unfoldable pub save_mcp_session : McpSessionRecord → Operation (Unit {0})
save_mcp_session r = update λ s. ok (tt, put_session r.session_id_hash r s)

abbrev pub touched : Bool → ℕ → McpSessionRecord → McpSessionRecord
touched mark_initialized now r =
    if mark_initialized && not (truthy_number r.initialized_at)
    then record r { last_seen_at = now; initialized_at = some now }
    else record r { last_seen_at = now }

-- The result is the `initialized` of `{ initialized }`.
unfoldable pub touch_mcp_session : String → Option String → Bool → ℕ → Operation Bool
touch_mcp_session hash version mark_initialized now = update λ s. do
  found ← open_session hash now s
  throw_if (other_version version found) version_error
  ok (
    is_some (touched mark_initialized now found).initialized_at,
    put_session hash (touched mark_initialized now found) s,
  )

unfoldable pub reserve_mcp_request_id : String → String → ℕ → Operation Bool
reserve_mcp_request_id hash request_id_hash now = update λ s. do
  found ← open_session hash now s
  if contains found.request_id_hashes request_id_hash
      then ok (false, put_session hash (record found { last_seen_at = now }) s)
      else if leb max_mcp_request_ids (length found.request_id_hashes)
      then err request_ids_error
      else ok (
        true,
        put_session hash
            (record found {
              last_seen_at = now;
              request_id_hashes = found.request_id_hashes ++ request_id_hash ∷ [];
            })
            s,
      )

unfoldable pub terminate_mcp_session : String → ℕ → Operation (Unit {0})
terminate_mcp_session hash now = update λ s. do
  found ← open_session hash now s
  ok (tt, put_session hash (record found { terminated_at = some now; last_seen_at = now }) s)
