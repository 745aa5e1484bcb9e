-- ===== src/Mcp/SessionStore.antt =====
-- mcp/session-store.ts, request-id.ts and protocol-version.ts: the MCP sessions as the transport
-- uses them, by their identifier and not by its hash.
use Prim.Native.String
use encore_mcp_base.Base.{
  ℕ, ◌+◌, String, Bool, true, false, Option, none, some, [], ℤ, Result, ok, err, ◌>>◌, Thrown,
  protocol, minus, bad_request_error, ◌==◌, truthy, if◌then◌else◌,
}
use encore_mcp_base.Mcp.Json.{integer_text}
use encore_mcp_base.Store.Records.{McpSessionRecord, OAuthStoreState, Operation}
use encore_mcp_base.Store.Sessions.{save_mcp_session}
use encore_mcp_base.Store.Sessions as Sessions

-- A JSON-RPC id: a text, or a number, which is a safe integer.
pub data JsonRpcId : Type 0 where
  text_id : String → JsonRpcId
  number_id : ℤ → JsonRpcId

-- `${typeof id}:${String(id)}`
unfoldable pub id_text : JsonRpcId → String
id_text (text_id s) = String.◌++◌ "string:" s
id_text (number_id n) = String.◌++◌ "number:" (integer_text n)

abbrev pub supported_protocol_version : String
supported_protocol_version = "2025-11-25"

unfoldable pub negotiate_protocol_version : Option String → Result String
negotiate_protocol_version version = elim (truthy version) [
  | none ↦ ok supported_protocol_version
  | some v ↦
      if v == supported_protocol_version
      then ok supported_protocol_version
      else err (bad_request_error "unsupported protocol version")
]

abbrev pub duplicate_request_id_error : Thrown
duplicate_request_id_error = protocol (minus 32600) "duplicate json-rpc request id"

module _ (sha : String → String) where
  unfoldable pub mcp_session_record : String → String → String → ℕ → McpSessionRecord
  mcp_session_record protocol_version client_id session_id now = record {
    session_id_hash = sha session_id;
    client_id = client_id;
    protocol_version = protocol_version;
    created_at = now;
    last_seen_at = now;
    expires_at = now + 3600;
    request_id_hashes = [];
    initialized_at = none;
    terminated_at = none;
  }

  unfoldable pub create_mcp_session : String → String → String → ℕ → Operation String
  unfolding mcp_session_record
  create_mcp_session protocol_version client_id session_id now s =
      let saved =
        save_mcp_session (mcp_session_record protocol_version client_id session_id now) s in
      (saved.0 >> ok session_id, saved.1)

  unfoldable pub touch_mcp_session : String → Option String → Bool → ℕ → Operation Bool
  touch_mcp_session session_id = Sessions.touch_mcp_session (sha session_id)

  unfoldable pub mcp_request_id_hash : JsonRpcId → String
  unfolding id_text
  mcp_request_id_hash id = sha (id_text id)

  abbrev refuse_duplicate : Result Bool × OAuthStoreState → Result (Unit {0}) × OAuthStoreState
  refuse_duplicate (ok true, s) = (ok tt, s)
  refuse_duplicate (ok false, s) = (err duplicate_request_id_error, s)
  refuse_duplicate (err e, s) = (err e, s)

  unfoldable pub reserve_mcp_request_id : String → JsonRpcId → ℕ → Operation (Unit {0})
  reserve_mcp_request_id session_id id now s =
      refuse_duplicate
        (Sessions.reserve_mcp_request_id (sha session_id) (mcp_request_id_hash id) now s)

  unfoldable pub terminate_mcp_session : String → ℕ → Operation (Unit {0})
  terminate_mcp_session session_id = Sessions.terminate_mcp_session (sha session_id)
