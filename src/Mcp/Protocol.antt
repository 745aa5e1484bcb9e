-- ===== src/Mcp/Protocol.antt =====
-- mcp/protocol.ts: one JSON-RPC message, from the parsed JSON to the answer.
pub mod Answers
pub mod Once
use Prim.Native.String
use encore_mcp_base.Base.{
  ℕ, String, Bool, true, false, not, ◌&&◌, ◌||◌, Option, none, some, List, [], ◌∷◌, Result, ok, err,
  ◌>>=◌, ◌>>◌, throw_if, or_throw, Thrown, service, protocol, challenge, other, ServiceError, ℤ,
  minus, any, contains, is_some, truthy, ◌==◌, if◌then◌else◌,
}
use text.Mathlib.Text.{starts_with}
use encore_mcp_base.Store.Records.{OAuthStoreState, Operation}
use encore_mcp_base.Mcp.Json.{
  Json, number, string, object, safe_integer, Fields, no_fields, get_field, names, as_object,
}
use encore_mcp_base.Mcp.JsonRpc.{
  JsonRpcRequest, is_json_rpc_response, parse_json_rpc, json_rpc_success, json_rpc_error,
}
use encore_mcp_base.Mcp.SessionStore.{JsonRpcId}
use encore_mcp_base.Mcp.Methods.{
  McpResult, plain, Handlers, handle_notification, ping, call_tool, read_resource,
}

abbrev pub allowed_before_initialized : List String
allowed_before_initialized = "initialize" ∷ "ping" ∷ "notifications/initialized" ∷ []

-- `context.sessionInitialized === false`, for a method that has to wait
abbrev pub must_wait : Option Bool → String → Bool
must_wait (some false) method = not (contains allowed_before_initialized method)
must_wait (some true) method = false
must_wait none method = false

-- `await context.reserveRequestId?.(request.id)`
abbrev pub reserve_id :
    Option (JsonRpcId → Operation (Unit {0})) → Option JsonRpcId → Operation (Unit {0})
reserve_id none id s = (ok tt, s)
reserve_id (some reserve) none s = (ok tt, s)
reserve_id (some reserve) (some id) s = reserve id s

-- The first `try`: what is not a request, if it is not.
unfoldable pub read_message : Json → Result (Option JsonRpcRequest)
read_message input = do
  response ← is_json_rpc_response input
  if response
      then ok none
      else elim (parse_json_rpc input) [ ok request ↦ ok (some request) | err e ↦ err e ]

module _ (handlers : Handlers) where
  unfoldable pub dispatch : JsonRpcRequest → Result Json
  dispatch request =
      if request.method == "initialize"
      then handlers.initialize_result request.params
      else if request.method == "ping"
      then ping handlers request.params
      else if request.method == "tools/list"
      then handlers.list_tools request.params
      else if request.method == "tools/call"
      then call_tool handlers request.params
      else if request.method == "resources/list"
      then handlers.list_resources request.params
      else if request.method == "resources/templates/list"
      then handlers.list_resource_templates request.params
      else if request.method == "resources/read"
      then read_resource handlers request.params
      else err (protocol (minus 32601) "method not found")

  -- `...(request.method === "initialize" ? { clientId: ... } : {})`
  abbrev pub client_id_of : JsonRpcRequest → Result (Option String)
  client_id_of request =
      if request.method == "initialize"
      then elim (handlers.initialize_client_id request.params) [
        | ok id ↦ ok (some id)
        | err e ↦ err e
      ]
      else ok none

  -- A request with an identifier, dispatched.
  unfoldable pub answer_request : JsonRpcRequest → JsonRpcId → Result McpResult
  answer_request request id = do
    result ← dispatch request
    client_id ← client_id_of request
    ok (record {
      status = 200;
      body = some (json_rpc_success id result);
      initialized = request.method == "initialize";
      client_id = client_id;
      www_authenticate = handlers.extract_www_authenticate result;
    })

  -- The second `try` behind the reservation of the identifier.
  unfoldable pub answer : Option Bool → JsonRpcRequest → Result McpResult
  answer session_initialized request =
      if must_wait session_initialized request.method
      then ok (
          plain (if is_some request.id then 200 else 400)
            (some (json_rpc_error request.id (minus 32002) "session is not initialized")))
      else elim request.id [
        | none ↦ handle_notification handlers request
        | some id ↦ answer_request request id
      ]

  -- Its `catch`.
  unfoldable pub recover : Option JsonRpcId → Thrown → McpResult
  recover id (protocol code message) = plain 200 (some (json_rpc_error id code message))
  recover id (challenge scopes error) = record {
    status = 200;
    body = some (json_rpc_error id (minus 32000) error.message);
    initialized = false;
    client_id = none;
    www_authenticate = some (handlers.www_authenticate scopes error ∷ []);
  }
  recover id (service error) =
      plain error.status (some (json_rpc_error id (minus 32000) error.message))
  recover id (other message) = plain 500 (some (json_rpc_error id (minus 32603) "internal error"))

  abbrev pub settled : Option JsonRpcId → Result McpResult → McpResult
  settled id (ok result) = result
  settled id (err e) = recover id e

  unfoldable pub handle_request :
      Option Bool
      → Option (JsonRpcId → Operation (Unit {0}))
      → JsonRpcRequest
      → OAuthStoreState
      → McpResult × OAuthStoreState
  handle_request session_initialized reserve request s =
      let (reserved, t) = reserve_id reserve request.id s in
      (
        elim reserved [
          | ok done ↦ settled request.id (answer session_initialized request)
          | err e ↦ recover request.id e
        ],
        t,
      )

  unfoldable pub handle_mcp_json :
      Option Bool
      → Option (JsonRpcId → Operation (Unit {0}))
      → Json
      → OAuthStoreState
      → Result McpResult × OAuthStoreState
  handle_mcp_json session_initialized reserve input s = elim (read_message input) [
    | ok none ↦ (ok (plain 202 none), s)
    | ok (some request) ↦
        let (result, t) = handle_request session_initialized reserve request s in (ok result, t)
    | err (service error) ↦
        (ok (plain error.status (some (json_rpc_error none (minus 32600) error.message))), s)
    | err (challenge scopes error) ↦
        (ok (plain error.status (some (json_rpc_error none (minus 32600) error.message))), s)
    | err e ↦ (err e, s)
  ]
