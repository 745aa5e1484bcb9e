-- ===== src/Mcp/Tests.antt =====
-- Concrete messages to mcp/protocol.ts and calls of mcp/sse-connection-limit.ts, and the theorems at
-- inputs that meet their hypotheses.
pub mod Pages
pub mod Meta
pub mod Capabilities
use encore_mcp_base.Base.{
  minus, ℕ, true, false, ◌≡◌, refl, ◌⊎◌, none, some, List, [], ◌∷◌, ok, err, arith, minus, pos,
  protocol,
}
use encore_mcp_base.Store.Records.{OAuthStoreState, empty_store_state}
use encore_mcp_base.Store.History.{Call, run, hits}
use encore_mcp_base.Store.Tests.{store, sha}
use encore_mcp_base.Mcp.Json.{
  string, number, safe_integer, no_fields, field, as_record, required_string, optional_string,
  decimal, integer_text,
}
use encore_mcp_base.Mcp.JsonRpc.{
  JsonRpcRequest, is_json_rpc_response, parse_json_rpc, assert_only_keys, validate_json_rpc_id,
  json_rpc_error,
}
use encore_mcp_base.Mcp.JsonRpc.Parsed.{request_json, parse_json_rpc-request_json}
use encore_mcp_base.Mcp.SessionStore.{
  number_id, id_text, create_mcp_session, mcp_request_id_hash, reserve_mcp_request_id,
}
use encore_mcp_base.Mcp.Methods.{Handlers, plain, handle_notification}
use encore_mcp_base.Mcp.Protocol.{
  dispatch, answer_request, answer, recover, handle_request, read_message, handle_mcp_json,
}
use encore_mcp_base.Mcp.Protocol.Answers.{Responds, handle_request-Responds}
use encore_mcp_base.Mcp.Protocol.Once.{handled_once}
use encore_mcp_base.Mcp.SseConnections.{
  Connections, no_connections, Event, acquires, releases, acquire_sse_connection, release,
}
use encore_mcp_base.Mcp.SseConnections as Sse
use encore_mcp_base.Mcp.SseConnections.Bounded.{IsCounted, run-IsCounted}

mcp : Unit {0}
unfolding store as_record required_string optional_string decimal integer_text is_json_rpc_response
    parse_json_rpc assert_only_keys validate_json_rpc_id id_text mcp_request_id_hash
    reserve_mcp_request_id handle_notification dispatch answer_request answer recover handle_request
    read_message handle_mcp_json acquire_sse_connection release Sse.step Sse.run
mcp = tt

abbrev pub handlers : Handlers
handlers = record {
  initialize_result = λ params. ok (string "initialized");
  initialize_client_id = λ params. ok "client";
  list_tools = λ params. ok (string "tools");
  call_tool = λ name arguments. ok (string name);
  list_resources = λ params. ok (string "resources");
  list_resource_templates = λ params. ok (string "templates");
  read_resource = λ uri. err (protocol (minus 32002) "resource not found");
  is_resource_uri = λ value. none;
  request_meta_error = λ meta context. none;
  extract_www_authenticate = λ result. none;
  www_authenticate = λ scopes error. "Bearer";
  notification_meta_error = λ meta. none;
}

abbrev request : JsonRpcRequest
request = record { id = some (number_id (pos 7)); method = "tools/list"; params = none }

abbrev opened : OAuthStoreState
opened = (create_mcp_session sha "2025-11-25" "client" "session" 100 empty_store_state).1

abbrev reserved : OAuthStoreState
reserved = (reserve_mcp_request_id sha "session" (number_id (pos 7)) 101 opened).1

message_tests :
    ((handle_mcp_json handlers (some true) none (request_json request) empty_store_state).0
      ≡ ok
          (record (plain 200 (
            some (
              field "jsonrpc" (string "2.0") (
                field "id"
                  (number (safe_integer (pos 7)))
                  (field "result" (string "tools") no_fields))))) { initialized = false }))
    × (id_text (number_id (minus 1205)) ≡ "number:-1205")
    × (reserve_mcp_request_id sha "session" (number_id (pos 7)) 101 opened ≡ (ok tt, reserved))
unfolding mcp
message_tests = (refl, refl, refl)

parse_json_rpc-request_json_example :
    (is_json_rpc_response (request_json request) ≡ ok false)
    × (parse_json_rpc (request_json request) ≡ ok request)
parse_json_rpc-request_json_example = parse_json_rpc-request_json request refl

handle_request-Responds_example :
    Responds
      (number_id (pos 7))
      (handle_request handlers (some true) none request empty_store_state).0
handle_request-Responds_example =
    handle_request-Responds handlers (some true) none (number_id (pos 7)) "tools/list" none
      empty_store_state

abbrev calls : List (ℕ × Call)
calls = (102, hits "someone" (record { window_seconds = 60; max_requests = 5 })) ∷ []

handled_once_example :
    ((handle_request handlers
        (some true)
        (some (λ i. reserve_mcp_request_id sha "session" i 103))
        request
        (run sha reserved calls)).0
      ≡ plain 200 (
          some (
            json_rpc_error
              (some (number_id (pos 7)))
              (minus 32600)
              "duplicate json-rpc request id")))
    ⊎ ((handle_request handlers
          (some true)
          (some (λ i. reserve_mcp_request_id sha "session" i 103))
          request
          (run sha reserved calls)).0
        ≡ plain 404 (
            some (json_rpc_error (some (number_id (pos 7))) (minus 32000) "mcp session not found")))
handled_once_example =
    handled_once sha handlers (some true) "session" (number_id (pos 7)) "tools/list" none 101 103
      opened reserved calls message_tests.2 (tt, tt)

abbrev events : List Event
events = acquires 2 ∷ acquires 2 ∷ acquires 2 ∷ releases 0 ∷ releases 0 ∷ []

connection_tests :
    Sse.run no_connections events ≡ record { active_connections = 1; released = true ∷ false ∷ [] }
unfolding mcp
connection_tests = refl

run-IsCounted_example : IsCounted 2 (Sse.run no_connections events)
run-IsCounted_example =
    run-IsCounted 2 no_connections events
      (omega arith, (omega arith, (omega arith, (tt, (tt, tt))))) (refl, omega arith)
