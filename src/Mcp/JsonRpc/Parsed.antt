-- ===== src/Mcp/JsonRpc/Parsed.antt =====
-- What mcp/json-rpc.ts parses.
use encore_mcp_base.Base.{String, ◌≡◌, refl, Option, none, some, false, ok, truthy}
use encore_mcp_base.Mcp.Json.{
  Json, object, string, Fields, no_fields, field, as_record, required_string, optional_string,
}
use encore_mcp_base.Mcp.SessionStore.{JsonRpcId, text_id, number_id}
use encore_mcp_base.Mcp.JsonRpc.{
  JsonRpcRequest, parse_json_rpc, assert_only_keys, validate_json_rpc_id, id_json,
  is_json_rpc_response,
}

abbrev params_fields : Option Fields → Fields
params_fields none = no_fields
params_fields (some p) = field "params" (object p) no_fields

abbrev id_fields : Option JsonRpcId → Fields → Fields
id_fields none rest = rest
id_fields (some id) rest = field "id" (id_json id) rest

-- A request as a client writes it.
abbrev pub request_json : JsonRpcRequest → Json
request_json r = object (
    field "jsonrpc" (string "2.0")
      (id_fields r.id (field "method" (string r.method) (params_fields r.params))))

no_response :
    (id : Option JsonRpcId) (method : String) (params : Option Fields)
    → is_json_rpc_response (request_json (record { id = id; method = method; params = params }))
      ≡ ok false
unfolding is_json_rpc_response
no_response none method params = refl
no_response (some id) method params = refl

parsed :
    (id : Option JsonRpcId) (method : String) (params : Option Fields)
    → truthy (some method) ≡ some method
    → parse_json_rpc (request_json (record { id = id; method = method; params = params }))
      ≡ ok (record { id = id; method = method; params = params })
unfolding parse_json_rpc as_record assert_only_keys required_string optional_string
    validate_json_rpc_id
parsed none method none named = rw named refl
parsed none method (some p) named = rw named refl
parsed (some (text_id s)) method none named = rw named refl
parsed (some (text_id s)) method (some p) named = rw named refl
parsed (some (number_id n)) method none named = rw named refl
parsed (some (number_id n)) method (some p) named = rw named refl

-- A request that a client writes, with a method that is not empty, is no response, and is parsed
-- to itself.
pub parse_json_rpc-request_json :
    (r : JsonRpcRequest)
    → truthy (some r.method) ≡ some r.method
    → (is_json_rpc_response (request_json r) ≡ ok false) × (parse_json_rpc (request_json r) ≡ ok r)
parse_json_rpc-request_json r named =
    (no_response r.id r.method r.params, parsed r.id r.method r.params named)
