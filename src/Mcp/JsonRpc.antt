-- ===== src/Mcp/JsonRpc.antt =====
-- mcp/json-rpc.ts: JSON-RPC messages.
pub mod Parsed
use encore_mcp_base.Base.{
  ℕ, String, Bool, true, false, not, ◌&&◌, ◌||◌, Option, none, some, List, [], ◌∷◌, Result, ok, err,
  ◌>>=◌, ◌>>◌, throw_if, or_throw, bad_request_error, Thrown, ℤ, any, contains, is_some, ◌==◌,
  if◌then◌else◌,
}
use encore_mcp_base.Mcp.Json.{
  Json, null, boolean, number, string, array, object, JsNumber, safe_integer, large_integer,
  fraction, infinite, Fields, no_fields, field, get_field, has_own, names, as_object, as_record,
  required_string,
}
use encore_mcp_base.Mcp.SessionStore.{JsonRpcId, text_id, number_id}

pub record JsonRpcRequest : Type 0 where
  pub id : Option JsonRpcId
  pub method : String
  pub params : Option Fields

unfoldable pub assert_only_keys : Fields → List String → String → Result (Unit {0})
assert_only_keys fields allowed message =
    throw_if (any (λ key. not (contains allowed key)) (names fields)) (bad_request_error message)

abbrev pub invalid_id_error : Thrown
invalid_id_error = bad_request_error "invalid json-rpc id"

unfoldable pub validate_json_rpc_id : Json → Result JsonRpcId
validate_json_rpc_id (string s) = ok (text_id s)
validate_json_rpc_id (number (safe_integer n)) = ok (number_id n)
validate_json_rpc_id other = err invalid_id_error

-- `Number.isInteger(value)`
abbrev is_integer : Option Json → Bool
is_integer (some (number (safe_integer n))) = true
is_integer (some (number (large_integer s))) = true
is_integer other = false

abbrev is_string : Option Json → Bool
is_string (some (string s)) = true
is_string other = false

abbrev is_text : Option Json → String → Bool
is_text (some (string s)) t = s == t
is_text other t = false

unfoldable pub validate_json_rpc_error : Json → Result (Unit {0})
validate_json_rpc_error value = do
  fields ← as_record (some value) "error"
  assert_only_keys fields ("code" ∷ "message" ∷ "data" ∷ []) "invalid json-rpc error"
  throw_if (not (is_integer (get_field "code" fields))) (bad_request_error "invalid json-rpc error")
  throw_if (not (is_string (get_field "message" fields)))
      (bad_request_error "invalid json-rpc error")

abbrev pub invalid_response_error : Thrown
invalid_response_error = bad_request_error "invalid json-rpc response"

-- A field's value, validated if it is there.
abbrev validated : {A : Type 0} → (Json → Result A) → Option Json → Result (Unit {0})
validated f none = ok tt
validated f (some value) = elim (f value) [ ok a ↦ ok tt | err e ↦ err e ]

unfoldable pub validate_json_rpc_result : Json → Result (Unit {0})
validate_json_rpc_result value = throw_if (not (is_some (as_object value))) invalid_response_error

-- What `isJsonRpcResponse` checks of an object with a result or an error.
unfoldable pub check_response : Fields → Result Bool
check_response fields = do
  assert_only_keys fields
      (if has_own fields "result"
        then "jsonrpc" ∷ "id" ∷ "result" ∷ []
        else "jsonrpc" ∷ "id" ∷ "error" ∷ [])
      "invalid json-rpc response"
  throw_if (has_own fields "result" && has_own fields "error") invalid_response_error
  throw_if (not (has_own fields "id")) invalid_response_error
  validated validate_json_rpc_id (get_field "id" fields)
  validated validate_json_rpc_result (get_field "result" fields)
  validated validate_json_rpc_error (get_field "error" fields)
  ok true

unfoldable pub is_json_rpc_response : Json → Result Bool
is_json_rpc_response value = elim (as_object value) [
  | none ↦ ok false
  | some fields ↦
      if is_some (get_field "method" fields) || not (is_text (get_field "jsonrpc" fields) "2.0")
      then ok false
      else if not (has_own fields "result") && not (has_own fields "error")
      then ok false
      else check_response fields
]

-- `record.id`, validated unless it is undefined.
abbrev pub read_id : Option Json → Result (Option JsonRpcId)
read_id none = ok none
read_id (some value) = elim (validate_json_rpc_id value) [ ok id ↦ ok (some id) | err e ↦ err e ]

abbrev pub read_params : Option Json → Result (Option Fields)
read_params none = ok none
read_params (some value) = elim (as_object value) [
  | some fields ↦ ok (some fields)
  | none ↦ err (bad_request_error "invalid json-rpc params")
]

unfoldable pub parse_json_rpc : Json → Result JsonRpcRequest
parse_json_rpc value = do
  fields ← as_record (some value) "json-rpc"
  assert_only_keys fields ("jsonrpc" ∷ "id" ∷ "method" ∷ "params" ∷ []) "invalid json-rpc message"
  throw_if (not (is_text (get_field "jsonrpc" fields) "2.0"))
      (bad_request_error "invalid json-rpc version")
  throw_if (has_own fields "result" || has_own fields "error")
      (bad_request_error "invalid json-rpc message")
  method ← required_string fields "method"
  id ← read_id (get_field "id" fields)
  params ← read_params (get_field "params" fields)
  ok (record { id = id; method = method; params = params })

abbrev pub id_json : JsonRpcId → Json
id_json (text_id s) = string s
id_json (number_id n) = number (safe_integer n)

abbrev pub json_rpc_success : JsonRpcId → Json → Fields
json_rpc_success id result =
    field "jsonrpc" (string "2.0") (field "id" (id_json id) (field "result" result no_fields))

abbrev with_id : Option JsonRpcId → Fields → Fields
with_id none rest = rest
with_id (some id) rest = field "id" (id_json id) rest

abbrev pub json_rpc_error : Option JsonRpcId → ℤ → String → Fields
json_rpc_error id code message = field "jsonrpc" (string "2.0") (
    with_id id (
      field "error"
        (object
          (field "code" (number (safe_integer code)) (field "message" (string message) no_fields)))
        no_fields))
