-- ===== src/Mcp/Methods.antt =====
-- mcp/notifications.ts, request-params.ts and the parameters of mcp/protocol.ts: what a message
-- brings to the method that it names. The tools and resources, the check of `_meta` (client-meta.ts)
-- and the texts of auth-challenge.ts are in the record of handlers.
use Prim.Native.String
use encore_mcp_base.Base.{
  ℕ, String, Bool, true, false, not, Option, none, some, List, [], ◌∷◌, Result, ok, err, ◌>>=◌,
  ◌>>◌, throw_if, or_throw, Thrown, protocol, other, ServiceError, minus, any, contains, truthy,
  ◌==◌, if◌then◌else◌,
}
use text.Mathlib.Text.{starts_with}
use encore_mcp_base.Mcp.Json.{
  Json, number, string, object, safe_integer, Fields, no_fields, get_field, names, as_object,
}
use encore_mcp_base.Mcp.JsonRpc.{JsonRpcRequest, json_rpc_error}

pub record McpResult : Type 0 where
  pub status : ℕ
  pub body : Option Fields
  pub initialized : Bool
  pub client_id : Option String
  pub www_authenticate : Option (List String)

abbrev pub plain : ℕ → Option Fields → McpResult
plain status body = record {
  status = status;
  body = body;
  initialized = false;
  client_id = none;
  www_authenticate = none;
}

pub record Handlers : Type 0 where
  pub initialize_result : Option Fields → Result Json
  pub initialize_client_id : Option Fields → Result String
  pub list_tools : Option Fields → Result Json
  pub call_tool : String → Fields → Result Json
  pub list_resources : Option Fields → Result Json
  pub list_resource_templates : Option Fields → Result Json
  pub read_resource : String → Result Json
  pub is_resource_uri : Json → Option String
  pub request_meta_error : Option Json → String → Option String
  pub extract_www_authenticate : Json → Option (List String)
  pub www_authenticate : List String → ServiceError → String
  pub notification_meta_error : Option Json → Option String

abbrev pub invalid_notification : String → McpResult
invalid_notification message = plain 400 (some (json_rpc_error none (minus 32600) message))

-- A thrown `InvalidNotification` is `other` with its message.
abbrev assert_keys : Fields → List String → String → Result (Unit {0})
assert_keys fields allowed name =
    throw_if (any (λ key. not (contains allowed key)) (names fields))
      (other (String.◌++◌ name " contains unsupported fields"))

abbrev throw_message : Option String → Result (Unit {0})
throw_message none = ok tt
throw_message (some String.[]) = ok tt
throw_message (some (String.◌∷◌ c s)) = err (other (String.◌∷◌ c s))

abbrev is_request_id : Option Json → Bool
is_request_id (some (string s)) = true
is_request_id (some (number (safe_integer n))) = true
is_request_id value = false

abbrev is_optional_string : Option Json → Bool
is_optional_string none = true
is_optional_string (some (string s)) = true
is_optional_string value = false

-- The end of a handler's `try`, and its `catch`.
abbrev accepted : Result (Unit {0}) → Result McpResult
accepted (ok done) = ok (plain 202 none)
accepted (err (other message)) = ok (invalid_notification message)
accepted (err e) = err e

abbrev pub params_error : String → String → Thrown
params_error method rest = protocol (minus 32602) (String.◌++◌ method rest)

abbrev non_empty_text : Option Json → Option String
non_empty_text (some (string s)) = truthy (some s)
non_empty_text value = none

module _ (handlers : Handlers) where
  unfoldable pub validate_notification_params : Option Fields → Result (Unit {0})
  validate_notification_params none = ok tt
  validate_notification_params (some params) = do
    assert_keys params ("_meta" ∷ []) "notification params"
    throw_message (handlers.notification_meta_error (get_field "_meta" params))

  unfoldable pub validate_cancelled_params : Option Fields → Result (Unit {0})
  validate_cancelled_params none = err (other "cancelled notification params are required")
  validate_cancelled_params (some params) = do
    assert_keys params ("_meta" ∷ "requestId" ∷ "reason" ∷ []) "cancelled notification params"
    throw_message (handlers.notification_meta_error (get_field "_meta" params))
    throw_if (not (is_request_id (get_field "requestId" params)))
        (other "cancelled notification requestId is required")
    throw_if (not (is_optional_string (get_field "reason" params)))
        (other "cancelled notification reason must be a string")

  unfoldable pub handle_notification : JsonRpcRequest → Result McpResult
  handle_notification request =
      if not (starts_with request.method "notifications/")
      then ok (invalid_notification "request method requires id")
      else if request.method == "notifications/initialized"
      then accepted (validate_notification_params request.params)
      else if request.method == "notifications/cancelled"
      then accepted (validate_cancelled_params request.params)
      else if request.method == "notifications/roots/list_changed"
      then accepted (validate_notification_params request.params)
      else ok (invalid_notification "unsupported notification method")

  abbrev resource_uri : Option Json → Option String
  resource_uri none = none
  resource_uri (some value) = handlers.is_resource_uri value

  -- request-params.ts
  unfoldable pub validate_method_params : Json → String → List String → Result Fields
  validate_method_params params method allowed_keys = do
    fields ← or_throw (as_object params) (params_error method " params must be an object")
    throw_if (any (λ key. not (contains allowed_keys key)) (names fields))
        (params_error method " params contain unsupported fields")
    elim (handlers.request_meta_error (get_field "_meta" fields) method) [
      | none ↦ ok fields
      | some String.[] ↦ ok fields
      | some message ↦ err (protocol (minus 32602) message)
    ]

  unfoldable pub optional_method_params :
      Option Fields → String → List String → Result (Option Fields)
  optional_method_params none method allowed_keys = ok none
  optional_method_params (some params) method allowed_keys = do
    fields ← validate_method_params (object params) method allowed_keys
    ok (some fields)

  unfoldable pub required_method_params : Option Fields → String → List String → Result Fields
  required_method_params none method allowed_keys =
      err (params_error method " params must be an object")
  required_method_params (some params) method allowed_keys =
      validate_method_params (object params) method allowed_keys

  -- `args === undefined` gives `{}`.
  abbrev tool_arguments : Option Json → Result Fields
  tool_arguments none = ok no_fields
  tool_arguments (some value) =
      or_throw (as_object value) (protocol (minus 32602) "tools/call arguments must be an object")

  unfoldable pub tool_call_params : Option Fields → Result (String × Fields)
  tool_call_params params = do
    fields ←
        required_method_params params "tools/call" ("_meta" ∷ "task" ∷ "name" ∷ "arguments" ∷ [])
    name ←
        or_throw (non_empty_text (get_field "name" fields))
          (protocol (minus 32602) "tools/call name must be a string")
    arguments ← tool_arguments (get_field "arguments" fields)
    ok (name, arguments)

  unfoldable pub resource_read_params : Option Fields → Result String
  resource_read_params params = do
    fields ← required_method_params params "resources/read" ("_meta" ∷ "uri" ∷ [])
    or_throw (resource_uri (get_field "uri" fields))
        (protocol (minus 32602) "resources/read uri must be a valid resource URI")

  abbrev pub ping : Option Fields → Result Json
  ping params = do _ ← optional_method_params params "ping" ("_meta" ∷ []); ok (object no_fields)

  abbrev pub call_tool : Option Fields → Result Json
  call_tool params = do call ← tool_call_params params; handlers.call_tool call.0 call.1

  abbrev pub read_resource : Option Fields → Result Json
  read_resource params = do uri ← resource_read_params params; handlers.read_resource uri
