-- ===== src/Mcp/Protocol/Answers.antt =====
-- How mcp/protocol.ts answers: every request with an identifier is answered under it, and a
-- session that is not initialized reaches no method that has to wait.
use encore_mcp_base.Base.{
  String, ◌≡◌, refl, ◌⊎◌, inl, inr, Bool, true, false, Option, some, Thrown, service, protocol,
  challenge, other, ℤ, minus, Bool-cases, Result-cases,
}
use encore_mcp_base.Store.Records.{OAuthStoreState, Operation}
use encore_mcp_base.Mcp.Json.{Json, string, Fields, get_field, has_own}
use encore_mcp_base.Mcp.JsonRpc.{JsonRpcRequest, id_json, json_rpc_success, json_rpc_error}
use encore_mcp_base.Mcp.SessionStore.{JsonRpcId}
use encore_mcp_base.Mcp.Methods.{McpResult, Handlers}
use encore_mcp_base.Mcp.Protocol.{
  dispatch, answer_request, answer, recover, settled, reserve_id, must_wait, handle_request,
  client_id_of,
}

-- The body is a JSON-RPC response under the identifier: it has a result or an error, not both.
pub record IsResponse (id : JsonRpcId) (body : Fields) : Type 0 where
  pub version : get_field "jsonrpc" body ≡ some (string "2.0")
  pub same_id : get_field "id" body ≡ some (id_json id)
  pub one_outcome :
      ((has_own body "result" ≡ true) × (has_own body "error" ≡ false))
      ⊎ ((has_own body "result" ≡ false) × (has_own body "error" ≡ true))

abbrev pub Responds : JsonRpcId → McpResult → Type 0
Responds id r = (body : Fields) × (r.body ≡ some body) × IsResponse id body

success-IsResponse : (id : JsonRpcId) (result : Json) → IsResponse id (json_rpc_success id result)
success-IsResponse id result = record {
  version = refl;
  same_id = refl;
  one_outcome = inl (refl, refl);
}

error-IsResponse :
    (id : JsonRpcId) (code : ℤ) (message : String)
    → IsResponse id (json_rpc_error (some id) code message)
error-IsResponse id code message = record {
  version = refl;
  same_id = refl;
  one_outcome = inr (refl, refl);
}

module _ (handlers : Handlers) where
  recover-Responds : (id : JsonRpcId) (e : Thrown) → Responds id (recover handlers (some id) e)
  unfolding recover
  recover-Responds id (protocol code message) = (_, refl, error-IsResponse id code message)
  recover-Responds id (challenge scopes error) =
      (_, refl, error-IsResponse id (minus 32000) error.message)
  recover-Responds id (service error) = (_, refl, error-IsResponse id (minus 32000) error.message)
  recover-Responds id (other message) =
      (_, refl, error-IsResponse id (minus 32603) "internal error")

  answer_request-Responds :
      (request : JsonRpcRequest) (id : JsonRpcId)
      → Responds id (settled handlers (some id) (answer_request handlers request id))
  unfolding answer_request
  answer_request-Responds request id = elim (Result-cases (dispatch handlers request)) [
    | inr (e, fails) ↦ rw fails (recover-Responds id e)
    | inl (result, works) ↦ elim (Result-cases (client_id_of handlers request)) [
      | inr (e, fails) ↦ rw (works, fails) (recover-Responds id e)
      | inl (client_id, named) ↦ rw (works, named) (_, refl, success-IsResponse id result)
    ]
  ]

  answer-Responds :
      (session_initialized : Option Bool) (method : String) (params : Option Fields)
      (id : JsonRpcId)
      → Responds id (
          settled handlers (some id) (
            answer handlers session_initialized
              (record { id = some id; method = method; params = params })))
  unfolding answer
  answer-Responds session_initialized method params id =
      elim (Bool-cases (must_wait session_initialized method)) [
        | inl waits ↦
            rw waits (_, refl, error-IsResponse id (minus 32002) "session is not initialized")
        | inr goes ↦
            rw goes (
              answer_request-Responds (record { id = some id; method = method; params = params })
                id)
      ]

  -- A request with an identifier is always answered, whatever the methods and the reservation of
  -- the identifier return or throw: the body is a JSON-RPC response with that identifier and with
  -- either a result or an error.
  pub handle_request-Responds :
      (session_initialized : Option Bool) (reserve : Option (JsonRpcId → Operation (Unit {0})))
      (id : JsonRpcId) (method : String) (params : Option Fields) (s : OAuthStoreState)
      → Responds id
          (handle_request handlers session_initialized reserve
            (record { id = some id; method = method; params = params })
            s).0
  unfolding handle_request
  handle_request-Responds session_initialized reserve id method params s =
      elim (Result-cases (reserve_id reserve (some id) s).0) [
        | inl (done, reserved) ↦
            rw (handle_request, reserved) (answer-Responds session_initialized method params id)
        | inr (e, refused) ↦ rw (handle_request, refused) (recover-Responds id e)
      ]
