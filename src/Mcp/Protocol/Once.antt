-- ===== src/Mcp/Protocol/Once.antt =====
-- Within a session, mcp/protocol.ts runs the method of a request identifier once: a later request
-- with the same identifier is refused before it reaches any method.
use encore_mcp_base.Base.{
  ℕ, String, ◌≡◌, refl, ◌⊎◌, inl, inr, Bool, true, false, Option, some, List, ok, err, arith, All,
  minus, Bool-cases, Result-cases,
}
use encore_mcp_base.Store.Records.{OAuthStoreState}
use encore_mcp_base.Store.Sessions as Sessions
use encore_mcp_base.Store.Sessions.{session_not_found_error}
use encore_mcp_base.Store.Sessions.Lifecycle.{reserved_once}
use encore_mcp_base.Store.History.{Call, run}
use encore_mcp_base.Store.Sessions.Lasting.{SparesSession}
use encore_mcp_base.Mcp.Json.{Fields}
use encore_mcp_base.Mcp.JsonRpc.{json_rpc_error}
use encore_mcp_base.Mcp.SessionStore.{
  JsonRpcId, mcp_request_id_hash, reserve_mcp_request_id, duplicate_request_id_error,
}
use encore_mcp_base.Mcp.Methods.{Handlers, plain}
use encore_mcp_base.Mcp.Protocol.{handle_request, recover}

module _ (sha : String → String) where
  reserve_mcp_request_id-ok :
      (session_id : String) (id : JsonRpcId) (now : ℕ) (s t : OAuthStoreState)
      → reserve_mcp_request_id sha session_id id now s ≡ (ok tt, t)
      → Sessions.reserve_mcp_request_id (sha session_id) (mcp_request_id_hash sha id) now s
        ≡ (ok true, t)
  unfolding reserve_mcp_request_id
  reserve_mcp_request_id-ok session_id id now s t h =
      elim (Result-cases
        (Sessions.reserve_mcp_request_id (sha session_id) (mcp_request_id_hash sha id) now s).0) [
          | inl (b, returns) ↦ elim (Bool-cases b) [
            | inl fresh ↦ ground (arith, returns, fresh)
            | inr duplicate ↦ absurd (ground (arith, returns, duplicate))
          ]
          | inr (e, throws) ↦ absurd (ground (arith, throws))
        ]

  reserve_mcp_request_id-refused :
      (session_id : String) (id : JsonRpcId) (now : ℕ) (s : OAuthStoreState)
      → ((Sessions.reserve_mcp_request_id (sha session_id) (mcp_request_id_hash sha id) now s).0
          ≡ ok false)
        ⊎ ((Sessions.reserve_mcp_request_id (sha session_id) (mcp_request_id_hash sha id) now s).0
            ≡ err session_not_found_error)
      → ((reserve_mcp_request_id sha session_id id now s).0 ≡ err duplicate_request_id_error)
        ⊎ ((reserve_mcp_request_id sha session_id id now s).0 ≡ err session_not_found_error)
  unfolding reserve_mcp_request_id
  reserve_mcp_request_id-refused session_id id now s (inl duplicate) =
      inl (ground (arith, duplicate))
  reserve_mcp_request_id-refused session_id id now s (inr gone) = inr (ground (arith, gone))

  -- Once the identifier of a request has been reserved in a session, every later request of the
  -- session with that identifier is answered with the error "duplicate json-rpc request id", or
  -- that there is no such session any more, whatever its method and the methods are, and after any
  -- calls of the store that create no session with the same hash.
  pub handled_once :
      (handlers : Handlers) (session_initialized : Option Bool) (session_id : String)
      (id : JsonRpcId) (method : String) (params : Option Fields) (now later : ℕ)
      (s t : OAuthStoreState) (cs : List (ℕ × Call))
      → reserve_mcp_request_id sha session_id id now s ≡ (ok tt, t)
      → All (SparesSession sha (sha session_id)) cs
      → ((handle_request handlers session_initialized
            (some (λ i. reserve_mcp_request_id sha session_id i later))
            (record { id = some id; method = method; params = params })
            (run sha t cs)).0
          ≡ plain 200
              (some (json_rpc_error (some id) (minus 32600) "duplicate json-rpc request id")))
        ⊎ ((handle_request handlers session_initialized
              (some (λ i. reserve_mcp_request_id sha session_id i later))
              (record { id = some id; method = method; params = params })
              (run sha t cs)).0
            ≡ plain 404 (some (json_rpc_error (some id) (minus 32000) "mcp session not found")))
  unfolding handle_request recover
  handled_once handlers session_initialized session_id id method params now later s t cs reserved
        spares =
      elim (reserve_mcp_request_id-refused session_id id later (run sha t cs) (
        reserved_once sha (sha session_id) (mcp_request_id_hash sha id) now later s t true cs
          (reserve_mcp_request_id-ok session_id id now s t reserved) spares)) [
            | inl duplicate ↦ inl (rw (handle_request, duplicate) refl)
            | inr gone ↦ inr (rw (handle_request, gone) refl)
          ]
