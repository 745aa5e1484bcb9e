-- ===== src/Mcp/Tests/Capabilities.antt =====
-- mcp/client-capabilities.ts at concrete capabilities.
use encore_mcp_base.Base.{◌≡◌, refl, true, ok, err, bad_request_error}
use encore_mcp_base.Mcp.Json.{Json, object, boolean, null, Fields, field, no_fields, as_record}
use encore_mcp_base.Mcp.JsonRpc.{assert_only_keys}
use encore_mcp_base.Mcp.ClientCapabilities.{
  validate_experimental, validate_roots, validate_sampling, validate_elicitation,
  validate_sampling_task_requests, validate_elicitation_task_requests, validate_task_requests,
  validate_tasks, validate_client_capabilities,
}
use encore_mcp_base.Mcp.ClientCapabilities.Declared.{validate_client_capabilities_iff}

capabilities : Unit {0}
unfolding as_record assert_only_keys validate_experimental validate_roots validate_sampling
    validate_elicitation validate_sampling_task_requests validate_elicitation_task_requests
    validate_task_requests validate_tasks validate_client_capabilities
capabilities = tt

abbrev empty : Json
empty = object no_fields

abbrev declared : Fields
declared = field "roots" (object (field "listChanged" (boolean true) no_fields)) (
    field "sampling" (object (field "tools" empty no_fields))
      (field "tasks" (object (field "list" empty no_fields)) (field "acme" empty no_fields)))

refused :
    (validate_client_capabilities (field "acme" null no_fields)
      ≡ err (bad_request_error "capabilities.acme must be an object"))
    × (validate_client_capabilities
          (field "sampling" (object (field "tools" null no_fields)) no_fields)
        ≡ err (bad_request_error "capabilities.sampling.tools must be an object"))
    × (validate_client_capabilities
          (field "roots" (object (field "changed" empty no_fields)) no_fields)
        ≡ err (bad_request_error "capabilities.roots contains unsupported fields"))
unfolding capabilities
refused = (refl, refl, refl)

validate_client_capabilities_iff_example : validate_client_capabilities declared ≡ ok tt
unfolding capabilities
validate_client_capabilities_iff_example = (validate_client_capabilities_iff declared).1 (
  (tt, (tt, (tt, (tt, tt)))),
  (tt, (((refl, tt), refl), (((refl, tt), (tt, tt)), (tt, ((refl, tt), (tt, (tt, tt))))))),
)
