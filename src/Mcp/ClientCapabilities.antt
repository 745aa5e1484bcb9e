-- ===== src/Mcp/ClientCapabilities.antt =====
-- mcp/client-capabilities.ts: the check of the capabilities that a client declares.
pub mod Declared
use Prim.Native.String
use encore_mcp_base.Base.{
  String, Bool, true, false, not, Option, none, some, List, [], ◌∷◌, is_some, Result, ok, err,
  ◌>>=◌, ◌>>◌, throw_if, bad_request_error,
}
use encore_mcp_base.Mcp.Json.{
  Json, boolean, Fields, no_fields, field, get_field, as_object, as_record,
}
use encore_mcp_base.Mcp.JsonRpc.{assert_only_keys}

abbrev pub assert_capability_keys : Fields → List String → String → Result (Unit {0})
assert_capability_keys fields allowed name =
    assert_only_keys fields allowed (String.◌++◌ name " contains unsupported fields")

abbrev pub require_object : Json → String → Result (Unit {0})
require_object value name =
    throw_if (not (is_some (as_object value)))
      (bad_request_error (String.◌++◌ name " must be an object"))

-- `if (value === undefined) return;` before a check
abbrev pub unless_undefined : (Json → Result (Unit {0})) → Option Json → Result (Unit {0})
unless_undefined check none = ok tt
unless_undefined check (some value) = check value

abbrev pub optional_object : Fields → String → String → Result (Unit {0})
optional_object fields key name =
    unless_undefined (λ value. require_object value name) (get_field key fields)

abbrev pub is_boolean : Json → Bool
is_boolean (boolean b) = true
is_boolean value = false

abbrev pub optional_boolean : Fields → String → String → Result (Unit {0})
optional_boolean fields key name =
    unless_undefined
      (λ value.
        throw_if (not (is_boolean value))
          (bad_request_error (String.◌++◌ name " must be a boolean")))
      (get_field key fields)

-- `for (const [key, value] of Object.entries(record)) requireObject(value, prefix + key)`
abbrev pub require_objects : String → Fields → Result (Unit {0})
require_objects prefix no_fields = ok tt
require_objects prefix (field key value rest) =
    require_object value (String.◌++◌ prefix key) >> require_objects prefix rest

unfoldable pub validate_experimental : Option Json → Result (Unit {0})
validate_experimental = unless_undefined (λ value.
    as_record (some value) "capabilities.experimental"
    >>= (λ experimental. require_objects "capabilities.experimental." experimental))

unfoldable pub validate_roots : Option Json → Result (Unit {0})
validate_roots = unless_undefined (λ value.
    as_record (some value) "capabilities.roots" >>= (λ roots.
      assert_capability_keys roots ("listChanged" ∷ []) "capabilities.roots"
      >> optional_boolean roots "listChanged" "capabilities.roots.listChanged"))

unfoldable pub validate_sampling : Option Json → Result (Unit {0})
validate_sampling = unless_undefined (λ value.
    as_record (some value) "capabilities.sampling" >>= (λ sampling.
      assert_capability_keys sampling ("context" ∷ "tools" ∷ []) "capabilities.sampling"
      >> (optional_object sampling "context" "capabilities.sampling.context"
          >> optional_object sampling "tools" "capabilities.sampling.tools")))

unfoldable pub validate_elicitation : Option Json → Result (Unit {0})
validate_elicitation = unless_undefined (λ value.
    as_record (some value) "capabilities.elicitation" >>= (λ elicitation.
      assert_capability_keys elicitation ("form" ∷ "url" ∷ []) "capabilities.elicitation"
      >> (optional_object elicitation "form" "capabilities.elicitation.form"
          >> optional_object elicitation "url" "capabilities.elicitation.url")))

unfoldable pub validate_sampling_task_requests : Json → Result (Unit {0})
validate_sampling_task_requests value =
    as_record (some value) "capabilities.tasks.requests.sampling" >>= (λ sampling.
      assert_capability_keys sampling ("createMessage" ∷ []) "capabilities.tasks.requests.sampling"
      >> optional_object sampling "createMessage"
          "capabilities.tasks.requests.sampling.createMessage")

unfoldable pub validate_elicitation_task_requests : Json → Result (Unit {0})
validate_elicitation_task_requests value =
    as_record (some value) "capabilities.tasks.requests.elicitation" >>= (λ elicitation.
      assert_capability_keys elicitation ("create" ∷ []) "capabilities.tasks.requests.elicitation"
      >> optional_object elicitation "create" "capabilities.tasks.requests.elicitation.create")

unfoldable pub validate_task_requests : Json → Result (Unit {0})
validate_task_requests value = as_record (some value) "capabilities.tasks.requests" >>= (λ requests.
    assert_capability_keys requests ("sampling" ∷ "elicitation" ∷ []) "capabilities.tasks.requests"
    >> (unless_undefined validate_sampling_task_requests (get_field "sampling" requests)
        >> unless_undefined validate_elicitation_task_requests (get_field "elicitation" requests)))

unfoldable pub validate_tasks : Option Json → Result (Unit {0})
validate_tasks = unless_undefined (λ value.
    as_record (some value) "capabilities.tasks" >>= (λ tasks.
      assert_capability_keys tasks ("list" ∷ "cancel" ∷ "requests" ∷ []) "capabilities.tasks"
      >> (optional_object tasks "list" "capabilities.tasks.list"
          >> (optional_object tasks "cancel" "capabilities.tasks.cancel"
              >> unless_undefined validate_task_requests (get_field "requests" tasks)))))

unfoldable pub validate_client_capabilities : Fields → Result (Unit {0})
validate_client_capabilities capabilities =
    require_objects "capabilities." capabilities
    >> (validate_experimental (get_field "experimental" capabilities)
        >> (validate_roots (get_field "roots" capabilities)
            >> (validate_sampling (get_field "sampling" capabilities)
                >> (validate_elicitation (get_field "elicitation" capabilities)
                    >> validate_tasks (get_field "tasks" capabilities)))))
