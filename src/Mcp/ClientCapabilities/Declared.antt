-- ===== src/Mcp/ClientCapabilities/Declared.antt =====
-- Which capabilities mcp/client-capabilities.ts accepts.
use encore_mcp_base.Base.{
  String, ◌≡◌, refl, ◌↔◌, true, false, not, any, contains, Option, none, some, List, [], ◌∷◌, arith,
  All, Result, ok, err, ◌>>=◌, ◌>>◌,
}
use encore_mcp_base.Mcp.Json.{
  Json, null, boolean, number, string, array, object, Fields, no_fields, field, names, get_field,
  as_record,
}
use encore_mcp_base.Mcp.JsonRpc.{assert_only_keys}
use encore_mcp_base.Mcp.ClientCapabilities.{
  assert_capability_keys, require_object, unless_undefined, optional_object, is_boolean,
  optional_boolean, require_objects, validate_experimental, validate_roots, validate_sampling,
  validate_elicitation, validate_sampling_task_requests, validate_elicitation_task_requests,
  validate_task_requests, validate_tasks, validate_client_capabilities,
}

abbrev pub IsObject : (Fields → Type 0) → Json → Type 0
IsObject P (object fields) = P fields
IsObject P value = ⊥

abbrev pub IsAnyObject : Json → Type 0
IsAnyObject = IsObject (λ fields. Unit {0})

abbrev pub IsOptional : (Json → Type 0) → Option Json → Type 0
IsOptional P none = Unit {0}
IsOptional P (some value) = P value

abbrev pub HasOnly : List String → Fields → Type 0
HasOnly allowed fields = All (λ key. contains allowed key ≡ true) (names fields)

abbrev pub HasObjects : Fields → Type 0
HasObjects no_fields = Unit {0}
HasObjects (field key value rest) = IsAnyObject value × HasObjects rest

-- A check accepts exactly what a predicate describes.
abbrev Decides : Result (Unit {0}) → Type 0 → Type 0
Decides check P = (check ≡ ok tt) ↔ P

both :
    {n : Result (Unit {0})} {P Q : Type 0} (m : Result (Unit {0}))
    → Decides m P
    → Decides n Q
    → Decides (m >> n) (P × Q)
both (err e) p q = (λ h. cc, λ h. let returns = p.1 h.0 in cc)
both (ok done) p q = (λ h. (p.0 refl, q.0 h), λ h. q.1 h.1)

in_record :
    {rest : Fields → Result (Unit {0})} {P : Fields → Type 0} (name : String)
    → ((fields : Fields) → Decides (rest fields) (P fields))
    → (value : Json) → Decides (as_record (some value) name >>= rest) (IsObject P value)
unfolding as_record
in_record name d null = ground (arith)
in_record name d (boolean b) = ground (arith)
in_record name d (number n) = ground (arith)
in_record name d (string s) = ground (arith)
in_record name d (array items) = ground (arith)
in_record name d (object fields) = d fields

if_there :
    {check : Json → Result (Unit {0})} {P : Json → Type 0}
    → ((value : Json) → Decides (check value) (P value))
    → (value : Option Json) → Decides (unless_undefined check value) (IsOptional P value)
if_there d none = (λ h. tt, λ h. refl)
if_there d (some value) = d value

require_object_iff :
    (name : String) (value : Json) → Decides (require_object value name) (IsAnyObject value)
require_object_iff name null = ground (arith)
require_object_iff name (boolean b) = ground (arith)
require_object_iff name (number n) = ground (arith)
require_object_iff name (string s) = ground (arith)
require_object_iff name (array items) = ground (arith)
require_object_iff name (object record_) = (λ h. tt, λ h. refl)

require_objects_iff :
    (prefix : String) (fields : Fields)
    → Decides (require_objects prefix fields) (HasObjects fields)
require_objects_iff prefix no_fields = (λ h. tt, λ h. refl)
require_objects_iff prefix (field key value rest) =
    both _ (require_object_iff _ value) (require_objects_iff prefix rest)

any-All :
    (allowed keys : List String)
    → (any (λ key. not (contains allowed key)) keys ≡ false)
      ↔ All (λ key. contains allowed key ≡ true) keys
any-All allowed [] = (λ h. tt, λ h. refl)
any-All allowed (key ∷ keys) = ground (arith, any-All allowed keys)

only_iff :
    (fields : Fields) (allowed : List String) (name : String)
    → Decides (assert_capability_keys fields allowed name) (HasOnly allowed fields)
unfolding assert_only_keys
only_iff fields allowed name = ground (arith, any-All allowed (names fields))

optional_object_iff :
    (fields : Fields) (key name : String)
    → Decides (optional_object fields key name) (IsOptional IsAnyObject (get_field key fields))
optional_object_iff fields key name = if_there (require_object_iff name) (get_field key fields)

-- `listChanged` is the only key, and a Boolean.
abbrev pub IsRoots : Fields → Type 0
IsRoots roots =
    HasOnly ("listChanged" ∷ []) roots
    × IsOptional (λ value. is_boolean value ≡ true) (get_field "listChanged" roots)

-- Two keys at most, with objects.
abbrev pub IsPair : String → String → Fields → Type 0
IsPair first second fields =
    HasOnly (first ∷ second ∷ []) fields
    × (IsOptional IsAnyObject (get_field first fields)
        × IsOptional IsAnyObject (get_field second fields))

-- One key at most, with an object.
abbrev pub IsSingle : String → Fields → Type 0
IsSingle key fields = HasOnly (key ∷ []) fields × IsOptional IsAnyObject (get_field key fields)

abbrev pub IsTaskRequests : Fields → Type 0
IsTaskRequests requests =
    HasOnly ("sampling" ∷ "elicitation" ∷ []) requests
    × (IsOptional (IsObject (IsSingle "createMessage")) (get_field "sampling" requests)
        × IsOptional (IsObject (IsSingle "create")) (get_field "elicitation" requests))

abbrev pub IsTasks : Fields → Type 0
IsTasks tasks =
    HasOnly ("list" ∷ "cancel" ∷ "requests" ∷ []) tasks
    × (IsOptional IsAnyObject (get_field "list" tasks)
        × (IsOptional IsAnyObject (get_field "cancel" tasks)
            × IsOptional (IsObject IsTaskRequests) (get_field "requests" tasks)))

abbrev pub IsClientCapabilities : Fields → Type 0
IsClientCapabilities capabilities =
    HasObjects capabilities
    × (IsOptional (IsObject HasObjects) (get_field "experimental" capabilities)
        × (IsOptional (IsObject IsRoots) (get_field "roots" capabilities)
            × (IsOptional (IsObject (IsPair "context" "tools")) (get_field "sampling" capabilities)
                × (IsOptional (IsObject (IsPair "form" "url"))
                      (get_field "elicitation" capabilities)
                    × IsOptional (IsObject IsTasks) (get_field "tasks" capabilities)))))

boolean_iff :
    (roots : Fields) (key name : String)
    → Decides
        (optional_boolean roots key name)
        (IsOptional (λ value. is_boolean value ≡ true) (get_field key roots))
boolean_iff roots key name = if_there (λ value. ground (arith)) (get_field key roots)

validate_roots_iff :
    (value : Option Json) → Decides (validate_roots value) (IsOptional (IsObject IsRoots) value)
unfolding validate_roots
validate_roots_iff = if_there (
    in_record "capabilities.roots" (λ roots.
      both _ (only_iff roots ("listChanged" ∷ []) "capabilities.roots")
        (boolean_iff roots "listChanged" "capabilities.roots.listChanged")))

-- A record of two optional objects.
two_objects_iff :
    (first second name n1 n2 : String) (fields : Fields)
    → Decides
        (assert_capability_keys fields (first ∷ second ∷ []) name
          >> (optional_object fields first n1 >> optional_object fields second n2))
        (IsPair first second fields)
two_objects_iff first second name n1 n2 fields =
    both _ (only_iff fields _ name)
      (both _ (optional_object_iff fields first n1) (optional_object_iff fields second n2))

one_object_iff :
    (key name n1 : String) (fields : Fields)
    → Decides
        (assert_capability_keys fields (key ∷ []) name >> optional_object fields key n1)
        (IsSingle key fields)
one_object_iff key name n1 fields =
    both _ (only_iff fields _ name) (optional_object_iff fields key n1)

validate_task_requests_iff :
    (value : Json) → Decides (validate_task_requests value) (IsObject IsTaskRequests value)
unfolding validate_task_requests validate_sampling_task_requests validate_elicitation_task_requests
validate_task_requests_iff = in_record "capabilities.tasks.requests" (λ requests.
    both _ (only_iff requests ("sampling" ∷ "elicitation" ∷ []) "capabilities.tasks.requests") (
      both _
        (if_there
          (in_record "capabilities.tasks.requests.sampling" (
            one_object_iff "createMessage" "capabilities.tasks.requests.sampling"
              "capabilities.tasks.requests.sampling.createMessage"))
          (get_field "sampling" requests))
        (if_there
          (in_record "capabilities.tasks.requests.elicitation" (
            one_object_iff "create" "capabilities.tasks.requests.elicitation"
              "capabilities.tasks.requests.elicitation.create"))
          (get_field "elicitation" requests))))

validate_tasks_iff :
    (value : Option Json) → Decides (validate_tasks value) (IsOptional (IsObject IsTasks) value)
unfolding validate_tasks
validate_tasks_iff = if_there (
    in_record "capabilities.tasks" (λ tasks.
      both _ (only_iff tasks ("list" ∷ "cancel" ∷ "requests" ∷ []) "capabilities.tasks") (
        both _ (optional_object_iff tasks "list" "capabilities.tasks.list") (
          both _ (optional_object_iff tasks "cancel" "capabilities.tasks.cancel")
            (if_there validate_task_requests_iff (get_field "requests" tasks))))))

validate_experimental_iff :
    (value : Option Json)
    → Decides (validate_experimental value) (IsOptional (IsObject HasObjects) value)
unfolding validate_experimental
validate_experimental_iff =
    if_there
      (in_record "capabilities.experimental" (require_objects_iff "capabilities.experimental."))

validate_sampling_iff :
    (value : Option Json)
    → Decides (validate_sampling value) (IsOptional (IsObject (IsPair "context" "tools")) value)
unfolding validate_sampling
validate_sampling_iff = if_there (
    in_record "capabilities.sampling" (
      two_objects_iff "context" "tools" "capabilities.sampling" "capabilities.sampling.context"
        "capabilities.sampling.tools"))

validate_elicitation_iff :
    (value : Option Json)
    → Decides (validate_elicitation value) (IsOptional (IsObject (IsPair "form" "url")) value)
unfolding validate_elicitation
validate_elicitation_iff = if_there (
    in_record "capabilities.elicitation" (
      two_objects_iff "form" "url" "capabilities.elicitation" "capabilities.elicitation.form"
        "capabilities.elicitation.url"))

-- A client's capabilities are accepted exactly if each is an object, each of `experimental` is one,
-- `roots` has no key but a Boolean `listChanged`, `sampling` and `elicitation` have no keys but
-- their two, with objects, and `tasks` has no keys but `list` and `cancel`, with objects, and
-- `requests`, which has no keys but `sampling` and `elicitation`, each with its one key at most.
pub validate_client_capabilities_iff :
    (capabilities : Fields)
    → (validate_client_capabilities capabilities ≡ ok tt) ↔ IsClientCapabilities capabilities
unfolding validate_client_capabilities
validate_client_capabilities_iff capabilities =
    both _ (require_objects_iff "capabilities." capabilities) (
      both _ (validate_experimental_iff (get_field "experimental" capabilities)) (
        both _ (validate_roots_iff (get_field "roots" capabilities)) (
          both _ (validate_sampling_iff (get_field "sampling" capabilities)) (
            both _ (validate_elicitation_iff (get_field "elicitation" capabilities))
              (validate_tasks_iff (get_field "tasks" capabilities))))))
