-- ===== src/Mcp/Tests/Meta.antt =====
-- mcp/client-meta.ts at concrete keys.
use mathlib.Core.Bool.{false≢true}
use encore_mcp_base.Base.{◌≡◌, refl, true, false, inl, none, some}
use encore_mcp_base.Mcp.Json.{Json, object, string, field, no_fields, null}
use encore_mcp_base.Base.Split.{split}
use encore_mcp_base.OAuth.Header.{same_scheme}
use encore_mcp_base.Mcp.ClientMeta.{
  matches_label, matches_name, valid_prefix, valid_meta_key, reserved_mcp_prefix, meta_key_error,
  validate_client_meta, request_meta_error, notification_meta_error,
}
use encore_mcp_base.Mcp.ClientMeta.Accepted.{IsAllowedMeta, notification_meta_error_iff}
use encore_mcp_base.Mcp.ClientMeta.Keys.{valid_meta_key_iff, reserved_mcp_prefix_iff}

meta : Unit {0}
unfolding matches_label matches_name valid_prefix valid_meta_key reserved_mcp_prefix meta_key_error
    validate_client_meta request_meta_error notification_meta_error split same_scheme
meta = tt

valid_keys :
    (valid_meta_key "example.com/trace-id" ≡ true)
    × (valid_meta_key "trace." ≡ false)
    × (valid_meta_key "1.com/x" ≡ false)
    × (valid_meta_key "a.b/" ≡ true)
    × (valid_meta_key "" ≡ true)
    × (valid_meta_key "/x" ≡ false)
unfolding meta
valid_keys = (refl, refl, refl, refl, refl, refl)

reserved_keys :
    (reserved_mcp_prefix "io.MCP/x" ≡ true)
    × (reserved_mcp_prefix "mcp/x" ≡ false)
    × (reserved_mcp_prefix "io.mcp" ≡ false)
unfolding meta
reserved_keys = (refl, refl, refl)

abbrev trace : Json
trace = object (field "example.com/trace" (string "t") (field "progressToken" null no_fields))

progress_token :
    request_meta_error (some trace) "tools/call"
    ≡ some "tools/call progressToken must be a string or finite number"
unfolding meta
progress_token = refl

trace_allowed : IsAllowedMeta (some trace)
unfolding meta
trace_allowed = (
  (
    (valid_meta_key_iff "example.com/trace").0 refl,
    inl (λ r. false≢true ((reserved_mcp_prefix_iff "example.com/trace").1 r)),
  ),
  (
    (
      (valid_meta_key_iff "progressToken").0 refl,
      inl (λ r. false≢true ((reserved_mcp_prefix_iff "progressToken").1 r)),
    ),
    tt,
  ),
)

notification_meta_error_iff_example : notification_meta_error (some trace) "cancelled" ≡ none
notification_meta_error_iff_example =
    (notification_meta_error_iff (some trace) "cancelled").1 trace_allowed
