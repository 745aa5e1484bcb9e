-- ===== src/Mcp/ClientMeta/Accepted.antt =====
-- Which `_meta` mcp/client-meta.ts accepts.
use mathlib.Core.Bool.{false≢true}
use encore_mcp_base.Base.{
  eq_iff, sym, ◌∙◌, Bool-cases, String, ◌≡◌, refl, ◌↔◌, ◌⊎◌, inl, inr, true, false, Option, none,
  some, List, [], ◌∷◌, arith, All, Option-cases,
}
use encore_mcp_base.Mcp.Json.{Json, null, boolean, number, string, array, object, names}
use encore_mcp_base.Mcp.ClientMeta.Keys.{
  IsKey, IsReserved, valid_meta_key_iff, reserved_mcp_prefix_iff,
}
use encore_mcp_base.Mcp.ClientMeta.{
  valid_meta_key, reserved_mcp_prefix, ignored_task_metadata_key, meta_key_error,
  validate_client_meta, notification_meta_error,
}

-- A key that a client may use.
abbrev pub IsAllowedKey : String → Type 0
IsAllowedKey key = IsKey key × ((¬ IsReserved key) ⊎ (key ≡ "io.modelcontextprotocol/related-task"))

IsAllowedKey-iff :
    (key : String)
    → ((valid_meta_key key ≡ true)
        × ((reserved_mcp_prefix key ≡ false) ⊎ (ignored_task_metadata_key key ≡ true)))
      ↔ IsAllowedKey key
IsAllowedKey-iff key =
    let valid = valid_meta_key_iff key in
    let reserved = reserved_mcp_prefix_iff key in
    let task = eq_iff key "io.modelcontextprotocol/related-task" in
    (
      λ h. (
        valid.0 h.0,
        elim h.1 [
          | inl free ↦ inl (λ r. false≢true (sym free ∙ reserved.1 r))
          | inr ignored ↦ inr (task.0 ignored)
        ],
      ),
      λ h. (
        valid.1 h.0,
        elim h.1 [
          | inr ignored ↦ inr (task.1 ignored)
          | inl free ↦ elim (Bool-cases (reserved_mcp_prefix key)) [
            | inl taken ↦ absurd (free (reserved.0 taken))
            | inr open_key ↦ inl open_key
          ]
        ],
      ),
    )

meta_key_error_iff :
    (context : String) (keys : List String)
    → (meta_key_error context keys ≡ none) ↔ All IsAllowedKey keys
unfolding meta_key_error
meta_key_error_iff context [] = (λ h. tt, λ h. refl)
meta_key_error_iff context (key ∷ keys) =
    let rest = meta_key_error_iff context keys in
    let allowed = IsAllowedKey-iff key in
    (
      λ h. (allowed.0 (ground arith), rest.0 (ground arith)),
      λ h. let tests = allowed.1 h.0 in let others = rest.1 h.1 in ground (arith, tests, others),
    )

-- What a notification may carry: no `_meta`, or an object whose keys are all allowed.
abbrev pub IsAllowedMeta : Option Json → Type 0
IsAllowedMeta none = Unit {0}
IsAllowedMeta (some (object fields)) = All IsAllowedKey (names fields)
IsAllowedMeta (some value) = ⊥

-- The `_meta` of a notification is accepted exactly if it is absent, or an object each key of which
-- is a name without a slash, or a prefix of labels with points between them, a slash and a name; and
-- the second label is not "modelcontextprotocol" or "mcp" in any case, unless the key is
-- "io.modelcontextprotocol/related-task". A label begins with a letter, ends in a letter or a digit
-- and may have hyphens inside; a name is empty, or begins and ends with a letter or a digit and may
-- have points, underscores and hyphens inside.
pub notification_meta_error_iff :
    (value : Option Json) (context : String)
    → (notification_meta_error value context ≡ none) ↔ IsAllowedMeta value
unfolding notification_meta_error validate_client_meta
notification_meta_error_iff none context = (λ h. tt, λ h. refl)
notification_meta_error_iff (some null) context = ground (arith)
notification_meta_error_iff (some (boolean b)) context = ground (arith)
notification_meta_error_iff (some (number n)) context = ground (arith)
notification_meta_error_iff (some (string s)) context = ground (arith)
notification_meta_error_iff (some (array items)) context = ground (arith)
notification_meta_error_iff (some (object fields)) context =
    elim (Option-cases (meta_key_error context (names fields))) [
      | inl eq ↦ ground (arith, eq, meta_key_error_iff context (names fields))
      | inr (message, eq) ↦ ground (arith, eq, meta_key_error_iff context (names fields))
    ]
