-- ===== src/Mcp/ClientMeta.antt =====
-- mcp/client-meta.ts: the `_meta` of a message. `toLowerCase` is that of ASCII letters, which are
-- all that the labels of a valid key have.
pub mod Accepted
pub mod Keys
pub mod Patterns
use Prim.Native.Char.{Char, code}
use Prim.Native.String
use encore_mcp_base.Base.{
  ℕ, ◌+◌, String, Bool, true, false, not, ◌&&◌, ◌||◌, Option, none, some, List, [], ◌∷◌, leb,
  nat_eq, all, any, is_some, truthy, codes, is_alphanumeric, ◌==◌, if◌then◌else◌,
}
use encore_mcp_base.Base.Split.{split}
use encore_mcp_base.Mcp.Json.{
  Json, object, string, number, JsNumber, infinite, Fields, names, get_field, as_object,
}
use encore_mcp_base.OAuth.Header.{same_scheme, start, skip}

abbrev pub is_letter : ℕ → Bool
is_letter c = (leb b'A' c && leb c b'Z') || (leb b'a' c && leb c b'z')

-- The last of a list passes the test, and all pass the other.
abbrev pub ends_in : (ℕ → Bool) → (ℕ → Bool) → List ℕ → Bool
ends_in inner last [] = false
ends_in inner last (c ∷ []) = last c
ends_in inner last (c ∷ d ∷ cs) = let rest = ends_in inner last (d ∷ cs) in inner c && rest

abbrev pub is_label_char : ℕ → Bool
is_label_char c = is_alphanumeric c || nat_eq c b'-'

abbrev pub is_label : List ℕ → Bool
is_label [] = false
is_label (c ∷ []) = is_letter c
is_label (c ∷ d ∷ cs) = is_letter c && ends_in is_label_char is_alphanumeric (d ∷ cs)

-- `labelPattern`
unfoldable pub matches_label : String → Bool
matches_label s = is_label (codes s)

abbrev pub is_name_char : ℕ → Bool
is_name_char c = is_alphanumeric c || nat_eq c b'.' || nat_eq c b'_' || nat_eq c b'-'

abbrev pub is_name : List ℕ → Bool
is_name [] = true
is_name (c ∷ []) = is_alphanumeric c
is_name (c ∷ d ∷ cs) = is_alphanumeric c && ends_in is_name_char is_alphanumeric (d ∷ cs)

-- `namePattern`
unfoldable pub matches_name : String → Bool
matches_name s = is_name (codes s)

-- The text before the first slash, and behind it if there is one.
abbrev pub before_slash : String → String
before_slash s = start (λ c. not (nat_eq c b'/')) s

abbrev pub behind_slash : String → Option String
behind_slash s = elim (skip (λ c. not (nat_eq c b'/')) s) [
  | String.[] ↦ none
  | (String.◌∷◌ c t) ↦ some t
]

unfoldable pub valid_prefix : String → Bool
valid_prefix prefix = is_some (truthy (some prefix)) && all matches_label (split b'.' prefix)

abbrev pub valid_parts : String → Option String → Bool
valid_parts key none = matches_name key
valid_parts key (some name) = valid_prefix (before_slash key) && matches_name name

unfoldable pub valid_meta_key : String → Bool
valid_meta_key key = valid_parts key (behind_slash key)

abbrev pub is_mcp_label : List String → Bool
is_mcp_label (first ∷ second ∷ rest) =
    same_scheme second "modelcontextprotocol" || same_scheme second "mcp"
is_mcp_label labels = false

abbrev pub reserved_parts : String → Option String → Bool
reserved_parts key none = false
reserved_parts key (some name) = is_mcp_label (split b'.' (before_slash key))

unfoldable pub reserved_mcp_prefix : String → Bool
reserved_mcp_prefix key = reserved_parts key (behind_slash key)

abbrev pub ignored_task_metadata_key : String → Bool
ignored_task_metadata_key key = key == "io.modelcontextprotocol/related-task"

abbrev pub with_context : String → String → String
with_context context rest = String.◌++◌ context rest

-- The loop over the keys: the first message, if there is one.
unfoldable pub meta_key_error : String → List String → Option String
meta_key_error context [] = none
meta_key_error context (key ∷ keys) =
    let rest = meta_key_error context keys in
    if not (valid_meta_key key)
    then some (with_context context " _meta key has invalid format")
    else if reserved_mcp_prefix key && not (ignored_task_metadata_key key)
    then some (with_context context " _meta key uses reserved MCP prefix")
    else rest

-- A message, or what `_meta` is.
pub data Meta : Type 0 where
  wrong : String → Meta
  absent : Meta
  present : Fields → Meta

unfoldable pub validate_client_meta : Option Json → String → Meta
validate_client_meta none context = absent
validate_client_meta (some value) context = elim (as_object value) [
  | none ↦ wrong (with_context context " _meta must be an object")
  | some fields ↦ elim (meta_key_error context (names fields)) [
    | some message ↦ wrong message
    | none ↦ present fields
  ]
]

-- A text, or a finite number.
abbrev is_progress_token : Json → Bool
is_progress_token (string s) = true
is_progress_token (number infinite) = false
is_progress_token (number n) = true
is_progress_token value = false

unfoldable pub request_meta_error : Option Json → String → Option String
request_meta_error value context = elim (validate_client_meta value context) [
  | wrong message ↦ some message
  | absent ↦ none
  | present meta ↦ elim (get_field "progressToken" meta) [
    | none ↦ none
    | some token ↦
        if is_progress_token token
        then none
        else some (with_context context " progressToken must be a string or finite number")
  ]
]

unfoldable pub notification_meta_error : Option Json → String → Option String
notification_meta_error value context = elim (validate_client_meta value context) [
  | wrong message ↦ some message
  | absent ↦ none
  | present meta ↦ none
]
