-- ===== src/Mcp/Pagination.antt =====
-- mcp/pagination.ts: the pages of a list. `JSON.stringify` in base64url is the parameter `encode`,
-- and `JSON.parse` of such a text the parameter `decode`, which gives nothing where it throws.
pub mod Complete
use Prim.Native.String
use encore_mcp_base.Base.{
  ℕ, zero, suc, ◌+◌, String, Bool, true, false, not, ◌&&◌, ◌||◌, Option, none, some, List, [], ◌∷◌,
  Result, ok, err, ◌>>=◌, ◌>>◌, throw_if, or_throw, Thrown, protocol, minus, ℤ, pos, negsuc, leb,
  ltb, nat_eq, length, all, take, drop, codes, is_alphanumeric, ◌==◌, if◌then◌else◌,
}
use encore_mcp_base.Mcp.Json.{
  Json, object, string, number, JsNumber, safe_integer, Fields, no_fields, field, get_field,
  as_object,
}
use encore_mcp_base.Mcp.Methods.{Handlers, optional_method_params}

abbrev pub cursor_version : ℕ
cursor_version = 1

abbrev pub max_cursor_length : ℕ
max_cursor_length = 256

abbrev pub invalid_cursor : Thrown
invalid_cursor = protocol (minus 32602) "invalid cursor"

abbrev is_cursor_char : ℕ → Bool
is_cursor_char c = is_alphanumeric c || nat_eq c b'_' || nat_eq c b'-'

-- The length and the pattern of a cursor.
unfoldable pub is_cursor_text : String → Bool
is_cursor_text cursor =
    ltb 0 (length (codes cursor))
    && leb (length (codes cursor)) max_cursor_length
    && all is_cursor_char (codes cursor)

-- `{ v, m, o }`
abbrev pub cursor_json : String → ℕ → Json
cursor_json method offset = object (
    field "v" (number (safe_integer (pos cursor_version)))
      (field "m" (string method) (field "o" (number (safe_integer (pos offset))) no_fields)))

abbrev is_version : Option Json → Bool
is_version (some (number (safe_integer (pos n)))) = nat_eq n cursor_version
is_version value = false

abbrev is_method : String → Option Json → Bool
is_method method (some (string s)) = s == method
is_method method value = false

-- A safe integer that is positive.
abbrev positive_offset : Option Json → Option ℕ
positive_offset (some (number (safe_integer (pos (suc n))))) = some (suc n)
positive_offset value = none

pub record Page {ℓ} (T : Type ℓ) : Type ℓ where
  pub items : List T
  pub next_cursor : Option String

module _ (encode : Json → String) (decode : String → Option Json) where
  unfoldable pub decode_cursor : String → String → Result ℕ
  decode_cursor cursor method = do
    throw_if (not (is_cursor_text cursor)) invalid_cursor
    value ← or_throw (decode cursor) invalid_cursor
    fields ← or_throw (as_object value) invalid_cursor
    throw_if
        (not (is_version (get_field "v" fields)) || not (is_method method (get_field "m" fields)))
        invalid_cursor
    or_throw (positive_offset (get_field "o" fields)) invalid_cursor

  unfoldable pub cursor_offset : Option Json → String → ℕ → Result ℕ
  cursor_offset none method item_count = ok 0
  cursor_offset (some (string cursor)) method item_count = do
    offset ← decode_cursor cursor method
    throw_if (leb item_count offset) invalid_cursor
    ok offset
  cursor_offset (some value) method item_count =
      err (protocol (minus 32602) (String.◌++◌ method " cursor must be a string"))

  abbrev pub cursor_field : Option Fields → Option Json
  cursor_field none = none
  cursor_field (some fields) = get_field "cursor" fields

  -- The page is the field that `resultKey` names.
  unfoldable pub paginated_list :
      {T : Type 0} → Handlers → Option Fields → String → List T → ℕ → Result (Page T)
  paginated_list handlers params method items page_size = do
    fields ← optional_method_params handlers params method ("_meta" ∷ "cursor" ∷ [])
    offset ← cursor_offset (cursor_field fields) method (length items)
    ok (record {
      items = take page_size (drop offset items);
      next_cursor =
          if ltb (offset + page_size) (length items)
          then some (encode (cursor_json method (offset + page_size)))
          else none;
    })
