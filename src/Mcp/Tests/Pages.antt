-- ===== src/Mcp/Tests/Pages.antt =====
-- mcp/pagination.ts at a list of three items, with a table for the encoding of the cursors.
use encore_mcp_base.Base.{
  ℕ, zero, suc, ◌<◌, String, ◌≡◌, refl, Option, none, some, List, [], ◌∷◌, ok, arith, true, ◌==◌,
  if◌then◌else◌, pos,
}
use encore_mcp_base.Mcp.Json.{Json, object, get_field, number, safe_integer}
use encore_mcp_base.Mcp.Methods.{optional_method_params, validate_method_params}
use encore_mcp_base.Mcp.Pagination.{
  is_cursor_text, cursor_json, decode_cursor, cursor_offset, paginated_list,
}
use encore_mcp_base.Mcp.Pagination.Complete.{follow, follow_all}
use encore_mcp_base.Mcp.Tests.{handlers}

abbrev letter : ℕ → String
letter zero = "a"
letter (suc zero) = "b"
letter (suc (suc n)) = "c"

abbrev encode_number : Option Json → String
encode_number (some (number (safe_integer (pos n)))) = letter n
encode_number value = ""

abbrev encode : Json → String
encode (object fields) = encode_number (get_field "o" fields)
encode value = ""

abbrev decode : String → Option Json
decode s =
    if s == "a"
    then some (cursor_json "tools/list" 0)
    else if s == "b"
    then some (cursor_json "tools/list" 1)
    else some (cursor_json "tools/list" 2)

abbrev items : List String
items = "x" ∷ "y" ∷ "z" ∷ []

pages : Unit {0}
unfolding is_cursor_text decode_cursor cursor_offset paginated_list optional_method_params
    validate_method_params follow
pages = tt

page_tests : follow encode decode handlers "tools/list" items 2 4 none ≡ ok items
unfolding pages
page_tests = refl

table-is_text :
    (offset : ℕ) → offset < 3 → is_cursor_text (encode (cursor_json "tools/list" offset)) ≡ true
unfolding pages
table-is_text zero h = refl
table-is_text (suc zero) h = refl
table-is_text (suc (suc n)) h = refl

table-read_back :
    (offset : ℕ)
    → offset < 3
    → decode (encode (cursor_json "tools/list" offset)) ≡ some (cursor_json "tools/list" offset)
table-read_back zero h = refl
table-read_back (suc zero) h = refl
table-read_back (suc (suc zero)) h = refl
table-read_back (suc (suc (suc n))) h = absurd (omega (arith, h))

follow_all_example : follow encode decode handlers "tools/list" items 2 4 none ≡ ok items
follow_all_example =
    follow_all encode decode handlers "tools/list" items 2
      (record { no_meta = refl; is_text = table-is_text; read_back = table-read_back })
      (omega arith) 4 (omega arith)
