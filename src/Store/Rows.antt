-- ===== src/Store/Rows.antt =====
-- auth/storage/store-row-primitives.ts and store-row-time.ts: how a field of a row of the store's
-- file is read. `parse_json` and `stringify` are JSON's. A number of a record is one that is a safe
-- integer.
pub mod Disk
pub mod Again
pub mod Whole
pub mod RoundTrip
pub mod Unreadable
pub mod Read
pub mod File
use Prim.Native.String
use encore_mcp_base.Base.{
  ℕ, String, Bool, true, false, not, ◌&&◌, Option, none, some, List, [], ◌∷◌, Result, ok, err,
  ◌>>=◌, ◌>>◌, throw_if, or_throw, Thrown, other, pos, ltb, any, contains, is_some, truthy,
  matches_class, if◌then◌else◌, ◌==◌,
}
use encore_mcp_base.Mcp.Json.{
  Json, string, number, safe_integer, array, object, Items, no_items, item, Fields, no_fields,
  field, names, get_field, as_object,
}
use encore_mcp_base.OAuth.Header.{trim}
use encore_mcp_base.OAuth.Jwt.{is_base64url_char}
use encore_mcp_base.OAuth.Pkce.{is_oidc_nonce}
use encore_mcp_base.Store.Records.{CodeChallengeMethod, s256}

-- `malformed()`
abbrev pub malformed_error : Thrown
malformed_error = other "store file is malformed"

-- `hashPattern`, also `mapKeyPattern`
unfoldable pub matches_hash : String → Bool
matches_hash s = matches_class is_base64url_char 43 43 s

-- `value.trim() !== ""`
unfoldable pub has_text : String → Bool
has_text s = is_some (truthy (some (trim s)))

unfoldable pub row : Json → List String → Result Fields
row value allowed = do
  record_ ← or_throw (as_object value) malformed_error
  throw_if (any (λ key. not (contains allowed key)) (names record_)) malformed_error
  ok record_

abbrev text_value : Option Json → Result String
text_value (some (string s)) = if has_text s then ok s else err malformed_error
text_value value = err malformed_error

unfoldable pub text : Fields → String → Result String
text record_ key = text_value (get_field key record_)

unfoldable pub optional_text : Fields → String → Result (Option String)
optional_text record_ key = elim (get_field key record_) [
  | none ↦ ok none
  | some value ↦ do s ← text_value (some value); ok (some s)
]

unfoldable pub hash : Fields → String → Result String
hash record_ key = do
  value ← text record_ key
  throw_if (not (matches_hash value)) malformed_error
  ok value

-- A further test of an optional text.
abbrev pub optional_matching : (String → Bool) → Fields → String → Result (Option String)
optional_matching test record_ key = optional_text record_ key >>= λ value. elim value [
  | none ↦ ok none
  | some s ↦ throw_if (not (test s)) malformed_error >> ok (some s)
]

unfoldable pub optional_hash : Fields → String → Result (Option String)
optional_hash record_ key = optional_matching matches_hash record_ key

-- `nonce` and `optionalNonce` of the rows
unfoldable pub nonce_text : Fields → String → Result String
nonce_text record_ key = do
  value ← text record_ key
  throw_if (not (is_oidc_nonce value)) malformed_error
  ok value

unfoldable pub optional_nonce : Fields → String → Result (Option String)
optional_nonce record_ key = optional_matching is_oidc_nonce record_ key

abbrev seconds_value : Option Json → Result ℕ
seconds_value (some (number (safe_integer (pos n)))) = ok n
seconds_value value = err malformed_error

unfoldable pub seconds : Fields → String → Result ℕ
seconds record_ key = seconds_value (get_field key record_)

unfoldable pub optional_seconds : Fields → String → Result (Option ℕ)
optional_seconds record_ key = elim (get_field key record_) [
  | none ↦ ok none
  | some value ↦ do n ← seconds_value (some value); ok (some n)
]

unfoldable pub auth_time : Fields → ℕ → Result ℕ
auth_time record_ created_at = do
  value ← seconds record_ "auth_time"
  throw_if (ltb created_at value) malformed_error
  ok value

unfoldable pub ordered_seconds : Fields → String → ℕ → Result ℕ
ordered_seconds record_ key minimum = do
  value ← seconds record_ key
  throw_if (ltb value minimum) malformed_error
  ok value

unfoldable pub optional_ordered_seconds : Fields → String → ℕ → Result (Option ℕ)
optional_ordered_seconds record_ key minimum = optional_seconds record_ key >>= λ value.
    elim value [ none ↦ ok none | some n ↦ throw_if (ltb n minimum) malformed_error >> ok (some n) ]

unfoldable pub method_s256 : Fields → String → Result (Option CodeChallengeMethod)
method_s256 record_ key = elim (get_field key record_) [
  | none ↦ ok none
  | some (string s) ↦ if s == "S256" then ok (some s256) else err malformed_error
  | some value ↦ err malformed_error
]

-- The texts of an array, each of which passes.
unfoldable pub texts_of : (String → Bool) → Items → Result (List String)
texts_of test no_items = ok []
texts_of test (item (string s) rest) =
    let more = texts_of test rest in
    if test s then more >>= (λ ss. ok (s ∷ ss)) else err malformed_error
texts_of test (item value rest) = err malformed_error

abbrev pub array_of : List String → Items
array_of [] = no_items
array_of (s ∷ ss) = item (string s) (array_of ss)

-- A JSON text of an array of texts.
unfoldable pub texts_json : (String → Option Json) → (String → Bool) → String → Result (List String)
texts_json parse_json test s = elim (parse_json s) [
  | some (array items) ↦ texts_of test items
  | value ↦ err malformed_error
]

unfoldable pub scopes : (String → Option Json) → Fields → Result (List String)
scopes parse_json record_ = do
  value ← text record_ "scopes_json"
  texts_json parse_json has_text value

abbrev pub scopes_json : (Json → String) → List String → String
scopes_json stringify values = stringify (array (array_of values))

-- A row from its fields, those that are `undefined` left out.
abbrev pub compact : List (String × Option Json) → Fields
compact [] = no_fields
compact ((key, none) ∷ more) = compact more
compact ((key, some value) ∷ more) = field key value (compact more)

abbrev pub string_field : Option String → Option Json
string_field none = none
string_field (some s) = some (string s)

abbrev pub number_of : ℕ → Json
number_of n = number (safe_integer (pos n))

abbrev pub number_field : Option ℕ → Option Json
number_field none = none
number_field (some n) = some (number_of n)

abbrev pub method_field : Option CodeChallengeMethod → Option Json
method_field none = none
method_field (some s256) = some (string "S256")
