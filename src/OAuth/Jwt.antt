-- ===== src/OAuth/Jwt.antt =====
-- auth/tokens/jwt.ts, the verifying half, and shared/base64url.ts. A public key is of a type that is
-- a parameter, and so are the decoding of base64url and UTF-8 with `JSON.parse`, which gives nothing
-- where one of them throws, and the check of a signature. The reason of a failure is not modelled.
use encore_mcp_base.Base.{
  ℕ, ◌+◌, String, Bool, false, not, ◌&&◌, ◌||◌, Option, none, some, List, [], ◌∷◌, Result, ◌>>=◌,
  ◌>>◌, throw_if, or_throw, Thrown, service_error, unauthorized, ℤ, pos, negsuc, leb, ltb, suc,
  nat_eq, all, codes, is_alphanumeric, matches_class, utf16_length, is_some, truthy, if◌then◌else◌,
  ◌==◌,
}
use encore_mcp_base.Base.Split.{split, join}
use encore_mcp_base.Mcp.Json.{Json, string, Fields, get_field, as_object}

-- `date + shift <= now` on whole seconds, where `date` may be negative.
abbrev pub falls_by : ℤ → ℕ → ℕ → Bool
falls_by (pos n) shift now = leb (n + shift) now
falls_by (negsuc n) shift now = leb shift (now + suc n)

abbrev pub jwt_error : Thrown
jwt_error = service_error unauthorized "invalid token" 401

-- [A-Za-z0-9_-]
abbrev pub is_base64url_char : ℕ → Bool
is_base64url_char c = is_alphanumeric c || nat_eq c b'_' || nat_eq c b'-'

-- [A-Za-z0-9._-]
abbrev pub is_key_id_char : ℕ → Bool
is_key_id_char c = is_base64url_char c || nat_eq c b'.'

abbrev pub is_text : Option Json → String → Bool
is_text (some (string s)) t = s == t
is_text value t = false

abbrev is_key_id : Option Json → Option String
is_key_id (some (string s)) = if matches_class is_key_id_char 1 128 s then some s else none
is_key_id value = none

-- `isHeader(value)`: the key id of the header, if it is one.
unfoldable pub header_kid : Json → Option String
header_kid value = elim (as_object value) [
  | none ↦ none
  | some header ↦
      if is_text (get_field "alg" header) "RS256"
        && (not (is_some (get_field "typ" header)) || is_text (get_field "typ" header) "JWT")
        && not (is_some (get_field "crit" header))
      then is_key_id (get_field "kid" header)
      else none
]

pub record JwtParts : Type 0 where
  pub header : String
  pub payload : String
  pub signature : String

abbrev three_parts : List String → Option JwtParts
three_parts (h ∷ p ∷ s ∷ []) =
    if is_some (truthy (some h)) && is_some (truthy (some p)) && is_some (truthy (some s))
    then some (record { header = h; payload = p; signature = s })
    else none
three_parts parts = none

unfoldable pub jwt_parts : String → Result JwtParts
jwt_parts token = do
  throw_if (ltb 8192 (utf16_length (codes token))) jwt_error
  or_throw (three_parts (split b'.' token)) jwt_error

module _ (parse_json : String → Option Json) where
  unfoldable pub decode_json_base64_url : String → Option Json
  decode_json_base64_url input =
      if all is_base64url_char (codes input) then parse_json input else none

  unfoldable pub jwt_kid : String → Result String
  jwt_kid token = do
    parts ← jwt_parts token
    header ← or_throw (decode_json_base64_url parts.header) jwt_error
    or_throw (header_kid header) jwt_error

  module _ {Key : Type 0} (verify_signature : Key → String → String → Bool) where
    unfoldable pub verify_jwt : String → Key → Result Fields
    verify_jwt token key = do
      parts ← jwt_parts token
      header ← or_throw (decode_json_base64_url parts.header) jwt_error
      kid ← or_throw (header_kid header) jwt_error
      throw_if
          (not
            (verify_signature key (join "." (parts.header ∷ parts.payload ∷ [])) parts.signature))
          jwt_error
      payload ← or_throw (decode_json_base64_url parts.payload) jwt_error
      or_throw (as_object payload) jwt_error
