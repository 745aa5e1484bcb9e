-- ===== src/OAuth/Header.antt =====
-- auth/authorization-header.ts and basic-credentials.ts: the credentials of an Authorization
-- header. Of `toLowerCase` only ASCII letters matter, since a scheme is of ASCII characters. The
-- decoding of base64 and UTF-8 and `decodeURIComponent` are parameters; where one of them throws,
-- it gives nothing.
pub mod Trimmed
use Prim.Native.Char.{Char, code}
use encore_mcp_base.Base.{
  ℕ, ◌+◌, ◌%◌, String, Bool, true, false, not, ◌&&◌, ◌||◌, Option, none, some, List, [], ◌∷◌,
  Result, throw_if, or_throw, bad_request_error, Thrown, truthy, is_some, nat_eq, leb, ltb, length,
  all, any, codes, is_alphanumeric, if◌then◌else◌,
}
use encore_mcp_base.Base.Dict.{map_some}

-- White space as `trim` takes it.
unfoldable pub is_white : ℕ → Bool
is_white c =
    (leb 9 c && leb c 13)
    || nat_eq c 32
    || nat_eq c 0xa0
    || nat_eq c 0x1680
    || (leb 0x2000 c && leb c 0x200a)
    || nat_eq c 0x2028
    || nat_eq c 0x2029
    || nat_eq c 0x202f
    || nat_eq c 0x205f
    || nat_eq c 0x3000
    || nat_eq c 0xfeff

-- A text without its longest start of such characters.
abbrev pub skip : (ℕ → Bool) → String → String
skip p String.[] = String.[]
skip p (String.◌∷◌ c s) = let rest = skip p s in if p (code c) then rest else String.◌∷◌ c s

-- That start.
abbrev pub start : (ℕ → Bool) → String → String
start p String.[] = String.[]
start p (String.◌∷◌ c s) =
    let rest = start p s in if p (code c) then String.◌∷◌ c rest else String.[]

-- A character before a text, unless both are nothing but white space.
abbrev pub onto_trimmed : Char → String → String
onto_trimmed c String.[] = if is_white (code c) then String.[] else String.◌∷◌ c String.[]
onto_trimmed c (String.◌∷◌ d s) = String.◌∷◌ c (String.◌∷◌ d s)

abbrev pub trim_end : String → String
trim_end String.[] = String.[]
trim_end (String.◌∷◌ c s) = onto_trimmed c (trim_end s)

unfoldable pub trim : String → String
unfolding is_white
trim s = trim_end (skip is_white s)

-- `[!#$%&'*+\-.^_`|~0-9A-Za-z]`
abbrev pub is_token_char : ℕ → Bool
is_token_char c = is_alphanumeric c || any (nat_eq c) (codes "!#$%&'*+-.^_`|~")

abbrev pub is_blank : ℕ → Bool
is_blank c = nat_eq c 32 || nat_eq c 9

-- What `.` of a pattern matches.
abbrev pub is_not_newline : ℕ → Bool
is_not_newline c = not (nat_eq c 10 || nat_eq c 13 || nat_eq c 0x2028 || nat_eq c 0x2029)

abbrev lower : ℕ → ℕ
lower c = if leb b'A' c && leb c b'Z' then c + 32 else c

abbrev same_codes : List ℕ → List ℕ → Bool
same_codes [] [] = true
same_codes [] (d ∷ ds) = false
same_codes (c ∷ cs) [] = false
same_codes (c ∷ cs) (d ∷ ds) = nat_eq (lower c) (lower d) && same_codes cs ds

-- `s.toLowerCase() === t.toLowerCase()` for texts of ASCII characters
unfoldable pub same_scheme : String → String → Bool
same_scheme s t = same_codes (codes s) (codes t)

-- What stands behind a scheme: blanks, then credentials. If nothing follows the blanks, the last
-- of several is what the pattern takes, and trimmed it is empty.
unfoldable pub credentials_behind : String → Option String
unfolding trim is_white
credentials_behind rest =
    if not (nat_eq (length (codes (start is_blank rest))) 0)
      && all is_not_newline (codes (skip is_blank rest))
    then truthy (some (trim (skip is_blank rest)))
    else none

unfoldable pub authorization_credentials : Option String → String → Option String
unfolding same_scheme credentials_behind
authorization_credentials header scheme = elim (truthy header) [
  | none ↦ none
  | some h ↦
      if is_some (truthy (some (start is_token_char h)))
        && same_scheme (start is_token_char h) scheme
      then credentials_behind (skip is_token_char h)
      else none
]

unfoldable pub read_authorization_credentials : Option String → String → Thrown → Result String
read_authorization_credentials header scheme error =
    or_throw (authorization_credentials header scheme) error

-- `duplicateRawAuthorizationHeader`: names and values of the raw headers take turns.
abbrev pub authorization_headers : List String → ℕ
authorization_headers [] = 0
authorization_headers (name ∷ []) = if same_scheme name "authorization" then 1 else 0
authorization_headers (name ∷ value ∷ rest) =
    (if same_scheme name "authorization" then 1 else 0) + authorization_headers rest

unfoldable pub validate_single_authorization_header : List String → Result (Unit {0})
unfolding same_scheme
validate_single_authorization_header raw_headers =
    throw_if (ltb 1 (authorization_headers raw_headers))
      (bad_request_error "duplicate authorization header")

pub record BasicCredentials : Type 0 where
  pub client_id : String
  pub client_secret : String

abbrev is_base64_char : ℕ → Bool
is_base64_char c = is_alphanumeric c || nat_eq c b'+' || nat_eq c b'/'

-- `^[A-Za-z0-9+/]+={0,2}$`, with at least `least` of the padding
abbrev matches_base64 : ℕ → String → Bool
matches_base64 least s =
    is_some (truthy (some (start is_base64_char s)))
    && all (λ c. nat_eq c b'=') (codes (skip is_base64_char s))
    && leb least (length (codes (skip is_base64_char s)))
    && leb (length (codes (skip is_base64_char s))) 2

unfoldable pub valid_base64 : String → Bool
valid_base64 s =
    if not (matches_base64 0 s) || nat_eq (length (codes s) % 4) 1
    then false
    else not (any (λ c. nat_eq c b'=') (codes s))
      || (nat_eq (length (codes s) % 4) 0 && matches_base64 1 s)

-- The parts of a text before and behind its first colon.
abbrev before_colon : String → String
before_colon s = start (λ c. not (nat_eq c b':')) s

abbrev behind_colon : String → Option String
behind_colon s = elim (skip (λ c. not (nat_eq c b':')) s) [
  | String.[] ↦ none
  | (String.◌∷◌ c t) ↦ some t
]

module _ (decode_base64 decode_uri_component : String → Option String) where
  unfoldable pub decode_basic_credentials : String → Option BasicCredentials
  decode_basic_credentials credentials =
      if not (valid_base64 credentials) then none else elim (decode_base64 credentials) [
        | none ↦ none
        | some decoded ↦ elim (behind_colon decoded) [
          | none ↦ none
          | some secret ↦
              if is_some (truthy (some (before_colon decoded)))
              then elim (decode_uri_component (before_colon decoded)) [
                | none ↦ none
                | some id ↦
                    map_some (λ secret. record { client_id = id; client_secret = secret })
                      (decode_uri_component secret)
              ]
              else none
        ]
      ]
