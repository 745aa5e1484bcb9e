-- ===== src/Store/Profile.antt =====
-- auth/user-profile.ts: the profile of a user, validated from a JSON value. Its plain errors are
-- `other` with their messages.
pub mod Again
use Prim.Native.String
use encore_mcp_base.Base.{
  ℕ, String, Bool, true, false, not, ◌&&◌, ◌||◌, Option, none, some, List, [], ◌∷◌, Result, ok, err,
  ◌>>=◌, ◌>>◌, throw_if, or_throw, or_else, Thrown, other, ltb, nat_eq, all, any, codes,
  utf16_length, is_some, truthy, if◌then◌else◌, ◌==◌,
}
use encore_mcp_base.Base.Split.{split}
use encore_mcp_base.Mcp.Json.{
  Json, null, boolean, string, object, Fields, no_fields, field, get_field, as_object,
}
use encore_mcp_base.OAuth.Header.{is_white, trim}
use encore_mcp_base.Store.Records.{UserProfile}

abbrev pub message : String → String → Thrown
message name rest = other (String.◌++◌ name rest)

abbrev pub profile_error : Thrown
profile_error = other "user profile is malformed"

-- [\r\n]
abbrev pub is_line_break : ℕ → Bool
is_line_break c = nat_eq c 13 || nat_eq c 10

-- A text of a claim, trimmed; nothing is left of a blank one.
unfoldable pub trimmed_claim : String → String → Result (Option String)
trimmed_claim s name = elim (truthy (some (trim s))) [
  | none ↦ ok none
  | some trimmed ↦ do
    throw_if (ltb 256 (utf16_length (codes trimmed)))
        (message name " must be at most 256 characters")
    throw_if (any is_line_break (codes trimmed)) (message name " cannot contain line breaks")
    ok (some trimmed)
]

unfoldable pub optional_profile_claim : Option Json → String → Result (Option String)
optional_profile_claim none name = ok none
optional_profile_claim (some null) name = ok none
optional_profile_claim (some (string s)) name = trimmed_claim s name
optional_profile_claim (some value) name = err (message name " must be a string")

unfoldable pub required_profile_claim : Option Json → String → Result String
required_profile_claim value name = do
  parsed ← optional_profile_claim value name
  or_throw (truthy parsed) (message name " is required")

-- `[^\s@]+\.[^\s@]+` of characters that are none of white space and "@": a point that is neither
-- the first character nor the last.
abbrev point_before_end : List ℕ → Bool
point_before_end [] = false
point_before_end (c ∷ []) = false
point_before_end (c ∷ d ∷ cs) = let rest = point_before_end (d ∷ cs) in nat_eq c b'.' || rest

abbrev has_inner_point : List ℕ → Bool
has_inner_point [] = false
has_inner_point (c ∷ cs) = point_before_end cs

abbrev is_address : List String → Bool
is_address (user ∷ domain ∷ []) = is_some (truthy (some user)) && has_inner_point (codes domain)
is_address parts = false

unfoldable pub matches_email : String → Bool
matches_email s = all (λ c. not (is_white c)) (codes s) && is_address (split b'@' s)

unfoldable pub email_claim : Option Json → Result String
email_claim value = do
  email ← required_profile_claim value "email"
  throw_if (not (matches_email email)) (other "email must be an email address")
  ok email

unfoldable pub boolean_claim : Option Json → Result Bool
boolean_claim (some (boolean b)) = ok b
boolean_claim (some (string s)) =
    if s == "true"
    then ok true
    else if s == "false"
    then ok false
    else err (other "email_verified must be true or false")
boolean_claim none = err (other "email_verified is required")
boolean_claim (some null) = err (other "email_verified is required")
boolean_claim (some value) = err (other "email_verified must be true or false")

-- The name of who gives none.
abbrev pub full_name : String → String → String
full_name given_name family_name = trim (String.◌++◌ given_name (String.◌++◌ " " family_name))

unfoldable pub validate_user_profile : Json → Result UserProfile
validate_user_profile value = do
  claims ← or_throw (as_object value) profile_error
  given ← optional_profile_claim (get_field "given_name" claims) "given_name"
  family ← optional_profile_claim (get_field "family_name" claims) "family_name"
  email ← email_claim (get_field "email" claims)
  sub ← required_profile_claim (get_field "sub" claims) "sub"
  name ← optional_profile_claim (get_field "name" claims) "name"
  username ← optional_profile_claim (get_field "preferred_username" claims) "preferred_username"
  verified ← boolean_claim (get_field "email_verified" claims)
  let given_name = or_else given "Authenticated"
  let family_name = or_else family "User"
  ok (record {
    sub = sub;
    given_name = given_name;
    family_name = family_name;
    name = or_else name (full_name given_name family_name);
    preferred_username = or_else username email;
    email = email;
    email_verified = verified;
  })

-- A profile as a JSON value.
abbrev pub profile_value : UserProfile → Json
profile_value u = object (
    field "sub" (string u.sub) (
      field "given_name" (string u.given_name) (
        field "family_name" (string u.family_name) (
          field "name" (string u.name) (
            field "preferred_username" (string u.preferred_username) (
              field "email" (string u.email)
                (field "email_verified" (boolean u.email_verified) no_fields)))))))

module _ (parse_json : String → Option Json) (stringify : Json → String) where
  unfoldable pub user_profile_from_json : String → Result UserProfile
  user_profile_from_json text = elim (parse_json text) [
    | none ↦ err profile_error
    | some value ↦ elim (validate_user_profile value) [ err e ↦ err profile_error | ok u ↦ ok u ]
  ]

  unfoldable pub user_profile_json : UserProfile → Result String
  user_profile_json user = do
    checked ← validate_user_profile (profile_value user)
    ok (stringify (profile_value checked))
