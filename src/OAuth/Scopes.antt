-- ===== src/OAuth/Scopes.antt =====
-- auth/scopes.ts: the scopes of a request.
pub mod Laws
use Prim.Native.Char.{char}
use encore_mcp_base.Base.{
  ℕ, String, Bool, true, false, not, ◌&&◌, ◌||◌, Option, none, some, List, [], ◌∷◌, ◌++◌, Result,
  ok, err, ◌>>=◌, ◌>>◌, throw_if, service_error, invalid_scope, nat_eq, ltb, length,
  is_alphanumeric, codes, contains, keep, all, if◌then◌else◌,
}
use encore_mcp_base.Base.Split.{split, distinct}

abbrev pub auth_session_scopes : List String
auth_session_scopes = "openid" ∷ []

abbrev pub identity_profile_scopes : List String
identity_profile_scopes = "openid" ∷ "profile" ∷ "email" ∷ []

abbrev pub default_scopes : List String
default_scopes = identity_profile_scopes

abbrev pub mcp_protected_resource_scopes : List String
mcp_protected_resource_scopes = distinct (auth_session_scopes ++ identity_profile_scopes)

-- [A-Za-z0-9:_./-]
unfoldable pub is_scope_char : ℕ → Bool
is_scope_char c =
    is_alphanumeric c
    || nat_eq c b':'
    || nat_eq c b'_'
    || nat_eq c b'.'
    || nat_eq c b'/'
    || nat_eq c b'-'

-- The rest of a text that matches `scopeListPattern`, behind a character of the class: to its end
-- stand characters of the class, and single spaces with such a character behind each.
abbrev pub matches_scope_rest : List ℕ → Bool
matches_scope_rest [] = true
matches_scope_rest (c ∷ []) = is_scope_char c
matches_scope_rest (c ∷ d ∷ cs) =
    let rest = matches_scope_rest (d ∷ cs) in
    if is_scope_char c then rest else nat_eq c b' ' && is_scope_char d && rest

-- `scopeListPattern`
unfoldable pub matches_scope_list : String → Bool
matches_scope_list s = elim (codes s) [
  | [] ↦ false
  | (c ∷ cs) ↦ is_scope_char c && matches_scope_rest cs
]

unfoldable pub parse_scopes : Option String → Result (List String)
parse_scopes none = ok default_scopes
parse_scopes (some input) = do
  throw_if (not (matches_scope_list input)) (service_error invalid_scope "scope is invalid" 400)
  ok (distinct (split b' ' input))

unfoldable pub assert_allowed_scopes : List String → List String → Result (Unit {0})
assert_allowed_scopes requested allowed =
    throw_if (ltb 0 (length (keep (λ scope. not (contains allowed scope)) requested)))
      (service_error invalid_scope "requested scope is not allowed" 400)

unfoldable pub has_scopes : List String → List String → Bool
has_scopes actual required = all (contains actual) required
