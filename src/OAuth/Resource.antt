-- ===== src/OAuth/Resource.antt =====
-- auth/oauth-resource.ts: the resource that a request is for. `new URL` is the parameter
-- `parse_url`, which gives nothing where the constructor throws.
pub mod Laws
pub mod Slash
use Prim.Native.String
use encore_mcp_base.Base.{
  ℕ, String, Bool, true, false, not, ◌&&◌, ◌||◌, Option, none, some, List, [], ◌∷◌, Result, ok, err,
  throw_if, or_throw, service_error, invalid_target, Thrown, truthy, is_some, nat_eq, length, any,
  codes, ◌==◌, if◌then◌else◌, ◌>>=◌, ◌>>◌,
}
use encore_mcp_base.OAuth.Clients.{OAuthClient}
use Prim.Native.Char.{code}

-- What the source reads of a `URL`.
pub record Url : Type 0 where
  pub protocol : String
  pub username : String
  pub password : String
  pub hash : String
  pub hostname : String
  pub href : String

abbrev pub invalid_target_error : String → Thrown
invalid_target_error m = service_error invalid_target m 400

-- `s.replace(/\/$/, "")`
unfoldable pub without_last_slash : String → String
without_last_slash String.[] = String.[]
without_last_slash (String.◌∷◌ c String.[]) =
    if nat_eq (code c) b'/' then String.[] else String.◌∷◌ c String.[]
without_last_slash (String.◌∷◌ c (String.◌∷◌ d s)) =
    String.◌∷◌ c (without_last_slash (String.◌∷◌ d s))

abbrev pub present : String → Bool
present s = is_some (truthy (some s))

unfoldable pub default_actions_resource : OAuthClient → Option String
default_actions_resource client = elim client.allowed_resources [
  | (r ∷ []) ↦ if client.client_class == "gpt-actions" then some r else none
  | _ ↦ none
]

unfoldable pub resolve_grant_resource : OAuthClient → Option String → Result String
resolve_grant_resource client (some resource) =
    or_throw (truthy (some resource)) (invalid_target_error "resource is required")
resolve_grant_resource client none =
    or_throw (truthy (default_actions_resource client))
      (invalid_target_error "resource is required")

module _ (parse_url : String → Option Url) where
  unfoldable pub canonical_resource : String → Result String
  canonical_resource resource = do
    url ← or_throw (parse_url resource) (invalid_target_error "resource is invalid")
    throw_if (not (url.protocol == "https:") && not (url.protocol == "http:"))
        (invalid_target_error "resource is invalid")
    throw_if (present url.username || present url.password || present url.hash)
        (invalid_target_error "resource is invalid")
    throw_if (any (λ c. nat_eq c b'*') (codes resource))
        (invalid_target_error "resource is invalid")
    ok (without_last_slash url.href)

  -- `allowedResources.find(...)`, whose callback can throw.
  unfoldable pub find_allowed : String → List String → Result (Option String)
  find_allowed canonical [] = ok none
  find_allowed canonical (r ∷ rs) = do
    let rest = find_allowed canonical rs
    c ← canonical_resource r
    if c == canonical then ok (some r) else rest

  unfoldable pub resolve_allowed_resource : OAuthClient → String → Result String
  resolve_allowed_resource client resource = do
    canonical ← canonical_resource resource
    allowed ← find_allowed canonical client.allowed_resources
    -- An empty allowed resource counts as none.
    or_throw (truthy allowed) (invalid_target_error "resource is not allowed")

  -- `resolveOAuthAuthorizationResource`, and `resolveOAuthGrantResource` with the same body
  unfoldable pub resolve_oauth_resource : OAuthClient → Option String → Result String
  resolve_oauth_resource client resource = do
    wanted ← resolve_grant_resource client resource
    resolve_allowed_resource client wanted
