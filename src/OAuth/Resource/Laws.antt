-- ===== src/OAuth/Resource/Laws.antt =====
-- What auth/oauth-resource.ts resolves a resource to.
use mathlib.Core.Path.{subst}
use mathlib.Core.Bool.{true≢false}
use encore_mcp_base.Base.{
  Bool, refl, ap, ◌∙◌, ◌⊎◌, ◌==◌, false, not, ◌&&◌, ◌||◌, any, codes, nat_eq, Bool-cases, some_inj,
  ok_inj, then-eq-ok, throw_if, String, ◌≡◌, true, Option, none, some, List, [], ◌∷◌, ok, arith,
  truthy, eq_iff, contains, bind-eq-ok, Result-cases, inl, inr, or_throw, Thrown,
}
use encore_mcp_base.OAuth.Clients.{OAuthClient}
use encore_mcp_base.OAuth.Resource.Slash.{IsWithoutLastSlash, without_last_slash-lem}
use encore_mcp_base.OAuth.Resource.{
  Url, invalid_target_error, present, canonical_resource, find_allowed, resolve_grant_resource,
  resolve_allowed_resource, resolve_oauth_resource, default_actions_resource,
}

pub truthy-some : (o : Option String) (s : String) → truthy o ≡ some s → o ≡ some s
truthy-some none s h = cc
truthy-some (some String.[]) s h = cc
truthy-some (some (String.◌∷◌ c t)) s h = h

pub or_throw-eq-ok :
    {A : Type 0} (o : Option A) (e : Thrown) (a : A) → or_throw o e ≡ ok a → o ≡ some a
or_throw-eq-ok none e a h = absurd (ground arith)
or_throw-eq-ok (some b) e a h = ap some (ok_inj h)

-- The resource that a request asks for: the one it names, or the only one of an actions client.
abbrev pub IsRequested : OAuthClient → Option String → String → Type 0
IsRequested client (some resource) wanted = resource ≡ wanted
IsRequested client none wanted =
    (client.allowed_resources ≡ wanted ∷ []) × (client.client_class ≡ "gpt-actions")

default_resource :
    (client : OAuthClient) (wanted : String)
    → default_actions_resource client ≡ some wanted
    → (client.allowed_resources ≡ wanted ∷ []) × (client.client_class ≡ "gpt-actions")
unfolding default_actions_resource
default_resource client wanted h = elim (listed client.allowed_resources) [
  | inl (r, only) ↦ elim (Bool-cases (client.client_class == "gpt-actions")) [
    | inl actions ↦
        let same : r ≡ wanted = ground (arith, only, actions) in
        (only ∙ ap (λ x. x ∷ []) same, (eq_iff client.client_class "gpt-actions").0 actions)
    | inr other ↦ absurd (ground (arith, only, other))
  ]
  | inr (inl no_one) ↦ absurd (ground (arith, no_one))
  | inr (inr (a, b, rest, several)) ↦ absurd (ground (arith, several))
]
  where
    listed :
        (l : List String)
        → ((r : String) × (l ≡ r ∷ []))
          ⊎ (l ≡ [])
          ⊎ ((a : String) × (b : String) × (rest : List String) × (l ≡ a ∷ b ∷ rest))
    listed [] = inr (inl refl)
    listed (r ∷ []) = inl (r, refl)
    listed (a ∷ b ∷ rest) = inr (inr (a, b, rest, refl))

resolve_grant_resource-lem :
    (client : OAuthClient) (resource : Option String) (wanted : String)
    → resolve_grant_resource client resource ≡ ok wanted
    → IsRequested client resource wanted
unfolding resolve_grant_resource
resolve_grant_resource-lem client none wanted h =
    default_resource client wanted (truthy-some _ wanted (or_throw-eq-ok _ _ wanted h))
resolve_grant_resource-lem client (some r) wanted h =
    some_inj (truthy-some (some r) wanted (or_throw-eq-ok _ _ wanted h))

passed :
    (test : Bool)
    → throw_if test (invalid_target_error "resource is invalid") ≡ ok tt
    → test ≡ false
passed false h = refl
passed true h = absurd (ground arith)

not_present : (s : String) → present s ≡ false → s ≡ ""
not_present String.[] h = refl
not_present (String.◌∷◌ c s) h = absurd (true≢false h)

web_protocol :
    (p : String)
    → (not (p == "https:") && not (p == "http:")) ≡ false
    → (p ≡ "https:") ⊎ (p ≡ "http:")
web_protocol p h = ground (arith, eq_iff p "https:", eq_iff p "http:")

module _ (parse_url : String → Option Url) where
  -- The canonical form of a resource: an absolute HTTP URL without credentials, fragment and
  -- asterisk, as the parser writes it, without its last slash.
  pub record IsCanonical (resource canonical : String) : Type 0 where
    pub url : Url
    pub parsed : parse_url resource ≡ some url
    pub web : (url.protocol ≡ "https:") ⊎ (url.protocol ≡ "http:")
    pub no_username : url.username ≡ ""
    pub no_password : url.password ≡ ""
    pub no_hash : url.hash ≡ ""
    pub no_asterisk : any (λ c. nat_eq c b'*') (codes resource) ≡ false
    pub written : IsWithoutLastSlash url.href canonical

  canonical_resource-IsCanonical :
      (resource canonical : String)
      → canonical_resource parse_url resource ≡ ok canonical
      → IsCanonical resource canonical
  unfolding canonical_resource
  canonical_resource-IsCanonical resource canonical h =
      let (url, parsed, h1) =
        bind-eq-ok (or_throw (parse_url resource) (invalid_target_error "resource is invalid")) _
          h in
      let (web, h2) =
        then-eq-ok
          (throw_if (not (url.protocol == "https:") && not (url.protocol == "http:"))
            (invalid_target_error "resource is invalid"))
          _ h1 in
      let (bare, h3) =
        then-eq-ok
          (throw_if (present url.username || present url.password || present url.hash)
            (invalid_target_error "resource is invalid"))
          _ h2 in
      let (plain, returns) =
        then-eq-ok
          (throw_if (any (λ c. nat_eq c b'*') (codes resource))
            (invalid_target_error "resource is invalid"))
          _ h3 in
      let bare' = passed _ bare in
      record {
        url = url;
        parsed =
            or_throw-eq-ok (parse_url resource) (invalid_target_error "resource is invalid") url
              parsed;
        web = web_protocol url.protocol (passed _ web);
        no_username = not_present url.username (ground arith);
        no_password = not_present url.password (ground arith);
        no_hash = not_present url.hash (ground arith);
        no_asterisk = passed _ plain;
        written =
            subst (IsWithoutLastSlash url.href) (ok_inj returns) (without_last_slash-lem url.href);
      }

  find_allowed-lem :
      (canonical : String) (rs : List String) (r : String)
      → find_allowed parse_url canonical rs ≡ ok (some r)
      → (contains rs r ≡ true) × (canonical_resource parse_url r ≡ ok canonical)
  unfolding find_allowed
  find_allowed-lem canonical [] r h = cc
  find_allowed-lem canonical (x ∷ xs) r h = elim (Result-cases (canonical_resource parse_url x)) [
    | inl (c, e) ↦
        ground (arith, e, eq_iff c canonical, eq_iff x r, find_allowed-lem canonical xs r)
    | inr (thrown, e) ↦ ground (arith, e)
  ]

  -- A resolved resource is one of the client's allowed resources, to the letter, and its canonical
  -- form is that of the resource that the request names, or of the only resource of an actions
  -- client where the request names none. Both are HTTP URLs without credentials, a fragment or an
  -- asterisk, and the canonical form is the URL as the parser writes it, less a last slash.
  pub resolve_oauth_resource-allowed :
      (client : OAuthClient) (resource : Option String) (resolved : String)
      → resolve_oauth_resource parse_url client resource ≡ ok resolved
      → (contains client.allowed_resources resolved ≡ true)
        × ((wanted : String) × (canonical : String) × IsRequested client resource wanted
            × IsCanonical wanted canonical
            × IsCanonical resolved canonical)
  unfolding resolve_oauth_resource resolve_allowed_resource
  resolve_oauth_resource-allowed client resource resolved h =
      let (wanted, asked, resolves) = bind-eq-ok (resolve_grant_resource client resource) _ h in
      let (canonical, parsed, finds) =
        bind-eq-ok (canonical_resource parse_url wanted) _ resolves in
      let (allowed, found, answers) =
        bind-eq-ok (find_allowed parse_url canonical client.allowed_resources) _ finds in
      let some_found =
        find_allowed-lem canonical client.allowed_resources resolved
          (cc (found, truthy-some allowed resolved (or_throw-eq-ok _ _ resolved answers))) in
      (
        some_found.0,
        (
          wanted,
          canonical,
          resolve_grant_resource-lem client resource wanted asked,
          canonical_resource-IsCanonical wanted canonical parsed,
          canonical_resource-IsCanonical resolved canonical some_found.1,
        ),
      )
