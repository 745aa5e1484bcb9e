-- ===== src/OAuth/Clients/Laws.antt =====
-- Which client `resolveClient` of auth/client-resolver.ts gives.
use mathlib.Core.List.{mem-cons_self, mem-cons_of_mem}
use encore_mcp_base.Base.{
  String, ◌≡◌, ◌⊎◌, inl, inr, Bool, true, some, List, [], ◌∷◌, Mem, Result, ok, arith, eq_iff, find,
  ◌==◌, Bool-cases, Option-cases, some_inj, contains,
}
use encore_mcp_base.OAuth.Clients.{OAuthClient, resolve_client, assert_redirect_uri}

find-some :
    {A : Type 0} (p : A → Bool) (xs : List A) (x : A) → find p xs ≡ some x → Mem x xs × (p x ≡ true)
find-some p [] x h = cc
find-some p (y ∷ ys) x h = elim (Bool-cases (p y)) [
  | inl passes ↦ (rw (some_inj (rw passes at h)) mem-cons_self, cc (h, passes))
  | inr fails ↦
      let rest = find-some p ys x (ground (arith, h)) in (mem-cons_of_mem _ rest.0, rest.1)
]

-- The client is configured under that identifier, or the identifier is a URL and the client was
-- fetched for it.
abbrev pub IsResolved : List OAuthClient → String → Bool → Result OAuthClient → OAuthClient → Type 0
IsResolved clients id is_url_client_id fetched client =
    (Mem client clients × (client.client_id ≡ id))
    ⊎ ((is_url_client_id ≡ true) × (fetched ≡ ok client))

pub resolve_client-IsResolved :
    (clients : List OAuthClient) (id : String) (is_url_client_id : Bool)
    (fetched : Result OAuthClient) (client : OAuthClient)
    → resolve_client clients id is_url_client_id fetched ≡ ok client
    → IsResolved clients id is_url_client_id fetched client
unfolding resolve_client
resolve_client-IsResolved clients id is_url_client_id fetched client h =
    elim (Option-cases (find (λ c. c.client_id == id) clients)) [
      | inl missing ↦ elim (Bool-cases is_url_client_id) [
        | inl url ↦ inr (url, ground (arith, missing, url))
        | inr other ↦ absurd (ground (arith, missing, other))
      ]
      | inr (c, found) ↦
          let configured =
            find-some (λ c. c.client_id == id) clients client (ground (arith, found)) in
          inl (configured.0, (eq_iff client.client_id id).0 configured.1)
    ]

pub assert_redirect_uri-ok :
    (client : OAuthClient) (uri : String)
    → assert_redirect_uri client uri ≡ ok tt
    → contains client.redirect_uris uri ≡ true
unfolding assert_redirect_uri
assert_redirect_uri-ok client uri h = ground arith
