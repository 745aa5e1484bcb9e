-- ===== src/OAuth/Pkce/Laws.antt =====
-- What auth/pkce.ts accepts.
use encore_mcp_base.Base.{
  String, true, false, ◌≡◌, refl, ◌↔◌, Option, none, some, ok, arith, truthy, eq_iff, Option-cases,
  inl, inr, ◌⊎◌,
}
use encore_mcp_base.OAuth.Pkce.{
  matches_pkce, pkce_verifier, pkce_input, PkcePolicy, PkceInput, optional, equals,
}
use encore_mcp_base.Store.Records.{s256}

pub matches_pkce-nonempty : (v : String) → matches_pkce v ≡ true → truthy (some v) ≡ some v
unfolding matches_pkce
matches_pkce-nonempty String.[] h = cc
matches_pkce-nonempty (String.◌∷◌ c s) h = refl

matches_pkce-empty : matches_pkce String.[] ≡ false
unfolding matches_pkce
matches_pkce-empty = refl

pub pkce_verifier_iff :
    (o : Option String) (v : String)
    → (pkce_verifier o ≡ ok v) ↔ ((o ≡ some v) × (matches_pkce v ≡ true))
unfolding pkce_verifier
pkce_verifier_iff none v = (λ h. cc, λ h. cc (h.0))
pkce_verifier_iff (some String.[]) v = (λ h. cc, λ h. ground (arith, matches_pkce-empty))
pkce_verifier_iff (some (String.◌∷◌ c s)) v = (λ h. ground arith, λ h. ground arith)

equals_S256_iff : (method : Option String) → (equals method "S256" ≡ true) ↔ (method ≡ some "S256")
equals_S256_iff none = ground arith
equals_S256_iff (some m) = ground (arith, eq_iff m "S256")

-- The PKCE part of an authorization request is accepted exactly in two cases: it brings no
-- challenge and the client's policy does not require one, and then none is kept; or its challenge
-- is of the pattern and the method is "S256", and then both are kept.
pub pkce_input_iff :
    (policy : PkcePolicy) (challenge method : Option String) (r : PkceInput)
    → (pkce_input policy challenge method ≡ ok r) ↔ (
        ((truthy challenge ≡ none)
          × (policy ≡ optional)
          × (r ≡ record { code_challenge = none; code_challenge_method = none }))
        ⊎ ((c : String) × (truthy challenge ≡ some c)
            × (matches_pkce c ≡ true)
            × (method ≡ some "S256")
            × (r ≡ record { code_challenge = some c; code_challenge_method = some s256 })))
unfolding pkce_input
pkce_input_iff policy challenge method r = elim (Option-cases (truthy challenge)) [
  | inl absent ↦ (
    λ h. inl (absent, ground arith, ground arith),
    λ h. elim h [ inl (_, p, e) ↦ ground arith | inr (c, present, _, _, _) ↦ cc ],
  )
  | inr (c, present) ↦ (
    λ h. inr (c, present, ground arith, ground (arith, equals_S256_iff method), ground arith),
    λ h. elim h [
      | inl (absent, _, _) ↦ cc
      | inr (d, present', m, e, r') ↦ ground (arith, equals_S256_iff method)
    ],
  )
]
