-- ===== src/Store/Codes/Redeem.antt =====
-- When an authorization code is redeemed: `consumeAuthorizationCode` of auth/storage/disk-store.ts
-- against a specification that names no test of the code.
use mathlib.Core.List.{mem-cons, not-mem-nil, mem-cons_self, mem-cons_of_mem, Mem-prop}
use mathlib.Core.Logic.Or
use encore_mcp_base.Base.{
  ℕ, ◌<◌, String, true, false, not, ◌≡◌, refl, ◌↔◌, Option, none, some, List, [], ◌∷◌, Mem, ok, err,
  ◌∙◌, bind-eq-ok, throw_if, arith, truthy, truthy_number, ◌==◌, eq_iff, contains, contains_iff,
  any, Option-cases, inl, inr, ◌⊎◌,
}
use encore_mcp_base.Base.Dict.{lookup, set}
use encore_mcp_base.OAuth.Pkce.Laws.{pkce_verifier_iff}
use encore_mcp_base.OAuth.Pkce.{matches_pkce, pkce_verifier}
use encore_mcp_base.Store.Records.{
  AuthorizationCodeRecord, AuthorizationCodeExpectation, OAuthStoreState, invalid_grant_error,
}
use encore_mcp_base.Store.Codes.{
  differs, excludes, excludes_some, check_challenge, check_authorization_code, mark_consumed,
  consume_authorization_code,
}

pub differs_iff :
    (o : Option String) (a : String) → (differs o a ≡ false) ↔ ((w : String) → o ≡ some w → a ≡ w)
unfolding differs
differs_iff none a = (λ _ w e. cc, λ _. refl)
differs_iff (some v) a =
    (λ h w e. ground (arith, eq_iff a v), λ h. ground (arith, eq_iff a v, h v refl))

pub excludes_iff :
    (o : Option (List String)) (a : String)
    → (excludes o a ≡ false) ↔ ((l : List String) → o ≡ some l → Mem a l)
unfolding excludes
excludes_iff none a = (λ _ w e. cc, λ _. refl)
excludes_iff (some v) a = (
  λ h l e. (contains_iff l a).0 (ground arith),
  λ h. ground (arith, (contains_iff v a).1 (h v refl)),
)

any-excluded_iff :
    (l values : List String)
    → (any (λ v. not (contains l v)) values ≡ false) ↔ ((s : String) → Mem s values → Mem s l)
any-excluded_iff l [] = (λ _ s m. absurd (not-mem-nil m), λ _. refl)
any-excluded_iff l (v ∷ vs) = (
  λ h s m.
      Or.elim Mem-prop (mem-cons.0 m) (λ e. rw e ((contains_iff l v).0 (ground arith)))
        ((any-excluded_iff l vs).0 (ground arith) s),
  λ h. ground (
    arith,
    (contains_iff l v).1 (h v mem-cons_self),
    (any-excluded_iff l vs).1 (λ s m. h s (mem-cons_of_mem _ m)),
  ),
)

excludes_some_iff :
    (o : Option (List String)) (values : List String)
    → (excludes_some o values ≡ false)
      ↔ ((l : List String) → o ≡ some l → (s : String) → Mem s values → Mem s l)
unfolding excludes_some
excludes_some_iff none values = (λ _ w e. cc, λ _. refl)
excludes_some_iff (some v) values = (
  λ h l e. (any-excluded_iff l values).0 (ground arith),
  λ h. (any-excluded_iff v values).1 (h v refl),
)

module _ (sha : String → String) where
  -- A verifier that answers the challenge of the code.
  abbrev pub Answers : Option String → String → Type 0
  Answers verifier challenge =
      (v : String) × (verifier ≡ some v) × (matches_pkce v ≡ true) × (sha v ≡ challenge)

  -- What entitles a client to redeem a code.
  pub record IsRedeemable (found : AuthorizationCodeRecord) (verifier : Option String)
      (expected : AuthorizationCodeExpectation) (now : ℕ) : Type 0 where
    pub unused : truthy_number found.consumed_at ≡ false
    pub unexpired : now < found.expires_at
    pub same_client : found.client_id ≡ expected.client_id
    pub same_redirect : found.redirect_uri ≡ expected.redirect_uri
    pub resource : (w : String) → expected.resource ≡ some w → found.resource ≡ w
    pub resource_allowed :
        (l : List String) → expected.allowed_resources ≡ some l → Mem found.resource l
    pub scopes_allowed :
        (l : List String)
        → expected.allowed_scopes ≡ some l
        → (s : String) → Mem s found.scopes
        → Mem s l
    pub answered : (c : String) → truthy found.code_challenge ≡ some c → Answers verifier c

  verified :
      (challenge verifier : Option String) (c : String)
      → check_challenge sha challenge verifier ≡ ok tt
      → truthy challenge ≡ some c
      → (v : String) × (pkce_verifier verifier ≡ ok v) × (sha v ≡ c)
  unfolding check_challenge
  verified challenge verifier c h present =
      let (v, checked, rest) =
        bind-eq-ok (pkce_verifier verifier) (λ v. throw_if (not (sha v == c)) invalid_grant_error)
          (ground arith) in
      (v, checked, ground (arith, eq_iff (sha v) c))

  check_challenge_iff :
      (challenge verifier : Option String)
      → (check_challenge sha challenge verifier ≡ ok tt)
        ↔ ((c : String) → truthy challenge ≡ some c → Answers verifier c)
  unfolding check_challenge
  check_challenge_iff challenge verifier = elim (Option-cases (truthy challenge)) [
    | inl absent ↦ (λ h c present. cc, λ h. ground arith)
    | inr (c, present) ↦ (
      λ h d present'.
          let (v, checked, matched) = verified challenge verifier c h present in
          let (given, shape) = (pkce_verifier_iff verifier v).0 checked in
          (v, given, shape, matched ∙ ground arith),
      λ h.
          let (v, given, shape, matched) = h c present in
          ground
            (arith, (pkce_verifier_iff verifier v).1 (given, shape), (eq_iff (sha v) c).1 matched),
    )
  ]

  check_authorization_code_iff :
      (found : AuthorizationCodeRecord) (verifier : Option String)
      (expected : AuthorizationCodeExpectation) (now : ℕ)
      → (check_authorization_code sha found verifier expected now ≡ ok tt)
        ↔ IsRedeemable found verifier expected now
  unfolding check_authorization_code
  check_authorization_code_iff found verifier expected now = (
    λ h. record {
      unused = ground arith;
      unexpired = ground arith;
      same_client = ground (arith, eq_iff found.client_id expected.client_id);
      same_redirect = ground (arith, eq_iff found.redirect_uri expected.redirect_uri);
      resource = (differs_iff expected.resource found.resource).0 (ground arith);
      resource_allowed = (excludes_iff expected.allowed_resources found.resource).0 (ground arith);
      scopes_allowed = (excludes_some_iff expected.allowed_scopes found.scopes).0 (ground arith);
      answered = (check_challenge_iff found.code_challenge verifier).0 (ground arith);
    },
    λ r. ground (
      arith,
      (eq_iff found.client_id expected.client_id).1 r.same_client,
      (eq_iff found.redirect_uri expected.redirect_uri).1 r.same_redirect,
      (differs_iff expected.resource found.resource).1 r.resource,
      (excludes_iff expected.allowed_resources found.resource).1 r.resource_allowed,
      (excludes_some_iff expected.allowed_scopes found.scopes).1 r.scopes_allowed,
      (check_challenge_iff found.code_challenge verifier).1 r.answered,
    ),
  )

  -- A code is redeemed exactly when it is known and the client, the redirect URI, the resource, the
  -- scopes, the PKCE verifier and the time entitle to it; then the stored record and the one that
  -- is returned are marked as consumed now.
  pub consume_authorization_code-eq-ok_iff :
      (code : String) (verifier : Option String) (expected : AuthorizationCodeExpectation) (now : ℕ)
      (s t : OAuthStoreState) (r : AuthorizationCodeRecord)
      → (consume_authorization_code sha code verifier expected now s ≡ (ok r, t)) ↔ (
          (found : AuthorizationCodeRecord) × (lookup (sha code) s.authorization_codes ≡ some found)
          × IsRedeemable found verifier expected now
          × (r ≡ record found { consumed_at = some now })
          × (t ≡ record s { authorization_codes = set (sha code) r s.authorization_codes }))
  unfolding consume_authorization_code
  consume_authorization_code-eq-ok_iff code verifier expected now s t r =
      elim (Option-cases (lookup (sha code) s.authorization_codes)) [
        | inl missing ↦
            (λ h. absurd (ground arith), λ (found, stored, _, _, _). absurd (ground arith))
        | inr (found, stored) ↦ (
          λ h. (
            found,
            stored,
            (check_authorization_code_iff found verifier expected now).0 (ground arith),
            ground arith,
            ground arith,
          ),
          λ (found', stored', redeemable, marked, rest).
              ground
                (arith, (check_authorization_code_iff found' verifier expected now).1 redeemable),
        )
      ]

  check_authorization_code_cases :
      (found : AuthorizationCodeRecord) (verifier : Option String)
      (expected : AuthorizationCodeExpectation) (now : ℕ)
      → (check_authorization_code sha found verifier expected now ≡ ok tt)
        ⊎ (check_authorization_code sha found verifier expected now ≡ err invalid_grant_error)
  unfolding check_authorization_code check_challenge pkce_verifier
  check_authorization_code_cases found verifier expected now = ground arith

  -- A code is redeemed, or refused with "invalid_grant" and the store as it was: a refusal does not
  -- tell which check failed.
  pub consume_authorization_code_cases :
      (code : String) (verifier : Option String) (expected : AuthorizationCodeExpectation) (now : ℕ)
      (s : OAuthStoreState)
      → ((r : AuthorizationCodeRecord) × (t : OAuthStoreState) × (consume_authorization_code sha
              code verifier expected now s
            ≡ (ok r, t)))
        ⊎ (consume_authorization_code sha code verifier expected now s
            ≡ (err invalid_grant_error, s))
  unfolding consume_authorization_code
  consume_authorization_code_cases code verifier expected now s =
      elim (Option-cases (lookup (sha code) s.authorization_codes)) [
        | inl missing ↦ inr (ground arith)
        | inr (found, stored) ↦ elim (check_authorization_code_cases found verifier expected now) [
          | inl passed ↦ inl (
            mark_consumed now found,
            record s {
              authorization_codes = set (sha code) (mark_consumed now found) s.authorization_codes;
            },
            ground arith,
          )
          | inr refused ↦ inr (ground arith)
        ]
      ]
