-- ===== src/Store/Tokens/Families.antt =====
-- Refresh tokens over a history: a token is rotated at most once, and a reuse ends its family.
use mathlib.Core.Path.{subst}
use encore_mcp_base.Base.{
  ℕ, ◌<◌, String, true, ◌≡◌, ◌≢◌, refl, sym, ◌∙◌, ap, Option, some, List, [], ◌∷◌, err, arith,
  truthy_number, truthy_number-pos, eq_iff, All,
}
use encore_mcp_base.Base.Dict.{
  Dict, lookup, set, lookup-set, map_values, lookup-map_values, any_value-of_lookup,
}
use encore_mcp_base.Base.Dict.Each.{map_some-inv}
use encore_mcp_base.Store.Records.{RefreshTokenRecord, OAuthStoreState, invalid_grant_error}
use encore_mcp_base.Store.Tokens.{
  is_rotated_from, revoke_in_family, check_refresh_token, successor, rotate, rotate_refresh_token,
  create_refresh_token,
}
use encore_mcp_base.Store.Tokens.Rotate.{
  IsUsable, check_refresh_token_iff, Outcome, refuses, revokes, rotates, rotate_refresh_token_cases,
}
use encore_mcp_base.Store.History.{Call, creates_token, rotates_token, step, run}
use encore_mcp_base.Store.History.Frames.{step-tokens}

-- Every stored token of the family is revoked.
pub record IsFamilyRevoked (family : String) (tokens : Dict RefreshTokenRecord) : Type 0 where
  pub revoked :
      (j : String) (r : RefreshTokenRecord)
      → lookup j tokens ≡ some r
      → r.family_id ≡ family
      → truthy_number r.revoked_at ≡ true

-- A stored token was rotated from the hash, and it is stored under the key.
pub record IsSucceeded (hash key : String) (tokens : Dict RefreshTokenRecord) : Type 0 where
  pub next : RefreshTokenRecord
  pub stored : lookup key tokens ≡ some next
  pub from : is_rotated_from hash next ≡ true

revoked_now :
    (family : String) (now : ℕ) (a r : RefreshTokenRecord)
    → 0 < now
    → revoke_in_family family now a ≡ r
    → r.family_id ≡ family
    → truthy_number r.revoked_at ≡ true
revoked_now family now a r positive made member =
    ground (arith, eq_iff a.family_id family, truthy_number-pos now)

revoked_before :
    (family f : String) (now : ℕ) (a r : RefreshTokenRecord)
    → f ≢ family
    → revoke_in_family f now a ≡ r
    → r.family_id ≡ family
    → (a.family_id ≡ family → truthy_number a.revoked_at ≡ true)
    → truthy_number r.revoked_at ≡ true
revoked_before family f now a r other made member before =
    ground (arith, eq_iff a.family_id f, before)

-- The loop leaves every token of its family revoked, if the time is not 0.
pub revoke-IsFamilyRevoked :
    (family : String) (now : ℕ) (tokens : Dict RefreshTokenRecord)
    → 0 < now
    → IsFamilyRevoked family (map_values (revoke_in_family family now) tokens)
revoke-IsFamilyRevoked family now tokens positive = record {
  revoked = λ j r stored member.
      let (a, found, made) =
        map_some-inv (revoke_in_family family now) (lookup j tokens)
          (sym (lookup-map_values (revoke_in_family family now) j tokens) ∙ stored) in
      revoked_now family now a r positive made member;
}

module _ (sha : String → String) where
  -- The call starts no token in that family.
  abbrev pub SparesFamily : String → ℕ × Call → Type 0
  SparesFamily family (now, creates_token input token f) = f ≢ family
  SparesFamily family (now, _) = Unit {0}

  -- The call draws no new token with that hash.
  abbrev pub SparesToken : String → ℕ × Call → Type 0
  SparesToken key (now, creates_token input token f) = sha token ≢ key
  SparesToken key (now, rotates_token token client ttl resource allowed new_token) =
      sha new_token ≢ key
  SparesToken key (now, _) = Unit {0}

  revoke_other-IsFamilyRevoked :
      (family f : String) (now : ℕ) (tokens : Dict RefreshTokenRecord)
      → f ≢ family
      → IsFamilyRevoked family tokens
      → IsFamilyRevoked family (map_values (revoke_in_family f now) tokens)
  revoke_other-IsFamilyRevoked family f now tokens other v = record {
    revoked = λ j r stored member.
        let (a, found, made) =
          map_some-inv (revoke_in_family f now) (lookup j tokens)
            (sym (lookup-map_values (revoke_in_family f now) j tokens) ∙ stored) in
        revoked_before family f now a r other made member (v.revoked j a found);
  }

  set-IsFamilyRevoked :
      (family key : String) (r : RefreshTokenRecord) (tokens : Dict RefreshTokenRecord)
      → r.family_id ≢ family
      → IsFamilyRevoked family tokens
      → IsFamilyRevoked family (set key r tokens)
  set-IsFamilyRevoked family key r tokens other v = record {
    revoked =
        λ j q stored member. ground (arith, lookup-set key j r tokens, eq_iff key j, v.revoked j q);
  }

  usable_outside :
      (family key : String) (found : RefreshTokenRecord) (tokens : Dict RefreshTokenRecord)
      {client : String} {resource : Option String} {allowed : Option (List String)} {now : ℕ}
      → lookup key tokens ≡ some found
      → IsUsable found client resource allowed now
      → IsFamilyRevoked family tokens
      → found.family_id ≢ family
  usable_outside family key found tokens stored usable v member =
      cc (v.revoked key found stored member, usable.unrevoked)

  rotate-IsFamilyRevoked :
      (family token client : String) (ttl : ℕ) (resource : Option String)
      (allowed : Option (List String)) (new_token : String) (now : ℕ) (s : OAuthStoreState)
      → IsFamilyRevoked family s.refresh_tokens
      → Outcome sha token client ttl resource allowed new_token now s
      → IsFamilyRevoked family
          (rotate_refresh_token sha token client ttl resource allowed new_token now
            s).1.refresh_tokens
  unfolding successor
  rotate-IsFamilyRevoked family token client ttl resource allowed new_token now s v (refuses _ e) =
      rw e v
  rotate-IsFamilyRevoked family token client ttl resource allowed new_token now s v
        (revokes found stored usable _ e) =
      rw e (
        revoke_other-IsFamilyRevoked family found.family_id now s.refresh_tokens
          (usable_outside family (sha token) found s.refresh_tokens stored usable v) v)
  rotate-IsFamilyRevoked family token client ttl resource allowed new_token now s v
        (rotates found stored usable _ e) =
      let other = usable_outside family (sha token) found s.refresh_tokens stored usable v in
      rw e (
        set-IsFamilyRevoked family (sha new_token) _ _ other
          (set-IsFamilyRevoked family (sha token) _ s.refresh_tokens other v))

  step-IsFamilyRevoked :
      (family : String) (s : OAuthStoreState) (c : ℕ × Call)
      → SparesFamily family c
      → IsFamilyRevoked family s.refresh_tokens
      → IsFamilyRevoked family (step sha s c).refresh_tokens
  unfolding step create_refresh_token
  step-IsFamilyRevoked family s (now, creates_token input token f) spares v =
      set-IsFamilyRevoked family (sha token) _ s.refresh_tokens spares v
  step-IsFamilyRevoked family s (now, rotates_token token client ttl resource allowed new_token)
        spares v =
      rotate-IsFamilyRevoked family token client ttl resource allowed new_token now s v
        (rotate_refresh_token_cases sha token client ttl resource allowed new_token now s)
  step-IsFamilyRevoked family s (now, c) spares v =
      subst (IsFamilyRevoked family) (sym (step-tokens sha s now c refl)) v

  run-IsFamilyRevoked :
      (family : String) (s : OAuthStoreState) (cs : List (ℕ × Call))
      → All (SparesFamily family) cs
      → IsFamilyRevoked family s.refresh_tokens
      → IsFamilyRevoked family (run sha s cs).refresh_tokens
  unfolding run
  run-IsFamilyRevoked family s [] spares v = v
  run-IsFamilyRevoked family s (c ∷ cs) spares v =
      run-IsFamilyRevoked family (step sha s c) cs spares.1
        (step-IsFamilyRevoked family s c spares.0 v)

  revoked_refused :
      (family token client : String) (ttl : ℕ) (resource : Option String)
      (allowed : Option (List String)) (new_token : String) (now : ℕ) (s : OAuthStoreState)
      (r : RefreshTokenRecord)
      → IsFamilyRevoked family s.refresh_tokens
      → lookup (sha token) s.refresh_tokens ≡ some r
      → r.family_id ≡ family
      → rotate_refresh_token sha token client ttl resource allowed new_token now s
        ≡ (err invalid_grant_error, s)
  unfolding rotate_refresh_token rotate check_refresh_token
  revoked_refused family token client ttl resource allowed new_token now s r v stored member =
      ground (arith, v.revoked (sha token) r stored member)

  reuse_revokes :
      (token client : String) (ttl : ℕ) (resource : Option String) (allowed : Option (List String))
      (new_token : String) (now : ℕ) (s : OAuthStoreState) (found : RefreshTokenRecord)
      (key : String)
      → lookup (sha token) s.refresh_tokens ≡ some found
      → IsUsable found client resource allowed now
      → IsSucceeded (sha token) key s.refresh_tokens
      → rotate_refresh_token sha token client ttl resource allowed new_token now s ≡ (
        err invalid_grant_error,
        record s {
          refresh_tokens = map_values (revoke_in_family found.family_id now) s.refresh_tokens;
        },
      )
  unfolding rotate_refresh_token rotate
  reuse_revokes token client ttl resource allowed new_token now s found key stored usable
        succeeded =
      ground (
        arith,
        (check_refresh_token_iff found client resource allowed now).1 usable,
        any_value-of_lookup (is_rotated_from (sha token)) key s.refresh_tokens succeeded.next
            succeeded.stored succeeded.from,
      )

  -- A usable token from which another was already rotated is refused with "invalid_grant", and so
  -- is, from then on, every token of its family: after any calls of the store that start no new
  -- token in the family, at any time, for any client, and with no further effect.
  pub reuse_ends_family :
      (token client : String) (ttl : ℕ) (resource : Option String) (allowed : Option (List String))
      (new_token : String) (now : ℕ) (s : OAuthStoreState) (found : RefreshTokenRecord)
      (key : String) (cs : List (ℕ × Call)) (token' client' : String) (ttl' : ℕ)
      (resource' : Option String) (allowed' : Option (List String)) (new_token' : String)
      (later : ℕ) (r : RefreshTokenRecord)
      → 0 < now
      → lookup (sha token) s.refresh_tokens ≡ some found
      → IsUsable found client resource allowed now
      → IsSucceeded (sha token) key s.refresh_tokens
      → All (SparesFamily found.family_id) cs
      → let t =
          run sha
            (rotate_refresh_token sha token client ttl resource allowed new_token now s).1
            cs in
        lookup (sha token') t.refresh_tokens ≡ some r
        → r.family_id ≡ found.family_id
        → ((rotate_refresh_token sha token client ttl resource allowed new_token now s).0
            ≡ err invalid_grant_error)
          × (rotate_refresh_token sha token' client' ttl' resource' allowed' new_token' later t
              ≡ (err invalid_grant_error, t))
  reuse_ends_family token client ttl resource allowed new_token now s found key cs token' client'
        ttl' resource' allowed' new_token' later r positive stored usable succeeded spares stored'
        member =
      let e =
        reuse_revokes token client ttl resource allowed new_token now s found key stored usable
          succeeded in
      (
        ap (λ p. p.0) e,
        revoked_refused found.family_id token' client' ttl' resource' allowed' new_token' later _ r
            (run-IsFamilyRevoked found.family_id _ cs spares
              (rw e (revoke-IsFamilyRevoked found.family_id now s.refresh_tokens positive)))
            stored' member,
      )
