-- ===== src/Store/Tokens/Once.antt =====
-- A refresh token of auth/storage/disk-store.ts is rotated at most once.
use mathlib.Core.Path.{subst}
use encore_mcp_base.Base.{
  ℕ, String, ◌≡◌, ◌≢◌, refl, sym, ◌∙◌, ap, Option, some, List, [], ◌∷◌, ok, err, arith, ◌==◌,
  eq_iff, eq_refl, Bool-cases, inl, inr, All,
}
use encore_mcp_base.Base.Dict.{
  Dict, lookup, set, lookup-set, lookup-set_self, map_values, lookup-map_values, map_some,
  any_value-of_lookup,
}
use encore_mcp_base.Store.Records.{RefreshTokenRecord, OAuthStoreState, invalid_grant_error}
use encore_mcp_base.Store.Tokens.{
  is_rotated_from, revoke_in_family, successor, mark_used, rotate_refresh_token,
  create_refresh_token,
}
use encore_mcp_base.Store.Tokens.Rotate.{
  rotated_tokens, HasSuccessor-iff, Outcome, refuses, revokes, rotates, rotate_refresh_token_cases,
}
use encore_mcp_base.Store.Tokens.Families.{IsSucceeded, SparesToken}
use encore_mcp_base.Store.History.{Call, creates_token, rotates_token, step, run}
use encore_mcp_base.Store.History.Frames.{step-tokens}

revoke-IsSucceeded :
    (hash key family : String) (now : ℕ) (tokens : Dict RefreshTokenRecord)
    → IsSucceeded hash key tokens
    → IsSucceeded hash key (map_values (revoke_in_family family now) tokens)
revoke-IsSucceeded hash key family now tokens v = record {
  next = revoke_in_family family now v.next;
  stored =
      lookup-map_values (revoke_in_family family now) key tokens
      ∙ ap (map_some (revoke_in_family family now)) v.stored;
  from = ground (arith, v.from);
}

set-IsSucceeded :
    (hash key k : String) (r : RefreshTokenRecord) (tokens : Dict RefreshTokenRecord)
    → k ≢ key
    → IsSucceeded hash key tokens
    → IsSucceeded hash key (set k r tokens)
set-IsSucceeded hash key k r tokens other v = record {
  next = v.next;
  stored = ground (arith, lookup-set k key r tokens, eq_iff k key, v.stored);
  from = v.from;
}

mark-IsSucceeded :
    (hash key k : String) (now : ℕ) (found : RefreshTokenRecord) (tokens : Dict RefreshTokenRecord)
    → lookup k tokens ≡ some found
    → IsSucceeded hash key tokens
    → IsSucceeded hash key (set k (mark_used now found) tokens)
mark-IsSucceeded hash key k now found tokens stored v = elim (Bool-cases (k == key)) [
  | inl same ↦ record {
    next = mark_used now found;
    stored = ground (arith, lookup-set k key (mark_used now found) tokens);
    from = ground (arith, eq_iff k key, v.stored, v.from);
  }
  | inr other ↦ set-IsSucceeded hash key k _ tokens (ground (arith, eq_iff k key)) v
]

module _ (sha : String → String) where
  rotate-IsSucceeded :
      (hash key token client : String) (ttl : ℕ) (resource : Option String)
      (allowed : Option (List String)) (new_token : String) (now : ℕ) (s : OAuthStoreState)
      → sha new_token ≢ key
      → IsSucceeded hash key s.refresh_tokens
      → Outcome sha token client ttl resource allowed new_token now s
      → IsSucceeded hash key
          (rotate_refresh_token sha token client ttl resource allowed new_token now
            s).1.refresh_tokens
  rotate-IsSucceeded hash key token client ttl resource allowed new_token now s fresh v
        (refuses _ e) =
      rw e v
  rotate-IsSucceeded hash key token client ttl resource allowed new_token now s fresh v
        (revokes found stored _ _ e) =
      rw e (revoke-IsSucceeded hash key found.family_id now s.refresh_tokens v)
  rotate-IsSucceeded hash key token client ttl resource allowed new_token now s fresh v
        (rotates found stored _ _ e) =
      rw e (
        set-IsSucceeded hash key (sha new_token) _ _ fresh
          (mark-IsSucceeded hash key (sha token) now found s.refresh_tokens stored v))

  step-IsSucceeded :
      (hash key : String) (s : OAuthStoreState) (c : ℕ × Call)
      → SparesToken sha key c
      → IsSucceeded hash key s.refresh_tokens
      → IsSucceeded hash key (step sha s c).refresh_tokens
  unfolding step create_refresh_token
  step-IsSucceeded hash key s (now, creates_token input token f) spares v =
      set-IsSucceeded hash key (sha token) _ s.refresh_tokens spares v
  step-IsSucceeded hash key s (now, rotates_token token client ttl resource allowed new_token)
        spares v =
      rotate-IsSucceeded hash key token client ttl resource allowed new_token now s spares v
        (rotate_refresh_token_cases sha token client ttl resource allowed new_token now s)
  step-IsSucceeded hash key s (now, c) spares v =
      subst (IsSucceeded hash key) (sym (step-tokens sha s now c refl)) v

  run-IsSucceeded :
      (hash key : String) (s : OAuthStoreState) (cs : List (ℕ × Call))
      → All (SparesToken sha key) cs
      → IsSucceeded hash key s.refresh_tokens
      → IsSucceeded hash key (run sha s cs).refresh_tokens
  unfolding run
  run-IsSucceeded hash key s [] spares v = v
  run-IsSucceeded hash key s (c ∷ cs) spares v =
      run-IsSucceeded hash key (step sha s c) cs spares.1 (step-IsSucceeded hash key s c spares.0 v)

  succeeded_refused :
      (token key client : String) (ttl : ℕ) (resource : Option String)
      (allowed : Option (List String)) (new_token : String) (now : ℕ) (s : OAuthStoreState)
      → IsSucceeded (sha token) key s.refresh_tokens
      → Outcome sha token client ttl resource allowed new_token now s
      → (rotate_refresh_token sha token client ttl resource allowed new_token now s).0
        ≡ err invalid_grant_error
  succeeded_refused token key client ttl resource allowed new_token now s v (refuses _ e) =
      ap (λ p. p.0) e
  succeeded_refused token key client ttl resource allowed new_token now s v (revokes _ _ _ _ e) =
      ap (λ p. p.0) e
  succeeded_refused token key client ttl resource allowed new_token now s v
        (rotates _ _ _ unused e) =
      absurd (
        unused (
          (HasSuccessor-iff (sha token) s.refresh_tokens).0 (
            any_value-of_lookup (is_rotated_from (sha token)) key s.refresh_tokens v.next v.stored
              v.from)))

  rotated-IsSucceeded :
      (token client : String) (ttl : ℕ) (resource : Option String) (allowed : Option (List String))
      (new_token : String) (now : ℕ) (s t : OAuthStoreState) (answer : RefreshTokenRecord × String)
      → rotate_refresh_token sha token client ttl resource allowed new_token now s ≡ (ok answer, t)
      → Outcome sha token client ttl resource allowed new_token now s
      → IsSucceeded (sha token) (sha new_token) t.refresh_tokens
  unfolding successor
  rotated-IsSucceeded token client ttl resource allowed new_token now s t answer done
        (refuses _ e) =
      absurd (cc (e, done))
  rotated-IsSucceeded token client ttl resource allowed new_token now s t answer done
        (revokes _ _ _ _ e) =
      absurd (cc (e, done))
  rotated-IsSucceeded token client ttl resource allowed new_token now s t answer done
        (rotates found _ _ _ e) =
      record {
        next = successor sha found (sha token) new_token ttl now;
        stored =
            let written : t ≡ record s {
              refresh_tokens = rotated_tokens sha found token new_token ttl now s.refresh_tokens;
            } =
              ap (λ p. p.1) (sym done ∙ e) in
            rw written (lookup-set_self (sha new_token) _ _);
        from = eq_refl (sha token);
      }

  -- Once a refresh token has been rotated it is never rotated again: every later use is refused
  -- with "invalid_grant", after any calls of the store, if none of them draws a new token with the
  -- hash of the one that was handed out.
  pub rotated_once :
      (token client client' : String) (ttl ttl' : ℕ) (resource resource' : Option String)
      (allowed allowed' : Option (List String)) (new_token new_token' : String) (now later : ℕ)
      (s t : OAuthStoreState) (answer : RefreshTokenRecord × String) (cs : List (ℕ × Call))
      → rotate_refresh_token sha token client ttl resource allowed new_token now s ≡ (ok answer, t)
      → All (SparesToken sha (sha new_token)) cs
      → (rotate_refresh_token sha token client' ttl' resource' allowed' new_token' later
          (run sha t cs)).0
        ≡ err invalid_grant_error
  rotated_once token client client' ttl ttl' resource resource' allowed allowed' new_token
        new_token' now later s t answer cs done spares =
      succeeded_refused token (sha new_token) client' ttl' resource' allowed' new_token' later
        (run sha t cs)
        (run-IsSucceeded (sha token) (sha new_token) t cs spares (
          rotated-IsSucceeded token client ttl resource allowed new_token now s t answer done
            (rotate_refresh_token_cases sha token client ttl resource allowed new_token now s)))
        (rotate_refresh_token_cases sha token client' ttl' resource' allowed' new_token' later
          (run sha t cs))
