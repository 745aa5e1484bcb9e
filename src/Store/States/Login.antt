-- ===== src/Store/States/Login.antt =====
-- An upstream authorization state of auth/storage/disk-store.ts is consumed at most once, and only
-- while it lives.
use mathlib.Core.Path.{subst}
use encore_mcp_base.Base.{
  ℕ, ◌<◌, String, not, ◌≡◌, ◌≢◌, refl, sym, ◌↔◌, none, some, List, [], ◌∷◌, ok, err, arith, leb,
  eq_iff, eq_refl, Bool-cases, Option-cases, inl, inr, ◌⊎◌, All,
}
use encore_mcp_base.Base.Dict.{
  Dict, lookup, set, delete, keep_some, keep_values, lookup-set, lookup-delete, lookup-keep_values,
  lookup-keep_values-none, HasUniqueKeys,
}
use encore_mcp_base.Store.Records.{
  UpstreamAuthorizationStateRecord, OAuthStoreState, invalid_grant_error,
}
use encore_mcp_base.Store.States.{
  prune_expired_upstream_states, create_upstream_authorization_state,
  consume_upstream_authorization_state,
}
use encore_mcp_base.Store.History.{Call, creates_state, consumes_state, step, run}
use encore_mcp_base.Store.History.Frames.{step-states}

abbrev pub States : Type 0
States = Dict UpstreamAuthorizationStateRecord

pub lookup-prune :
    (hash : String) (states : States) (now : ℕ)
    → HasUniqueKeys states
    → lookup hash (prune_expired_upstream_states states now)
      ≡ keep_some (λ r. not (leb r.expires_at now)) (lookup hash states)
unfolding prune_expired_upstream_states
lookup-prune hash states now unique =
    lookup-keep_values (λ r. not (leb r.expires_at now)) hash states unique

lookup-prune-none :
    (hash : String) (states : States) (now : ℕ)
    → lookup hash states ≡ none
    → lookup hash (prune_expired_upstream_states states now) ≡ none
unfolding prune_expired_upstream_states
lookup-prune-none hash states now absent = lookup-keep_values-none _ hash states absent

module _ (sha : String → String) where
  -- In a store whose keys are unique, a state is consumed exactly when it is known and not expired;
  -- then its record is returned, and it leaves the store together with every state whose expiry is at
  -- that time or before it.
  pub consume_upstream_authorization_state-eq-ok_iff :
      (state : String) (now : ℕ) (s t : OAuthStoreState) (r : UpstreamAuthorizationStateRecord)
      → HasUniqueKeys s.upstream_authorization_states
      → (consume_upstream_authorization_state sha state now s ≡ (ok r, t)) ↔ (
          (lookup (sha state) s.upstream_authorization_states ≡ some r)
          × (now < r.expires_at)
          × (t ≡ record s {
            upstream_authorization_states = delete (sha state) (
                keep_values
                  (λ other. not (leb other.expires_at now))
                  s.upstream_authorization_states);
          }))
  unfolding consume_upstream_authorization_state prune_expired_upstream_states
  consume_upstream_authorization_state-eq-ok_iff state now s t r unique =
      ground (arith, lookup-prune (sha state) s.upstream_authorization_states now unique)

  pub consume_upstream_authorization_state_cases :
      (state : String) (now : ℕ) (s : OAuthStoreState)
      → (consume_upstream_authorization_state sha state now s ≡ (err invalid_grant_error, s))
        ⊎ ((r : UpstreamAuthorizationStateRecord) × (consume_upstream_authorization_state sha state
                now s
              ≡ (
                ok r,
                record s {
                  upstream_authorization_states =
                      delete
                        (sha state)
                        (prune_expired_upstream_states s.upstream_authorization_states now);
                },
              )))
  unfolding consume_upstream_authorization_state
  consume_upstream_authorization_state_cases state now s =
      elim (Option-cases
        (lookup (sha state) (prune_expired_upstream_states s.upstream_authorization_states now))) [
          | inl missing ↦ inl (ground (arith, missing))
          | inr (r, found) ↦ elim (Bool-cases (leb r.expires_at now)) [
            | inl old ↦ inl (ground (arith, found))
            | inr live ↦ inr (r, ground (arith, found))
          ]
        ]

  -- The call creates no state with that hash.
  abbrev pub SparesState : String → ℕ × Call → Type 0
  SparesState hash (now, creates_state input state) = sha state ≢ hash
  SparesState hash (now, _) = Unit {0}

  consume_absent :
      (state : String) (now : ℕ) (s : OAuthStoreState)
      → lookup (sha state) s.upstream_authorization_states ≡ none
      → consume_upstream_authorization_state sha state now s ≡ (err invalid_grant_error, s)
  unfolding consume_upstream_authorization_state
  consume_absent state now s absent =
      ground (arith, lookup-prune-none (sha state) s.upstream_authorization_states now absent)

  abbrev IsAbsent : String → States → Type 0
  IsAbsent hash states = lookup hash states ≡ none

  set-IsAbsent :
      (hash key : String) (r : UpstreamAuthorizationStateRecord) (states : States)
      → key ≢ hash
      → IsAbsent hash states
      → IsAbsent hash (set key r states)
  set-IsAbsent hash key r states other v =
      ground (arith, lookup-set key hash r states, eq_iff key hash)

  step-IsAbsent :
      (hash : String) (s : OAuthStoreState) (c : ℕ × Call)
      → SparesState hash c
      → IsAbsent hash s.upstream_authorization_states
      → IsAbsent hash (step sha s c).upstream_authorization_states
  unfolding step create_upstream_authorization_state consume_upstream_authorization_state
  step-IsAbsent hash s (now, creates_state input state) spares v =
      set-IsAbsent hash (sha state) _ _ spares
        (lookup-prune-none hash s.upstream_authorization_states now v)
  step-IsAbsent hash s (now, consumes_state state) spares v =
      let pruned = prune_expired_upstream_states s.upstream_authorization_states now in
      ground (
        arith,
        lookup-prune-none hash s.upstream_authorization_states now v,
        lookup-delete (sha state) hash pruned,
        eq_iff (sha state) hash,
      )
  step-IsAbsent hash s (now, c) spares v =
      subst (IsAbsent hash) (sym (step-states sha s now c refl)) v

  run-IsAbsent :
      (hash : String) (s : OAuthStoreState) (cs : List (ℕ × Call))
      → All (SparesState hash) cs
      → IsAbsent hash s.upstream_authorization_states
      → IsAbsent hash (run sha s cs).upstream_authorization_states
  unfolding run
  run-IsAbsent hash s [] spares v = v
  run-IsAbsent hash s (c ∷ cs) spares v =
      run-IsAbsent hash (step sha s c) cs spares.1 (step-IsAbsent hash s c spares.0 v)

  consumed-IsAbsent :
      (state : String) (now : ℕ) (s t : OAuthStoreState) (r : UpstreamAuthorizationStateRecord)
      → consume_upstream_authorization_state sha state now s ≡ (ok r, t)
      → IsAbsent (sha state) t.upstream_authorization_states
  unfolding consume_upstream_authorization_state
  consumed-IsAbsent state now s t r done =
      let pruned = prune_expired_upstream_states s.upstream_authorization_states now in
      ground (arith, lookup-delete (sha state) (sha state) pruned, eq_refl (sha state))

  -- After a state has been consumed, presenting it again is refused with "invalid_grant" and
  -- changes nothing, after any calls of the store that create no state with the same hash: a login
  -- is completed at most once.
  pub login_completes_once :
      (state : String) (now later : ℕ) (s t : OAuthStoreState)
      (r : UpstreamAuthorizationStateRecord) (cs : List (ℕ × Call))
      → consume_upstream_authorization_state sha state now s ≡ (ok r, t)
      → All (SparesState (sha state)) cs
      → consume_upstream_authorization_state sha state later (run sha t cs)
        ≡ (err invalid_grant_error, run sha t cs)
  login_completes_once state now later s t r cs done spares =
      consume_absent state later (run sha t cs)
        (run-IsAbsent (sha state) t cs spares (consumed-IsAbsent state now s t r done))
