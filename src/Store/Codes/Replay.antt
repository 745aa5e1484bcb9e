-- ===== src/Store/Codes/Replay.antt =====
-- An authorization code is redeemed at most once, whatever happens to the store in between.
use mathlib.Core.Path.{subst}
use encore_mcp_base.Base.{
  ℕ, ◌<◌, String, true, ◌≡◌, ◌≢◌, refl, sym, Option, some, List, [], ◌∷◌, ok, err, arith,
  truthy_number, ◌==◌, eq_iff, Bool-cases, inl, inr, All,
}
use encore_mcp_base.Base.Dict.{Dict, lookup, set, lookup-set, lookup-set_self}
use encore_mcp_base.Store.Records.{
  AuthorizationCodeRecord, AuthorizationCodeExpectation, OAuthStoreState, invalid_grant_error,
}
use encore_mcp_base.Store.Codes.{
  check_authorization_code, consume_authorization_code, create_authorization_code,
}
use encore_mcp_base.Store.Codes.Redeem.{
  consume_authorization_code-eq-ok_iff, consume_authorization_code_cases,
}
use encore_mcp_base.Store.History.{Call, creates_code, consumes_code, step, run}
use encore_mcp_base.Store.History.Frames.{step-codes}

-- The code is known, and has been consumed.
pub record IsSpent (hash : String) (codes : Dict AuthorizationCodeRecord) : Type 0 where
  pub found : AuthorizationCodeRecord
  pub stored : lookup hash codes ≡ some found
  pub used : truthy_number found.consumed_at ≡ true

module _ (sha : String → String) where
  -- The call creates no code with that hash.
  abbrev pub SparesCode : String → ℕ × Call → Type 0
  SparesCode hash (now, creates_code input code) = sha code ≢ hash
  SparesCode hash (now, _) = Unit {0}

  pub consume_spent :
      (code : String) (verifier : Option String) (expected : AuthorizationCodeExpectation) (now : ℕ)
      (s : OAuthStoreState)
      → IsSpent (sha code) s.authorization_codes
      → consume_authorization_code sha code verifier expected now s ≡ (err invalid_grant_error, s)
  unfolding consume_authorization_code check_authorization_code
  consume_spent code verifier expected now s v = ground (arith, v.stored, v.used)

  set-IsSpent :
      (hash key : String) (r : AuthorizationCodeRecord) (codes : Dict AuthorizationCodeRecord)
      → key ≢ hash
      → IsSpent hash codes
      → IsSpent hash (set key r codes)
  set-IsSpent hash key r codes other v = record {
    found = v.found;
    stored = rw (lookup-set key hash r codes) (ground (arith, eq_iff key hash, v.stored));
    used = v.used;
  }

  consume-IsSpent :
      (hash code : String) (verifier : Option String) (expected : AuthorizationCodeExpectation)
      (now : ℕ) (s : OAuthStoreState)
      → IsSpent hash s.authorization_codes
      → IsSpent hash
          (consume_authorization_code sha code verifier expected now s).1.authorization_codes
  consume-IsSpent hash code verifier expected now s v =
      elim (consume_authorization_code_cases sha code verifier expected now s) [
        | inl (r, t, done) ↦ elim (Bool-cases (sha code == hash)) [
          | inl same ↦
              let spent =
                consume_spent code verifier expected now s
                  (rw ((eq_iff (sha code) hash).0 same) v) in
              absurd (ground (arith, spent))
          | inr other ↦
              let (found, stored, allowed, marked, written) =
                (consume_authorization_code-eq-ok_iff sha code verifier expected now s t r).0
                  done in
              rw (done, written)
                (set-IsSpent hash (sha code) r s.authorization_codes
                  (ground (arith, eq_iff (sha code) hash)) v)
        ]
        | inr refused ↦ rw refused v
      ]

  step-IsSpent :
      (hash : String) (s : OAuthStoreState) (c : ℕ × Call)
      → SparesCode hash c
      → IsSpent hash s.authorization_codes
      → IsSpent hash (step sha s c).authorization_codes
  unfolding step create_authorization_code
  step-IsSpent hash s (now, creates_code input code) fresh v =
      set-IsSpent hash (sha code) _ s.authorization_codes fresh v
  step-IsSpent hash s (now, consumes_code code verifier expected) fresh v =
      consume-IsSpent hash code verifier expected now s v
  step-IsSpent hash s (now, c) fresh v = subst (IsSpent hash) (sym (step-codes sha s now c refl)) v

  pub run-IsSpent :
      (hash : String) (s : OAuthStoreState) (cs : List (ℕ × Call))
      → All (SparesCode hash) cs
      → IsSpent hash s.authorization_codes
      → IsSpent hash (run sha s cs).authorization_codes
  unfolding run
  run-IsSpent hash s [] fresh v = v
  run-IsSpent hash s (c ∷ cs) fresh v =
      run-IsSpent hash (step sha s c) cs fresh.1 (step-IsSpent hash s c fresh.0 v)

  -- Once a code has been redeemed, at a time that is not 0, every later attempt to redeem it is
  -- refused with "invalid_grant" and changes nothing: whatever calls of the store come in between,
  -- if none of them draws a new code with the same hash, and whatever the attempt presents.
  pub redeemed_once :
      (code : String) (verifier verifier' : Option String)
      (expected expected' : AuthorizationCodeExpectation) (now later : ℕ) (s t : OAuthStoreState)
      (r : AuthorizationCodeRecord) (cs : List (ℕ × Call))
      → 0 < now
      → consume_authorization_code sha code verifier expected now s ≡ (ok r, t)
      → All (SparesCode (sha code)) cs
      → consume_authorization_code sha code verifier' expected' later (run sha t cs)
        ≡ (err invalid_grant_error, run sha t cs)
  redeemed_once code verifier verifier' expected expected' now later s t r cs positive done fresh =
      let (found, stored, allowed, marked, written) =
        (consume_authorization_code-eq-ok_iff sha code verifier expected now s t r).0 done in
      consume_spent code verifier' expected' later (run sha t cs) (
        run-IsSpent (sha code) t cs fresh record {
          found = r;
          stored = rw (written, lookup-set_self);
          used = rw marked (ground arith);
        })
