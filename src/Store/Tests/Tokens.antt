-- ===== src/Store/Tests/Tokens.antt =====
-- Refresh tokens of auth/storage/disk-store.ts at concrete inputs.
use encore_mcp_base.Base.{◌≡◌, refl, none, some, [], ◌∷◌, ok, err, arith}
use encore_mcp_base.Base.Dict.{lookup}
use encore_mcp_base.Store.Records.{
  RefreshTokenRecord, OAuthStoreState, empty_store_state, invalid_grant_error,
}
use encore_mcp_base.Store.Tokens.{rotate_refresh_token, mark_used}
use encore_mcp_base.Store.Tokens.Rotate.{IsUsable, Outcome, rotate_refresh_token_cases}
use encore_mcp_base.Store.Tokens.Families.{IsSucceeded, reuse_ends_family}
use encore_mcp_base.Store.Tokens.Once.{rotated_once}
use encore_mcp_base.Store.History.{consumes_state}
use encore_mcp_base.Store.History.{run}
use encore_mcp_base.Store.Tests.{store, sha, ann}

abbrev first : RefreshTokenRecord
first = record {
  token_hash = "t1";
  family_id = "f";
  client_id = "gpt";
  user = ann;
  resource = "r";
  scopes = "openid" ∷ [];
  expires_at = 1000;
  auth_time = 10;
  rotated_from_hash = none;
  revoked_at = none;
  created_at = 10;
  last_used_at = none;
}

abbrev second : RefreshTokenRecord
second = record first {
  token_hash = "t2";
  rotated_from_hash = some "t1";
  created_at = 20;
  expires_at = 1020;
}

abbrev fresh : OAuthStoreState
fresh = record empty_store_state { refresh_tokens = ("t1", first) ∷ [] }

abbrev turned : OAuthStoreState
turned = record empty_store_state {
  refresh_tokens = ("t1", mark_used 20 first) ∷ ("t2", second) ∷ [];
}

abbrev revoked : OAuthStoreState
revoked = record empty_store_state {
  refresh_tokens =
      ("t1", record (mark_used 20 first) { revoked_at = some 30 })
      ∷ ("t2", record second { revoked_at = some 30 })
      ∷ [];
}

token_tests :
    (rotate_refresh_token sha "t1" "gpt" 1000 none (some ("r" ∷ [])) "t2" 20 fresh
      ≡ (ok (mark_used 20 first, "t2"), turned))
    × (rotate_refresh_token sha "t1" "gpt" 1000 none none "t3" 30 turned
        ≡ (err invalid_grant_error, revoked))
    × (rotate_refresh_token sha "t1" "other" 1000 none none "t3" 30 turned
        ≡ (err invalid_grant_error, turned))
    × (rotate_refresh_token sha "t2" "gpt" 1000 none none "t3" 30 revoked
        ≡ (err invalid_grant_error, revoked))
unfolding store
token_tests = (refl, refl, refl, refl)

first-IsUsable : IsUsable (mark_used 20 first) "gpt" none none 30
first-IsUsable = record {
  unrevoked = refl;
  unexpired = omega arith;
  same_client = refl;
  same_resource = λ w e. cc;
  resource_allowed = λ l e. absurd (cc);
}

lookups :
    (lookup "t1" turned.refresh_tokens ≡ some (mark_used 20 first))
    × (lookup "t2" turned.refresh_tokens ≡ some second)
unfolding store
lookups = (refl, refl)

second-IsSucceeded : IsSucceeded "t1" "t2" turned.refresh_tokens
second-IsSucceeded = record { next = second; stored = lookups.1; from = refl }

later_lookup :
    lookup "t2"
      (run sha
        (rotate_refresh_token sha "t1" "gpt" 1000 none none "t3" 30 turned).1
        ((40, consumes_state "x") ∷ [])).refresh_tokens
    ≡ some (record second { revoked_at = some 30 })
unfolding store
later_lookup = refl

reuse_ends_family_example :
    ((rotate_refresh_token sha "t1" "gpt" 1000 none none "t3" 30 turned).0
      ≡ err invalid_grant_error)
    × (rotate_refresh_token sha "t2" "gpt" 1000 none none "t4" 50 (
          run sha
            (rotate_refresh_token sha "t1" "gpt" 1000 none none "t3" 30 turned).1
            ((40, consumes_state "x") ∷ []))
        ≡ (
          err invalid_grant_error,
          run sha
              (rotate_refresh_token sha "t1" "gpt" 1000 none none "t3" 30 turned).1
              ((40, consumes_state "x") ∷ []),
        ))
reuse_ends_family_example =
    reuse_ends_family sha "t1" "gpt" 1000 none none "t3" 30 turned (mark_used 20 first) "t2"
      ((40, consumes_state "x") ∷ []) "t2" "gpt" 1000 none none "t4" 50
      (record second { revoked_at = some 30 }) (omega arith) lookups.0 first-IsUsable
      second-IsSucceeded (tt, tt) later_lookup refl

rotated_once_example :
    (rotate_refresh_token sha "t1" "gpt" 1000 none none "t3" 60
      (run sha turned ((40, consumes_state "x") ∷ []))).0
    ≡ err invalid_grant_error
rotated_once_example =
    rotated_once sha "t1" "gpt" "gpt" 1000 1000 none none (some ("r" ∷ [])) none "t2" "t3" 20 60
      fresh turned (mark_used 20 first, "t2") ((40, consumes_state "x") ∷ []) token_tests.0 (tt, tt)

rotate_refresh_token_cases_example : Outcome sha "t1" "gpt" 1000 none none "t3" 30 turned
rotate_refresh_token_cases_example =
    rotate_refresh_token_cases sha "t1" "gpt" 1000 none none "t3" 30 turned
