-- ===== src/Store/Tests/Codes.antt =====
-- Authorization codes and upstream states of auth/storage/disk-store.ts at concrete inputs.
use encore_mcp_base.Base.{
  ℕ, String, ◌≡◌, ◌≢◌, refl, ◌↔◌, none, some, List, [], ◌∷◌, ok, err, arith, eq_iff,
}
use encore_mcp_base.Base.Dict.{lookup, set}
use encore_mcp_base.Store.Records.{
  AuthorizationCodeRecord, AuthorizationCodeInput, AuthorizationCodeExpectation, OAuthStoreState,
  s256, empty_store_state, invalid_grant_error,
}
use encore_mcp_base.Store.Codes.{
  create_authorization_code, consume_authorization_code, mark_consumed,
}
use encore_mcp_base.Store.Codes.Redeem.{IsRedeemable, consume_authorization_code-eq-ok_iff}
use encore_mcp_base.Store.Codes.Replay.{redeemed_once}
use encore_mcp_base.Store.History.{Call, creates_code, consumes_code, run}
use encore_mcp_base.Store.Tests.{store, sha, ann}

abbrev pub verifier : String
verifier = "abcdefghijklmnopqrstuvwxyz0123456789-._~ABCDE"

abbrev pub code_input : AuthorizationCodeInput
code_input = record {
  client_id = "gpt";
  redirect_uri = "https://chatgpt.com/cb";
  resource = "https://s.example/mcp";
  scopes = "openid" ∷ [];
  nonce = none;
  code_challenge = some verifier;
  code_challenge_method = some s256;
  user = ann;
  ttl_seconds = 60;
}

abbrev pub expected : AuthorizationCodeExpectation
expected = record {
  client_id = "gpt";
  redirect_uri = "https://chatgpt.com/cb";
  resource = some "https://s.example/mcp";
  allowed_resources = some ("https://s.example/mcp" ∷ []);
  allowed_scopes = some ("openid" ∷ "email" ∷ []);
}

abbrev pub code_record : AuthorizationCodeRecord
code_record = record {
  code_hash = "code";
  client_id = "gpt";
  redirect_uri = "https://chatgpt.com/cb";
  resource = "https://s.example/mcp";
  scopes = "openid" ∷ [];
  nonce = none;
  code_challenge = some verifier;
  code_challenge_method = some s256;
  user = ann;
  expires_at = 160;
  consumed_at = none;
  auth_time = 100;
  created_at = 100;
}

abbrev pub with_code : OAuthStoreState
with_code = record empty_store_state { authorization_codes = ("code", code_record) ∷ [] }

abbrev spent : OAuthStoreState
spent = record empty_store_state {
  authorization_codes = ("code", mark_consumed 110 code_record) ∷ [];
}

code_tests :
    (create_authorization_code sha code_input "code" 100 empty_store_state ≡ (ok "code", with_code))
    × (consume_authorization_code sha "code" (some verifier) expected 110 with_code
        ≡ (ok (mark_consumed 110 code_record), spent))
    × (consume_authorization_code sha "code" none expected 110 with_code
        ≡ (err invalid_grant_error, with_code))
    × (consume_authorization_code sha "code" (some verifier) expected 160 with_code
        ≡ (err invalid_grant_error, with_code))
    × (consume_authorization_code sha "code"
          (some verifier)
          (record expected { client_id = "other" })
          110
          with_code
        ≡ (err invalid_grant_error, with_code))
unfolding store
code_tests = (refl, refl, refl, refl, refl)

consume_authorization_code-eq-ok_iff_example :
    (consume_authorization_code sha "code" (some verifier) expected 110 with_code
      ≡ (ok (mark_consumed 110 code_record), spent))
    ↔ ((found : AuthorizationCodeRecord) × (lookup "code" with_code.authorization_codes
          ≡ some found)
        × IsRedeemable sha found (some verifier) expected 110
        × (mark_consumed 110 code_record ≡ record found { consumed_at = some 110 })
        × (spent ≡ record with_code {
          authorization_codes =
              set "code" (mark_consumed 110 code_record) with_code.authorization_codes;
        }))
consume_authorization_code-eq-ok_iff_example =
    consume_authorization_code-eq-ok_iff sha "code" (some verifier) expected 110 with_code spent
      (mark_consumed 110 code_record)

abbrev pub calls : List (ℕ × Call)
calls =
    (120, creates_code code_input "next")
    ∷ (121, consumes_code "next" (some verifier) expected)
    ∷ []

redeemed_once_example :
    consume_authorization_code sha "code" (some verifier) expected 130 (run sha spent calls)
    ≡ (err invalid_grant_error, run sha spent calls)
redeemed_once_example =
    redeemed_once sha "code" (some verifier) (some verifier) expected expected 110 130 with_code
      spent (mark_consumed 110 code_record) calls (omega arith) code_tests.1
      (next_not_code, (tt, tt))
  where
    next_not_code : ◌≢◌ {A = String} "next" "code"
    next_not_code = ground (arith, eq_iff "next" "code")
