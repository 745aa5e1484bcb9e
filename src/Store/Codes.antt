-- ===== src/Store/Codes.antt =====
-- auth/storage/disk-store.ts: the authorization codes. `sha` is the SHA-256 digest in base64url of
-- shared/crypto.ts, both `sha256Base64Url` and `s256Challenge`; a random token and the time that
-- an operation reads are arguments.
pub mod Redeem
pub mod Replay
use encore_mcp_base.Base.{
  ℕ, ◌+◌, String, Bool, true, false, not, ◌||◌, Option, none, some, List, [], ◌∷◌, Result, ok, err,
  ◌>>=◌, ◌>>◌, throw_if, or_throw, truthy, truthy_number, ◌==◌, contains, any, if◌then◌else◌,
}
use encore_mcp_base.Base.Dict.{lookup, set}
use encore_mcp_base.OAuth.Pkce.{pkce_verifier}
use encore_mcp_base.Store.Records.{
  AuthorizationCodeRecord, AuthorizationCodeInput, AuthorizationCodeExpectation, OAuthStoreState,
  Operation, update, is_expired, invalid_grant_error,
}

-- `expected.resource !== undefined && record.resource !== expected.resource`
unfoldable pub differs : Option String → String → Bool
differs none actual = false
differs (some wanted) actual = not (actual == wanted)

-- `allowed && !allowed.includes(value)`
unfoldable pub excludes : Option (List String) → String → Bool
excludes none value = false
excludes (some allowed) value = not (contains allowed value)

-- `allowed && values.some((value) => !allowed.includes(value))`
unfoldable pub excludes_some : Option (List String) → List String → Bool
excludes_some none values = false
excludes_some (some allowed) values = any (λ v. not (contains allowed v)) values

abbrev pub mark_consumed : ℕ → AuthorizationCodeRecord → AuthorizationCodeRecord
mark_consumed now found = record found { consumed_at = some now }

module _ (sha : String → String) where
  unfoldable pub authorization_code_record :
      AuthorizationCodeInput → String → ℕ → AuthorizationCodeRecord
  authorization_code_record input code now = record {
    code_hash = sha code;
    client_id = input.client_id;
    redirect_uri = input.redirect_uri;
    resource = input.resource;
    scopes = input.scopes;
    nonce = truthy input.nonce;
    code_challenge = truthy input.code_challenge;
    code_challenge_method = input.code_challenge_method;
    user = input.user;
    expires_at = now + input.ttl_seconds;
    consumed_at = none;
    auth_time = now;
    created_at = now;
  }

  unfoldable pub create_authorization_code : AuthorizationCodeInput → String → ℕ → Operation String
  unfolding authorization_code_record
  create_authorization_code input code now = update λ s. ok (
    code,
    record s {
      authorization_codes =
          set (sha code) (authorization_code_record input code now) s.authorization_codes;
    },
  )

  unfoldable pub check_challenge : Option String → Option String → Result (Unit {0})
  check_challenge challenge verifier = elim (truthy challenge) [
    | none ↦ ok tt
    | some c ↦ do
      checked ← pkce_verifier verifier
      throw_if (not (sha checked == c)) invalid_grant_error
  ]

  unfoldable pub check_authorization_code :
      AuthorizationCodeRecord → Option String → AuthorizationCodeExpectation → ℕ → Result (Unit {0})
  check_authorization_code found verifier expected now = do
    throw_if (truthy_number found.consumed_at || is_expired found.expires_at now)
        invalid_grant_error
    throw_if
        (not (found.client_id == expected.client_id)
          || not (found.redirect_uri == expected.redirect_uri))
        invalid_grant_error
    throw_if (differs expected.resource found.resource) invalid_grant_error
    throw_if (excludes expected.allowed_resources found.resource) invalid_grant_error
    throw_if (excludes_some expected.allowed_scopes found.scopes) invalid_grant_error
    check_challenge found.code_challenge verifier

  unfoldable pub consume_authorization_code :
      String → Option String → AuthorizationCodeExpectation → ℕ → Operation AuthorizationCodeRecord
  consume_authorization_code code verifier expected now = update λ s. do
    found ← or_throw (lookup (sha code) s.authorization_codes) invalid_grant_error
    check_authorization_code found verifier expected now
    ok (
      mark_consumed now found,
      record s {
        authorization_codes = set (sha code) (mark_consumed now found) s.authorization_codes;
      },
    )
