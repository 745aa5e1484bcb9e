-- ===== src/OAuth/ClientAssertion.antt =====
-- auth/client-assertion.ts: the authentication of a client by a signed assertion (private_key_jwt),
-- with the cache of the client's keys and the cache against replay as its state. The durable cache
-- (`metadataCacheStore`) and the fetch of a key set are arguments: what the one holds and what the
-- other gives. The entry that is written to the durable cache is not modelled.
pub mod Keys
pub mod Accepted
pub mod Audience
pub mod Once
pub mod Replay
use encore_mcp_base.Base.{
  ℕ, ◌+◌, ◌-◌, ◌*◌, ◌/◌, suc, String, Bool, true, false, not, ◌&&◌, ◌||◌, Option, none, some, List,
  [], ◌∷◌, Result, ok, err, ◌>>=◌, ◌>>◌, throw_if, or_throw, Thrown, service, ServiceError,
  ErrorCode, invalid_client, ℤ, pos, negsuc, leb, codes, matches_class, contains, is_some, truthy,
  if◌then◌else◌, ◌==◌,
}
use encore_mcp_base.Base.Dict.{Dict, lookup, set, keep_values}
use encore_mcp_base.Mcp.Json.{
  Json, string, array, Items, no_items, item, number, safe_integer, Fields, get_field, as_object,
}
use encore_mcp_base.OAuth.Clients.{OAuthClient, invalid_client_error}
use encore_mcp_base.OAuth.ExpiringCache.{
  ExpiringCacheEntry, read_expiring_cache, write_expiring_cache,
}
use encore_mcp_base.OAuth.Jwt.{falls_by, is_key_id_char, is_text, jwt_kid, verify_jwt}
use Prim.Native.String

abbrev pub maximum_assertion_lifetime_seconds : ℕ
maximum_assertion_lifetime_seconds = 300

abbrev pub assertion_clock_skew_seconds : ℕ
assertion_clock_skew_seconds = 60

-- `safeString`
unfoldable pub safe_string : Option Json → Result String
safe_string (some (string s)) =
    if matches_class is_key_id_char 1 256 s then ok s else err invalid_client_error
safe_string value = err invalid_client_error

unfoldable pub numeric_date : Option Json → Result ℤ
numeric_date (some (number (safe_integer n))) = ok n
numeric_date value = err invalid_client_error

-- `aud.some(...)`
abbrev pub accepts_item : List String → Items → Bool
accepts_item accepted no_items = false
accepts_item accepted (item (string s) rest) = contains accepted s || accepts_item accepted rest
accepts_item accepted (item value rest) = accepts_item accepted rest

unfoldable pub audience_matches : String → Option Json → Bool
audience_matches issuer (some (string s)) =
    contains (issuer ∷ String.◌++◌ issuer "/oauth/token" ∷ []) s
audience_matches issuer (some (array items)) =
    accepts_item (issuer ∷ String.◌++◌ issuer "/oauth/token" ∷ []) items
audience_matches issuer aud = false

unfoldable pub validate_issued_at : Option Json → ℕ → Result (Unit {0})
validate_issued_at none now = ok tt
validate_issued_at (some value) now = do
  iat ← numeric_date (some value)
  throw_if
      (not (falls_by iat 0 (now + assertion_clock_skew_seconds))
        || falls_by iat (maximum_assertion_lifetime_seconds + assertion_clock_skew_seconds + 1) now)
      invalid_client_error

unfoldable pub validate_not_before : Option Json → ℕ → Result (Unit {0})
validate_not_before none now = ok tt
validate_not_before (some value) now = do
  nbf ← numeric_date (some value)
  throw_if (not (falls_by nbf 0 (now + assertion_clock_skew_seconds))) invalid_client_error

-- `${clientId}\0${jti}`
abbrev pub replay_key : String → String → String
replay_key client_id jti = String.◌++◌ client_id (String.◌++◌ "\0" jti)

-- `exp + assertionClockSkewSeconds`, which is positive: `exp` has been compared with the time.
abbrev pub forget_at : ℤ → ℕ
forget_at (pos n) = n + assertion_clock_skew_seconds
forget_at (negsuc n) = assertion_clock_skew_seconds - suc n

abbrev pub is_later : ℕ → ℕ → Bool
is_later now expires_at = not (leb expires_at now)

-- The result, and the cache: what has expired is deleted also where a replay is refused.
unfoldable pub reject_replay : String → String → ℤ → ℕ → Dict ℕ → Result (Unit {0}) × Dict ℕ
reject_replay client_id jti exp now cache =
    let left = keep_values (is_later now) cache in
    if is_some (lookup (replay_key client_id jti) left)
    then (err invalid_client_error, left)
    else (ok tt, set (replay_key client_id jti) (forget_at exp) left)

-- The checks in front of the one against replay: `jti` and `exp`.
unfoldable pub check_assertion_claims : String → String → Fields → ℕ → Result (String × ℤ)
check_assertion_claims issuer client_id claims now = do
  throw_if
      (not (is_text (get_field "iss" claims) client_id)
        || not (is_text (get_field "sub" claims) client_id))
      invalid_client_error
  throw_if (not (audience_matches issuer (get_field "aud" claims))) invalid_client_error
  exp ← numeric_date (get_field "exp" claims)
  throw_if
      (falls_by exp assertion_clock_skew_seconds now
        || not (
            falls_by exp 0
              (now + maximum_assertion_lifetime_seconds + assertion_clock_skew_seconds)))
      invalid_client_error
  validate_not_before (get_field "nbf" claims) now
  validate_issued_at (get_field "iat" claims) now
  jti ← safe_string (get_field "jti" claims)
  ok (jti, exp)

unfoldable pub validate_assertion_claims :
    String → String → Fields → ℕ → Dict ℕ → Result (Unit {0}) × Dict ℕ
validate_assertion_claims issuer client_id claims now cache =
    elim (check_assertion_claims issuer client_id claims now) [
      | err e ↦ (err e, cache)
      | ok (jti, exp) ↦ reject_replay client_id jti exp now cache
    ]
