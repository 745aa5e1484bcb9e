-- ===== src/OAuth/ClientAssertion/Keys.antt =====
-- auth/client-assertion.ts: the key set of a client, its cache, and the whole check of an assertion.
-- `create_public_key` is the runtime's, and `modulus_length` gives the bits of an RSA key.
use Prim.Native.String
use encore_mcp_base.Base.{
  ℕ, ◌-◌, ◌/◌, String, Bool, true, false, not, ◌||◌, Option, none, some, [], Result, ok, err, ◌>>=◌,
  ◌>>◌, throw_if, or_throw, Thrown, service, invalid_client, leb, is_some, truthy, if◌then◌else◌,
}
use encore_mcp_base.Base.Dict.{Dict, lookup, set}
use encore_mcp_base.Mcp.Json.{
  Json, string, array, Items, no_items, item, Fields, get_field, as_object,
}
use encore_mcp_base.OAuth.Clients.{OAuthClient, invalid_client_error}
use encore_mcp_base.OAuth.ExpiringCache.{
  ExpiringCacheEntry, read_expiring_cache, write_expiring_cache,
}
use encore_mcp_base.OAuth.Jwt.{is_text, jwt_kid, verify_jwt}
use encore_mcp_base.OAuth.ClientAssertion.{safe_string, validate_assertion_claims}

abbrev pub maximum_client_jwks_cache_entries : ℕ
maximum_client_jwks_cache_entries = 64

-- A text or nothing, as `value !== undefined && value !== text` lets pass.
abbrev is_text_or_absent : Option Json → String → Bool
is_text_or_absent none t = true
is_text_or_absent value t = is_text value t

abbrev includes_text : String → Items → Bool
includes_text t no_items = false
includes_text t (item value rest) = is_text (some value) t || includes_text t rest

-- `key_ops === undefined || Array.isArray(key_ops) && key_ops.includes("verify")`
abbrev may_verify : Option Json → Bool
may_verify none = true
may_verify (some (array ops)) = includes_text "verify" ops
may_verify value = false

abbrev text_field : String → Fields → Result String
text_field key fields = elim (get_field key fields) [
  | some (string s) ↦ ok s
  | other ↦ err invalid_client_error
]

abbrev is_invalid_client : Thrown → Bool
is_invalid_client (service e) = elim e.code [ invalid_client ↦ true | _ ↦ false ]
is_invalid_client e = false

-- The `catch` of the whole check.
abbrev pub only_invalid_client : Result (Unit {0}) → Result (Unit {0})
only_invalid_client (ok done) = ok done
only_invalid_client (err e) = if is_invalid_client e then err e else err invalid_client_error

-- A document of the fetch or of the durable cache: its body, and the seconds it may be kept.
pub record Document : Type 0 where
  pub body : Json
  pub cache_seconds : ℕ

pub record MetadataCacheEntry : Type 0 where
  pub body : Json
  pub expires_at : ℕ

abbrev pub JwksCache : Type 0 → Type 0
JwksCache Key = Dict (ExpiringCacheEntry (Dict Key))

-- The module's two caches.
pub record AssertionState (Key : Type 0) : Type 0 where
  pub replay : Dict ℕ
  pub jwks : JwksCache Key

module _ {Key : Type 0} (create_public_key : String → String → Result Key)
    (modulus_length : Key → Option ℕ) where
  unfoldable pub strong_client_jwks_rsa_key : Key → Bool
  strong_client_jwks_rsa_key key = elim (modulus_length key) [
    | none ↦ false
    | some bits ↦ leb 2048 bits
  ]

  unfoldable pub parse_jwk : Json → Result (String × Key)
  parse_jwk value = do
    record_ ← or_throw (as_object value) invalid_client_error
    throw_if (not (is_text (get_field "kty" record_) "RSA")) invalid_client_error
    n ← text_field "n" record_
    e ← text_field "e" record_
    throw_if (not (is_text_or_absent (get_field "use" record_) "sig")) invalid_client_error
    throw_if (not (is_text_or_absent (get_field "alg" record_) "RS256")) invalid_client_error
    throw_if (not (may_verify (get_field "key_ops" record_))) invalid_client_error
    kid ← safe_string (get_field "kid" record_)
    key ← create_public_key n e
    throw_if (not (strong_client_jwks_rsa_key key)) invalid_client_error
    ok (kid, key)

  -- The loop over the keys, with the map that it fills.
  unfoldable pub parse_keys : Items → Dict Key → Result (Dict Key)
  parse_keys no_items keys = ok keys
  parse_keys (item value rest) keys = elim (parse_jwk value) [
    | err e ↦ err e
    | ok (kid, key) ↦
        let more = parse_keys rest (set kid key keys) in
        if is_some (lookup kid keys) then err invalid_client_error else more
  ]

  unfoldable pub parse_jwks : Json → Result (Dict Key)
  parse_jwks body = elim (as_object body) [
    | none ↦ err invalid_client_error
    | some record_ ↦ elim (get_field "keys" record_) [
      | some (array no_items) ↦ err invalid_client_error
      | some (array (item first rest)) ↦ parse_keys (item first rest) []
      | other ↦ err invalid_client_error
    ]
  ]

  abbrev keep_keys :
      String → Result (Dict Key) → ℕ → ℕ → JwksCache Key → Result (Dict Key) × JwksCache Key
  keep_keys cache_key (err e) seconds now_ms cache = (err e, cache)
  keep_keys cache_key (ok keys) seconds now_ms cache = (
    ok keys,
    write_expiring_cache cache cache_key keys seconds maximum_client_jwks_cache_entries now_ms,
  )

  -- `clientJwks`, with `cachedJwks`: what the durable cache holds, and what the fetch gives.
  unfoldable pub client_jwks :
      Bool
      → String
      → Result (Option MetadataCacheEntry)
      → Result Document
      → ℕ
      → JwksCache Key
      → Result (Dict Key) × JwksCache Key
  client_jwks production jwks_uri durable fetched now_ms cache =
      let cache_key =
        String.◌++◌ (if production then "true" else "false") (String.◌++◌ "\0" jwks_uri) in
      let (cached, left) = read_expiring_cache cache cache_key now_ms in
      elim cached [
        | some keys ↦ (ok keys, left)
        | none ↦ elim durable [
          | err e ↦ (err e, left)
          | ok (some entry) ↦
              keep_keys cache_key (parse_jwks entry.body) (entry.expires_at - now_ms / 1000) now_ms
                left
          | ok none ↦ elim fetched [
            | err e ↦ (err e, left)
            | ok document ↦
                keep_keys cache_key (parse_jwks document.body) document.cache_seconds now_ms left
          ]
        ]
      ]

  module _ (parse_json : String → Option Json) (verify_signature : Key → String → String → Bool)
      (issuer : String) (production : Bool) where
    -- The key that an assertion names, and the cache that is left.
    unfoldable pub client_assertion_key :
        String
        → String
        → Result (Option MetadataCacheEntry)
        → Result Document
        → ℕ
        → JwksCache Key
        → Result Key × JwksCache Key
    client_assertion_key jwks_uri assertion durable fetched now_ms cache =
        elim (jwt_kid parse_json assertion) [
          | err e ↦ (err e, cache)
          | ok kid ↦
              let (keys, left) = client_jwks production jwks_uri durable fetched now_ms cache in
              (keys >>= λ m. or_throw (lookup kid m) invalid_client_error, left)
        ]

    -- The claims of an assertion under a key, checked.
    abbrev pub validate_under :
        Result Key → String → String → ℕ → Dict ℕ → Result (Unit {0}) × Dict ℕ
    validate_under key client_id assertion now cache =
        elim (key >>= λ k. verify_jwt parse_json verify_signature assertion k) [
          | err e ↦ (err e, cache)
          | ok claims ↦ validate_assertion_claims issuer client_id claims now cache
        ]

    unfoldable pub assert_private_key_jwt_client_assertion :
        OAuthClient
        → Option String
        → Result (Option MetadataCacheEntry)
        → Result Document
        → ℕ
        → AssertionState Key
        → Result (Unit {0}) × AssertionState Key
    assert_private_key_jwt_client_assertion client assertion durable fetched now_ms state =
        elim (truthy assertion) [
          | none ↦ (err invalid_client_error, state)
          | some token ↦ elim (truthy client.jwks_uri) [
            | none ↦ (err invalid_client_error, state)
            | some jwks_uri ↦
                let (key, jwks) =
                  client_assertion_key jwks_uri token durable fetched now_ms state.jwks in
                let (result, replay) =
                  validate_under key client.client_id token (now_ms / 1000) state.replay in
                (only_invalid_client result, record { replay = replay; jwks = jwks })
          ]
        ]
