-- ===== src/Store/Records.antt =====
-- auth/storage/store-records.ts, store-inputs.ts, expiration.ts and auth/user-profile.ts: the data
-- that the store keeps, the inputs of its operations, and how an operation changes the store.
use encore_mcp_base.Base.{
  ℕ, String, ◌≡◌, refl, arith, Bool, Option, List, [], Result, ok, err, service_error,
  invalid_grant, Thrown, leb,
}
use encore_mcp_base.Base.Dict.{Dict}

pub record UserProfile : Type 0 where
  pub sub : String
  pub given_name : String
  pub family_name : String
  pub name : String
  pub preferred_username : String
  pub email : String
  pub email_verified : Bool

-- The type "S256".
pub data CodeChallengeMethod : Type 0 where
  s256 : CodeChallengeMethod

pub record AuthorizationCodeRecord : Type 0 where
  pub code_hash : String
  pub client_id : String
  pub redirect_uri : String
  pub resource : String
  pub scopes : List String
  pub nonce : Option String
  pub code_challenge : Option String
  pub code_challenge_method : Option CodeChallengeMethod
  pub user : UserProfile
  pub expires_at : ℕ
  pub consumed_at : Option ℕ
  pub auth_time : ℕ
  pub created_at : ℕ

pub record RefreshTokenRecord : Type 0 where
  pub token_hash : String
  pub family_id : String
  pub client_id : String
  pub user : UserProfile
  pub resource : String
  pub scopes : List String
  pub expires_at : ℕ
  pub auth_time : ℕ
  pub rotated_from_hash : Option String
  pub revoked_at : Option ℕ
  pub created_at : ℕ
  pub last_used_at : Option ℕ

pub record UpstreamAuthorizationStateRecord : Type 0 where
  pub state_hash : String
  pub client_id : String
  pub redirect_uri : String
  pub resource : String
  pub scopes : List String
  pub client_state : String
  pub code_verifier : String
  pub upstream_nonce : String
  pub nonce : Option String
  pub code_challenge : Option String
  pub code_challenge_method : Option CodeChallengeMethod
  pub expires_at : ℕ
  pub created_at : ℕ

pub record McpSessionRecord : Type 0 where
  pub session_id_hash : String
  pub client_id : String
  pub protocol_version : String
  pub created_at : ℕ
  pub last_seen_at : ℕ
  pub expires_at : ℕ
  pub request_id_hashes : List String
  pub initialized_at : Option ℕ
  pub terminated_at : Option ℕ

pub record RateLimitRecord : Type 0 where
  pub window_start : ℕ
  pub previous_count : ℕ
  pub current_count : ℕ
  pub expires_at : ℕ

pub record OAuthStoreState : Type 0 where
  pub authorization_codes : Dict AuthorizationCodeRecord
  pub refresh_tokens : Dict RefreshTokenRecord
  pub upstream_authorization_states : Dict UpstreamAuthorizationStateRecord
  pub mcp_sessions : Dict McpSessionRecord
  pub rate_limits : Dict RateLimitRecord

abbrev pub empty_store_state : OAuthStoreState
empty_store_state = record {
  authorization_codes = [];
  refresh_tokens = [];
  upstream_authorization_states = [];
  mcp_sessions = [];
  rate_limits = [];
}

pub record AuthorizationCodeInput : Type 0 where
  pub client_id : String
  pub redirect_uri : String
  pub resource : String
  pub scopes : List String
  pub nonce : Option String
  pub code_challenge : Option String
  pub code_challenge_method : Option CodeChallengeMethod
  pub user : UserProfile
  pub ttl_seconds : ℕ

pub record AuthorizationCodeExpectation : Type 0 where
  pub client_id : String
  pub redirect_uri : String
  pub resource : Option String
  pub allowed_resources : Option (List String)
  pub allowed_scopes : Option (List String)

pub record RefreshTokenInput : Type 0 where
  pub client_id : String
  pub user : UserProfile
  pub resource : String
  pub scopes : List String
  pub auth_time : ℕ
  pub ttl_seconds : ℕ

pub record UpstreamAuthorizationStateInput : Type 0 where
  pub client_id : String
  pub redirect_uri : String
  pub resource : String
  pub scopes : List String
  pub client_state : String
  pub code_verifier : String
  pub upstream_nonce : String
  pub nonce : Option String
  pub code_challenge : Option String
  pub code_challenge_method : Option CodeChallengeMethod
  pub ttl_seconds : ℕ

abbrev pub is_expired : ℕ → ℕ → Bool
is_expired expires_at now = leb expires_at now

-- An operation: what it returns or throws, and the store that the file holds afterwards.
abbrev pub Operation : Type 0 → Type 0
Operation A = OAuthStoreState → Result A × OAuthStoreState

-- `StoreFile.update`: the new state is written only if the callback returns.
abbrev pub update : {A : Type 0} → (OAuthStoreState → Result (A × OAuthStoreState)) → Operation A
update f s = elim (f s) [ ok (a, t) ↦ (ok a, t) | err e ↦ (err e, s) ]

-- An operation behind a computation that can throw, and behind another operation.
abbrev pub given : {A B : Type 0} → Result A → (A → Operation B) → Operation B
given (ok a) f s = f a s
given (err e) f s = (err e, s)

abbrev pub after : {A B : Type 0} → Operation A → (A → Operation B) → Operation B
after m f s = given (m s).0 f (m s).1

abbrev pub invalid_grant_error : Thrown
invalid_grant_error = service_error invalid_grant "invalid grant" 400

pub given-eq-ok :
    {A B : Type 0} (m : Result A) (f : A → Operation B) (s t : OAuthStoreState) {b : B}
    → given m f s ≡ (ok b, t)
    → (a : A) × (m ≡ ok a) × (f a s ≡ (ok b, t))
given-eq-ok (ok a) f s t h = (a, refl, h)
given-eq-ok (err e) f s t h = absurd (ground arith)

pub after-eq-ok :
    {A B : Type 0} (m : Operation A) (f : A → Operation B) (s t : OAuthStoreState) {b : B}
    → after m f s ≡ (ok b, t)
    → (a : A) × (u : OAuthStoreState) × (m s ≡ (ok a, u)) × (f a u ≡ (ok b, t))
after-eq-ok m f s t h =
    let (a, returned, rest) = given-eq-ok (m s).0 f (m s).1 t h in (a, (m s).1, ground arith, rest)
