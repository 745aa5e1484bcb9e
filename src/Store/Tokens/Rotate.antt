-- ===== src/Store/Tokens/Rotate.antt =====
-- When a refresh token is rotated, and what a reuse does: `rotateRefreshToken` of
-- auth/storage/disk-store.ts.
use mathlib.Core.Bool.{false≢true}
use encore_mcp_base.Base.{
  ℕ, ◌<◌, ◌+◌, none, [], ◌∷◌, ◌==◌, if◌then◌else◌, String, true, false, ◌≡◌, ◌↔◌, ◌⊎◌, Option, some,
  List, Mem, Result, ok, err, arith, truthy_number, eq_iff, Bool-cases, Option-cases, inl, inr, All,
}
use encore_mcp_base.Base.Dict.{Dict, lookup, set, any_value, map_values}
use encore_mcp_base.Store.Records.{RefreshTokenRecord, OAuthStoreState, invalid_grant_error}
use encore_mcp_base.Store.Codes.Redeem.{differs_iff, excludes_iff}
use encore_mcp_base.Store.Tokens.{
  is_rotated_from, check_refresh_token, successor, mark_used, rotate, rotate_refresh_token,
}

-- What entitles a client to use a refresh token, rotated or not.
pub record IsUsable (found : RefreshTokenRecord) (client_id : String) (resource : Option String)
    (allowed : Option (List String)) (now : ℕ) : Type 0 where
  pub unrevoked : truthy_number found.revoked_at ≡ false
  pub unexpired : now < found.expires_at
  pub same_client : found.client_id ≡ client_id
  pub same_resource : (w : String) → resource ≡ some w → found.resource ≡ w
  pub resource_allowed : (l : List String) → allowed ≡ some l → Mem found.resource l

pub check_refresh_token_iff :
    (found : RefreshTokenRecord) (client_id : String) (resource : Option String)
    (allowed : Option (List String)) (now : ℕ)
    → (check_refresh_token found client_id resource allowed now ≡ ok tt)
      ↔ IsUsable found client_id resource allowed now
unfolding check_refresh_token
check_refresh_token_iff found client_id resource allowed now = (
  λ h. record {
    unrevoked = ground arith;
    unexpired = ground arith;
    same_client = ground (arith, eq_iff found.client_id client_id);
    same_resource = (differs_iff resource found.resource).0 (ground arith);
    resource_allowed = (excludes_iff allowed found.resource).0 (ground arith);
  },
  λ u. ground (
    arith,
    (eq_iff found.client_id client_id).1 u.same_client,
    (differs_iff resource found.resource).1 u.same_resource,
    (excludes_iff allowed found.resource).1 u.resource_allowed,
  ),
)

check_refresh_token_cases :
    (found : RefreshTokenRecord) (client_id : String) (resource : Option String)
    (allowed : Option (List String)) (now : ℕ)
    → (check_refresh_token found client_id resource allowed now ≡ ok tt)
      ⊎ (check_refresh_token found client_id resource allowed now ≡ err invalid_grant_error)
unfolding check_refresh_token
check_refresh_token_cases found client_id resource allowed now = ground arith

-- A stored record was rotated from the hash.
abbrev pub HasSuccessor : String → Dict RefreshTokenRecord → Type 0
HasSuccessor hash [] = ⊥
HasSuccessor hash ((key, r) ∷ rest) = (r.rotated_from_hash ≡ some hash) ⊎ HasSuccessor hash rest

is_rotated_from-eq :
    (hash : String) (r : RefreshTokenRecord)
    → (is_rotated_from hash r ≡ true) ↔ (r.rotated_from_hash ≡ some hash)
is_rotated_from-eq hash r = elim (Option-cases r.rotated_from_hash) [
  | inl first ↦ ground (arith, first)
  | inr (h, from) ↦ ground (arith, from, eq_iff h hash)
]

pub HasSuccessor-iff :
    (hash : String) (tokens : Dict RefreshTokenRecord)
    → (any_value (is_rotated_from hash) tokens ≡ true) ↔ HasSuccessor hash tokens
unfolding any_value
HasSuccessor-iff hash [] = (λ h. absurd (false≢true h), λ h. absurd h)
HasSuccessor-iff hash ((key, r) ∷ rest) =
    ground (arith, is_rotated_from-eq hash r, HasSuccessor-iff hash rest)

-- No stored record was rotated from the hash.
abbrev pub HasNoSuccessor : String → Dict RefreshTokenRecord → Type 0
HasNoSuccessor hash = All (λ e. is_rotated_from hash e.1 ≡ false)

module _ (sha : String → String) where
  abbrev pub rotated_tokens :
      RefreshTokenRecord
      → String
      → String
      → ℕ
      → ℕ
      → Dict RefreshTokenRecord
      → Dict RefreshTokenRecord
  rotated_tokens found token new_token ttl now tokens =
      set (sha new_token) (successor sha found (sha token) new_token ttl now)
        (set (sha token) (mark_used now found) tokens)

  module _ (token client_id : String) (ttl : ℕ) (resource : Option String)
      (allowed : Option (List String)) (new_token : String) (now : ℕ) (s : OAuthStoreState) where
    abbrev outcome : Result (RefreshTokenRecord × String) × OAuthStoreState
    outcome = rotate_refresh_token sha token client_id ttl resource allowed new_token now s

    -- The three ways in which a rotation ends.
    pub data Outcome : Type 0 where
      refuses :
          ((found : RefreshTokenRecord)
            → lookup (sha token) s.refresh_tokens ≡ some found
            → ¬ IsUsable found client_id resource allowed now)
          → outcome ≡ (err invalid_grant_error, s)
          → Outcome
      revokes :
          (found : RefreshTokenRecord)
          → lookup (sha token) s.refresh_tokens ≡ some found
          → IsUsable found client_id resource allowed now
          → HasSuccessor (sha token) s.refresh_tokens
          → outcome ≡ (
            err invalid_grant_error,
            record s {
              refresh_tokens =
                  map_values
                    (λ r.
                      if r.family_id == found.family_id
                      then record r { revoked_at = some now }
                      else r)
                    s.refresh_tokens;
            },
          )
          → Outcome
      rotates :
          (found : RefreshTokenRecord)
          → lookup (sha token) s.refresh_tokens ≡ some found
          → IsUsable found client_id resource allowed now
          → ¬ HasSuccessor (sha token) s.refresh_tokens
          → outcome ≡ (
            ok (record found { last_used_at = some now }, new_token),
            record s {
              refresh_tokens =
                  set
                    (sha new_token)
                    (record {
                      token_hash = sha new_token;
                      family_id = found.family_id;
                      client_id = found.client_id;
                      user = found.user;
                      resource = found.resource;
                      scopes = found.scopes;
                      expires_at = now + ttl;
                      auth_time = found.auth_time;
                      rotated_from_hash = some (sha token);
                      revoked_at = none;
                      created_at = now;
                      last_used_at = none;
                    })
                    (set (sha token) (record found { last_used_at = some now }) s.refresh_tokens);
            },
          )
          → Outcome

    -- A rotation ends in one of three ways. The token is unknown, or not usable by the client for the
    -- resource at the time: "invalid_grant", and the store is as it was. It is usable, but another
    -- was rotated from it: "invalid_grant", and every token of its family is revoked. It is usable
    -- and was not rotated: the new token is stored in the same family, the old one is marked as used.
    pub rotate_refresh_token_cases : Outcome
    unfolding rotate_refresh_token rotate successor
    rotate_refresh_token_cases = elim (Option-cases (lookup (sha token) s.refresh_tokens)) [
      | inl missing ↦ refuses (λ found stored u. cc) (ground arith)
      | inr (found, stored) ↦
          elim (check_refresh_token_cases found client_id resource allowed now) [
            | inr refused ↦
                refuses
                  (λ found' stored' u.
                    ground
                      (arith, (check_refresh_token_iff found' client_id resource allowed now).1 u))
                  (ground arith)
            | inl passed ↦
                elim (Bool-cases (any_value (is_rotated_from (sha token)) s.refresh_tokens)) [
                  | inl used ↦
                      revokes found stored
                        ((check_refresh_token_iff found client_id resource allowed now).0 passed)
                        ((HasSuccessor-iff (sha token) s.refresh_tokens).0 used) (ground arith)
                  | inr fresh ↦
                      rotates found stored
                        ((check_refresh_token_iff found client_id resource allowed now).0 passed)
                        (λ successor.
                          cc ((HasSuccessor-iff (sha token) s.refresh_tokens).1 successor, fresh))
                        (ground arith)
                ]
          ]
    ]
