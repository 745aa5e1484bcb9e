-- ===== src/OAuth/ClientAssertion/Once.antt =====
-- Over any sequence of assertions, in the order of their times, one is accepted once.
use mathlib.Core.Path.{subst}
use encore_mcp_base.Base.{
  false, Bool-cases, inl, inr, ℕ, ◌/◌, ◌≤◌, String, ◌≡◌, ◌≢◌, refl, sym, ◌∙◌, ap, ◌⊎◌, arith, Bool,
  Option, some, List, [], ◌∷◌, ◌++◌, Result, ok, err, ◌>>=◌, or_throw, ok_inj, some_inj,
  Option-cases, Result-cases, Thrown, ℤ, truthy,
}
use encore_mcp_base.Base.Dict.{Dict, lookup}
use encore_mcp_base.Mcp.Json.{Json, Fields, as_object}
use encore_mcp_base.OAuth.Clients.{OAuthClient, invalid_client_error}
use encore_mcp_base.OAuth.Jwt.{jwt_parts, verify_jwt, decode_json_base64_url, jwt_error}
use encore_mcp_base.OAuth.Jwt.{falls_by}
use encore_mcp_base.OAuth.ClientAssertion.{
  forget_at, replay_key, check_assertion_claims, validate_assertion_claims,
}
use encore_mcp_base.OAuth.ClientAssertion.Accepted.{
  IsBy, IsBy-iff, IsAcceptable, check_assertion_claims-IsAcceptable,
}
use encore_mcp_base.OAuth.ClientAssertion.Replay.{
  IsSpent, reject_replay-IsSpent, reject_replay-ok, reject_replay-refuses,
}
use encore_mcp_base.OAuth.ClientAssertion.Keys.{
  AssertionState, MetadataCacheEntry, Document, only_invalid_client, client_assertion_key,
  validate_under, assert_private_key_jwt_client_assertion,
}

-- The claims that a token carries, whatever key signs it.
abbrev claims_of : (String → Option Json) → String → Result Fields
claims_of parse_json token = do
  parts ← jwt_parts token
  payload ← or_throw (decode_json_base64_url parse_json parts.payload) jwt_error
  or_throw (as_object payload) jwt_error

verify_jwt-claims :
    {Key : Type 0} (parse_json : String → Option Json) (verify : Key → String → String → Bool)
    (token : String) (key : Key) (claims : Fields)
    → verify_jwt parse_json verify token key ≡ ok claims
    → claims_of parse_json token ≡ ok claims
unfolding verify_jwt
verify_jwt-claims parse_json verify token key claims h = ground arith

-- A use of claims keeps a key spent.
validate-IsSpent :
    (issuer client_id : String) (claims : Fields) (now before : ℕ) (key : String) (expiry : ℕ)
    (cache : Dict ℕ)
    → before ≤ now
    → IsSpent key expiry before cache
    → IsSpent key expiry now (validate_assertion_claims issuer client_id claims now cache).1
unfolding validate_assertion_claims
validate-IsSpent issuer client_id claims now before key expiry cache le spent =
    elim (Result-cases (check_assertion_claims issuer client_id claims now)) [
      | inl ((jti, exp), passed) ↦
          rw (validate_assertion_claims, passed)
            (reject_replay-IsSpent client_id jti exp now before key expiry cache le spent)
      | inr (e, refused) ↦ rw (validate_assertion_claims, refused) (later spent)
    ]
  where
    later : IsSpent key expiry before cache → IsSpent key expiry now cache
    later (inl found) = inl found
    later (inr passed) = inr (omega arith)

-- Accepted claims are spent.
validate-ok :
    (issuer client_id : String) (claims : Fields) (now : ℕ) (cache : Dict ℕ)
    → (validate_assertion_claims issuer client_id claims now cache).0 ≡ ok tt
    → (jti : String) × (exp : ℤ) × IsAcceptable issuer client_id claims now jti exp
      × (lookup
            (replay_key client_id jti)
            (validate_assertion_claims issuer client_id claims now cache).1
          ≡ some (forget_at exp))
unfolding validate_assertion_claims
validate-ok issuer client_id claims now cache h =
    elim (Result-cases (check_assertion_claims issuer client_id claims now)) [
      | inl ((jti, exp), passed) ↦ (
        jti,
        exp,
        check_assertion_claims-IsAcceptable issuer client_id claims now jti exp passed,
        rw (validate_assertion_claims, passed)
            (reject_replay-ok client_id jti exp now cache
              (rw (validate_assertion_claims, passed) at h)),
      )
      | inr (e, refused) ↦ absurd (ground (arith, refused))
    ]

still_open : (exp : ℤ) (now : ℕ) → ¬ IsBy exp 60 now → falls_by exp 60 now ≡ false
still_open exp now h = elim (Bool-cases (falls_by exp 60 now)) [
  | inl past ↦ absurd (h ((IsBy-iff exp 60 now).0 past))
  | inr later ↦ later
]

-- Spent claims are refused.
validate-refuses :
    (issuer client_id : String) (claims : Fields) (now before : ℕ) (cache : Dict ℕ) (jti : String)
    (exp : ℤ)
    → IsAcceptable issuer client_id claims before jti exp
    → IsSpent (replay_key client_id jti) (forget_at exp) now cache
    → (validate_assertion_claims issuer client_id claims now cache).0 ≢ ok tt
unfolding validate_assertion_claims
validate-refuses issuer client_id claims now before cache jti exp was spent accepted =
    elim (Result-cases (check_assertion_claims issuer client_id claims now)) [
      | inl ((jti', exp'), passed) ↦
          let is =
            check_assertion_claims-IsAcceptable issuer client_id claims now jti' exp' passed in
          let same_id : jti ≡ jti' = cc (sym was.identified ∙ is.identified) in
          let same_date : exp ≡ exp' = cc (sym was.expires ∙ is.expires) in
          reject_replay-refuses client_id jti' exp' now cache (still_open exp' now is.unexpired)
            (subst (λ i. IsSpent (replay_key client_id i) (forget_at exp') now cache) same_id
              (subst (λ d. IsSpent (replay_key client_id jti) (forget_at d) now cache) same_date
                spent))
            (rw (validate_assertion_claims, passed) at accepted)
      | inr (e, refused) ↦ absurd (ground (arith, refused))
    ]

only_ok : (r : Result (Unit {0})) → only_invalid_client r ≡ ok tt → r ≡ ok tt
only_ok (ok done) h = refl
only_ok (err e) h = absurd (ground arith)

-- A use of an assertion, with what the durable cache and the fetch give at the time.
pub record Use : Type 0 where
  pub client : OAuthClient
  pub assertion : Option String
  pub durable : Result (Option MetadataCacheEntry)
  pub fetched : Result Document
  pub now_ms : ℕ

module _ {Key : Type 0} (create_public_key : String → String → Result Key)
    (modulus_length : Key → Option ℕ) (parse_json : String → Option Json)
    (verify_signature : Key → String → String → Bool) (issuer : String) (production : Bool) where
  unfoldable pub present : Use → AssertionState Key → Result (Unit {0}) × AssertionState Key
  present u state =
      assert_private_key_jwt_client_assertion create_public_key modulus_length parse_json
        verify_signature issuer production u.client u.assertion u.durable u.fetched u.now_ms state

  unfoldable pub present_all : List Use → AssertionState Key → AssertionState Key
  present_all [] state = state
  present_all (u ∷ us) state = present_all us (present u state).1

  -- The uses follow each other in time, from a time on.
  abbrev pub IsOrdered : ℕ → List Use → Type 0
  IsOrdered time [] = Unit {0}
  IsOrdered time (u ∷ us) = (time ≤ u.now_ms) × IsOrdered u.now_ms us

  abbrev under : Use → String → Result Key → Dict ℕ → Result (Unit {0}) × Dict ℕ
  under u token key replay =
      validate_under create_public_key modulus_length parse_json verify_signature issuer production
        key u.client.client_id token (u.now_ms / 1000) replay

  -- No assertion was looked into, or the claims of one were checked under some key, if there is one.
  present_cases :
      (u : Use) (state : AssertionState Key)
      → (((present u state).0 ≡ err invalid_client_error)
          × ((present u state).1.replay ≡ state.replay))
        ⊎ ((token : String) × (key : Result Key) × (truthy u.assertion ≡ some token)
            × ((present u state).0 ≡ only_invalid_client (under u token key state.replay).0)
            × ((present u state).1.replay ≡ (under u token key state.replay).1))
  unfolding present assert_private_key_jwt_client_assertion
  present_cases u state = elim (Option-cases (truthy u.assertion)) [
    | inl missing ↦ inl (ground (arith, missing))
    | inr (token, given) ↦ elim (Option-cases (truthy u.client.jwks_uri)) [
      | inl nowhere ↦ inl (ground (arith, given, nowhere))
      | inr (uri, there) ↦
          let key =
            (client_assertion_key create_public_key modulus_length parse_json verify_signature
              issuer production uri token u.durable u.fetched u.now_ms state.jwks).0 in
          inr (token, key, given, ground (arith, given, there), ground (arith, given, there))
    ]
  ]

  -- The claims that a check under a key looks at are those of the token.
  under_cases :
      (u : Use) (token : String) (key : Result Key) (replay : Dict ℕ)
      → ((e : Thrown) × (under u token key replay ≡ (err e, replay)))
        ⊎ ((claims : Fields) × (claims_of parse_json token ≡ ok claims)
            × (under u token key replay
                ≡ validate_assertion_claims issuer u.client.client_id claims
                    (u.now_ms / 1000)
                    replay))
  under_cases u token (err e) replay = inl (e, refl)
  under_cases u token (ok key) replay =
      elim (Result-cases (verify_jwt parse_json verify_signature token key)) [
        | inl (claims, verified) ↦ inr (
          claims,
          verify_jwt-claims parse_json verify_signature token key claims verified,
          ground (arith, verified),
        )
        | inr (e, refused) ↦ inl (e, ground (arith, refused))
      ]

  still_refused :
      (key : String) (expiry now before : ℕ) (replay : Dict ℕ)
      → before ≤ now
      → IsSpent key expiry before replay
      → IsSpent key expiry now replay
  still_refused key expiry now before replay le (inl found) = inl found
  still_refused key expiry now before replay le (inr passed) = inr (omega arith)

  under-IsSpent :
      (u : Use) (token : String) (key : Result Key) (spent_key : String) (expiry before : ℕ)
      (replay : Dict ℕ)
      → before ≤ u.now_ms / 1000
      → IsSpent spent_key expiry before replay
      → IsSpent spent_key expiry (u.now_ms / 1000) (under u token key replay).1
  under-IsSpent u token key spent_key expiry before replay le spent =
      elim (under_cases u token key replay) [
        | inl (e, same) ↦ rw same (still_refused spent_key expiry _ before replay le spent)
        | inr (claims, carried, same) ↦ rw same (
            validate-IsSpent issuer u.client.client_id claims _ before spent_key expiry replay le
              spent)
      ]

  present-IsSpent :
      (u : Use) (before : ℕ) (key : String) (expiry : ℕ) (state : AssertionState Key)
      → before ≤ u.now_ms
      → IsSpent key expiry (before / 1000) state.replay
      → IsSpent key expiry (u.now_ms / 1000) (present u state).1.replay
  present-IsSpent u before key expiry state le spent = elim (present_cases u state) [
    | inl (refused, same) ↦
        rw same (still_refused key expiry _ (before / 1000) state.replay (omega arith) spent)
    | inr (token, signing_key, given, answer, same) ↦ rw same (
        under-IsSpent u token signing_key key expiry (before / 1000) state.replay (omega arith)
          spent)
  ]

  -- A use that follows spent claims is refused.
  present-refuses :
      (u : Use) (time : ℕ) (state : AssertionState Key) (token : String) (claims : Fields)
      (jti : String) (exp : ℤ) (before : ℕ)
      → truthy u.assertion ≡ some token
      → claims_of parse_json token ≡ ok claims
      → IsAcceptable issuer u.client.client_id claims before jti exp
      → time ≤ u.now_ms
      → IsSpent (replay_key u.client.client_id jti) (forget_at exp) (time / 1000) state.replay
      → (present u state).0 ≢ ok tt
  present-refuses u time state token claims jti exp before given carried was le spent accepted =
      elim (present_cases u state) [
        | inl (refused, same) ↦ absurd (ground arith)
        | inr (token', key, given', answer, same) ↦
            let passed : (under u token' key state.replay).0 ≡ ok tt =
              only_ok _ (sym answer ∙ accepted) in
            let same_token : token' ≡ token = some_inj (sym given' ∙ given) in
            elim (under_cases u token' key state.replay) [
              | inl (e, failed) ↦ absurd (ground arith)
              | inr (claims', carried', checked) ↦
                  let same_claims =
                    ok_inj (sym carried ∙ sym (ap (claims_of parse_json) same_token) ∙ carried') in
                  validate-refuses issuer u.client.client_id claims' (u.now_ms / 1000) before
                    state.replay jti exp
                    (subst (λ c. IsAcceptable issuer u.client.client_id c before jti exp)
                      same_claims was)
                    (still_refused _ _ _ (time / 1000) state.replay (omega arith) spent)
                    (sym (ap (λ r. r.0) checked) ∙ passed)
            ]
      ]

  -- A sequence of uses, and then one that follows spent claims.
  all-refuses :
      (us : List Use) (u : Use) (time : ℕ) (state : AssertionState Key) (token : String)
      (claims : Fields) (jti : String) (exp : ℤ) (before : ℕ)
      → truthy u.assertion ≡ some token
      → claims_of parse_json token ≡ ok claims
      → IsAcceptable issuer u.client.client_id claims before jti exp
      → IsOrdered time (us ++ u ∷ [])
      → IsSpent (replay_key u.client.client_id jti) (forget_at exp) (time / 1000) state.replay
      → (present u (present_all us state)).0 ≢ ok tt
  unfolding present_all
  all-refuses [] u time state token claims jti exp before given carried was ordered spent =
      present-refuses u time state token claims jti exp before given carried was ordered.0 spent
  all-refuses (v ∷ us) u time state token claims jti exp before given carried was ordered spent =
      all-refuses us u v.now_ms (present v state).1 token claims jti exp before given carried was
        ordered.1 (present-IsSpent v time _ _ state ordered.0 spent)

  -- A client's assertion that was accepted is refused in every later use by the client, whatever was
  -- presented in between, whatever keys were fetched, as long as time does not go backwards.
  pub accepted_once :
      (first second : Use) (between : List Use) (state : AssertionState Key)
      → IsOrdered first.now_ms (between ++ second ∷ [])
      → second.client.client_id ≡ first.client.client_id
      → second.assertion ≡ first.assertion
      → (present first state).0 ≡ ok tt
      → (present second (present_all between (present first state).1)).0 ≢ ok tt
  accepted_once first second between state ordered same_client same_assertion accepted =
      elim (present_cases first state) [
        | inl (refused, same) ↦ absurd (ground arith)
        | inr (token, key, given, answer, same) ↦ elim (under_cases first token key state.replay) [
          | inl (e, failed) ↦ absurd (ground arith)
          | inr (claims, carried, checked) ↦
              let passed = only_ok _ (sym answer ∙ accepted) in
              let (jti, exp, was, spent) =
                validate-ok issuer first.client.client_id claims (first.now_ms / 1000) state.replay
                  (sym (ap (λ r. r.0) checked) ∙ passed) in
              all-refuses between second first.now_ms (present first state).1 token claims jti exp
                (first.now_ms / 1000) (ap truthy same_assertion ∙ given) carried
                (rw same_client was) ordered (inl (rw (same_client, same, checked) spent))
        ]
      ]
