-- ===== src/Store/Rows/Unreadable.antt =====
-- Logins whose state is written to the store's file and not read back: upstream-authorization-state-row.ts
-- asks more of a challenge and of a client's state than auth/pkce.ts and auth/oauth-state.ts do.
use mathlib.Core.Path.{subst}
use encore_mcp_base.Base.{
  ℕ, String, ◌≡◌, ◌≢◌, refl, sym, ap, ◌∙◌, arith, ◌⊎◌, false, inl, inr, Option, some, [], ◌∷◌,
  Result, ok, ◌>>=◌, bind-eq-ok, ok_inj, truthy, ◌==◌, Bool-cases,
}
use encore_mcp_base.Base.Dict.{Dict, lookup, lookup-set_self}
use encore_mcp_base.Mcp.Json.{Json, string, object, Fields, no_fields, field, get_field}
use encore_mcp_base.Store.Records.{
  UpstreamAuthorizationStateRecord, UpstreamAuthorizationStateInput, OAuthStoreState,
}
use encore_mcp_base.Store.States.{
  upstream_authorization_state_record, create_upstream_authorization_state,
}
use encore_mcp_base.Store.Rows.{
  matches_hash, has_text, row, text, optional_text, hash, optional_hash, nonce_text, optional_nonce,
  seconds, scopes, compact, string_field,
}
use encore_mcp_base.Store.Rows.Read.{row-compact}
use encore_mcp_base.Store.Rows.Disk.{
  state_fields, authorization_code_from_disk, authorization_code_to_disk, refresh_token_from_disk,
  refresh_token_to_disk,
}
use encore_mcp_base.Store.Rows.File.{
  map_key, normalize_entries, normalize_map, serialize_map, upstream_authorization_state_from_disk,
  upstream_authorization_state_to_disk, normalize_store, serialize_store,
}
use encore_mcp_base.Store.Rows.RoundTrip.{write_state, write_session, write_limit}
use encore_mcp_base.Store.Rows.Whole.{state_list, state_at}

-- The client's state is blank, or the challenge is none that a SHA-256 digest has in base64url.
abbrev pub IsUnreadable : String → Option String → Type 0
IsUnreadable client_state challenge =
    (has_text client_state ≡ false)
    ⊎ ((c : String) × (challenge ≡ some c) × (matches_hash c ≡ false))

abbrev file_value : Fields → Fields → Fields → Fields → Fields → Json
file_value codes tokens states sessions limits = object (
    field "authorizationCodes" (object codes) (
      field "refreshTokens" (object tokens) (
        field "upstreamAuthorizationStates" (object states)
          (field "mcpSessions" (object sessions) (field "rateLimits" (object limits) no_fields)))))

-- A chain returns nothing of what its rest never returns, nor behind a step that never returns.
module _ {T S : Type 0} (first : Result T) {s : S} where
  behind : {rest : T → Result S} → ((a : T) → rest a ≢ ok s) → (first >>= rest) ≢ ok s
  behind {rest} never = λ h. let (a, _, h') = bind-eq-ok first rest h in never a h'

  stopped : (rest : T → Result S) → ((a : T) → first ≢ ok a) → (first >>= rest) ≢ ok s
  stopped rest never = λ h. let (a, h', _) = bind-eq-ok first rest h in never a h'

blank_unread :
    (f : Fields) (key s t : String)
    → get_field key f ≡ some (string s)
    → has_text s ≡ false
    → text f key ≢ ok t
unfolding text
blank_unread f key s t there blank = λ h. absurd (ground (arith, there, blank))

challenge_unread :
    (f : Fields) (key c : String) (o : Option String)
    → get_field key f ≡ some (string c)
    → matches_hash c ≡ false
    → optional_hash f key ≢ ok o
unfolding optional_hash optional_text
challenge_unread f key c o there other = λ h. absurd (ground (arith, there, other))

-- A row of a map that is read has been read itself.
module _ {T : Type 0} (serialize : T → Result Fields) (normalize : Json → Result T) where
  entry_read :
      (m : Dict T) (f : Fields) (t : Dict T) (key : String) (r : T)
      → serialize_map serialize m ≡ ok f
      → normalize_entries normalize f ≡ ok t
      → lookup key m ≡ some r
      → (g : Fields) × (u : T) × (serialize r ≡ ok g) × (normalize (object g) ≡ ok u)
  unfolding serialize_map normalize_entries lookup
  entry_read [] f t key r wrote read here = absurd (ground arith)
  entry_read ((j, w) ∷ m) f t key r wrote read here =
      let (k, keyed, wrote1) = bind-eq-ok (map_key j) _ wrote in
      let (g, written, wrote2) = bind-eq-ok (serialize w) _ wrote1 in
      let (rest, wrote_rest, wrote3) = bind-eq-ok (serialize_map serialize m) _ wrote2 in
      let again : normalize_entries normalize (field k (object g) rest) ≡ ok t =
        subst (λ f. normalize_entries normalize f ≡ ok t) (sym (ok_inj wrote3)) read in
      let (k', keyed', read1) = bind-eq-ok (map_key k) _ again in
      let (u, found, read2) = bind-eq-ok (normalize (object g)) _ read1 in
      let (ts, read_rest, read3) = bind-eq-ok (normalize_entries normalize rest) _ read2 in
      elim (Bool-cases (j == key)) [
        | inl same ↦ let w_r : w ≡ r = ground (arith, same) in (g, u, rw (← w_r) written, found)
        | inr other ↦ entry_read m rest ts key r wrote_rest read_rest (ground (arith, other))
      ]

  map_read :
      (m : Dict T) (f : Fields) (t : Dict T) (key : String) (r : T)
      → serialize_map serialize m ≡ ok f
      → normalize_map normalize (some (object f)) ≡ ok t
      → lookup key m ≡ some r
      → (g : Fields) × (u : T) × (serialize r ≡ ok g) × (normalize (object g) ≡ ok u)
  unfolding normalize_map
  map_read m f t key r wrote read here = entry_read m f t key r wrote read here

module _ (parse_json : String → Option Json) (stringify : Json → String) where
  state_unread :
      (r u : UpstreamAuthorizationStateRecord)
      → IsUnreadable r.client_state r.code_challenge
      → upstream_authorization_state_from_disk parse_json stringify
          (object (upstream_authorization_state_to_disk parse_json stringify r))
        ≢ ok u
  unfolding upstream_authorization_state_from_disk
  state_unread r u unreadable =
      let f = compact (state_list parse_json stringify r) in
      rw (row-compact state_fields (state_list parse_json stringify r) refl) (
        behind (seconds f "created_at") λ created_at. behind (hash f "state_hash") λ _.
          behind (text f "client_id") λ _. behind (text f "redirect_uri") λ _.
            behind (text f "resource") λ _. behind (scopes parse_json f) λ _. elim unreadable [
              | inl blank ↦ stopped (text f "client_state") _ λ t.
                  blank_unread f "client_state" r.client_state t
                    (state_at parse_json stringify r "client_state") blank
              | inr (c, there, other) ↦ behind (text f "client_state") λ _.
                  behind (text f "code_verifier") λ _. behind (nonce_text f "upstream_nonce") λ _.
                    behind (optional_nonce f "nonce") λ _.
                      stopped (optional_hash f "code_challenge") _ λ o.
                        challenge_unread f "code_challenge" c o
                          (state_at parse_json stringify r "code_challenge" ∙ ap string_field there)
                          other
            ])

  states_read :
      (codes tokens states sessions limits : Fields) (t : OAuthStoreState)
      → normalize_store parse_json stringify (file_value codes tokens states sessions limits) ≡ ok t
      → (ts : Dict UpstreamAuthorizationStateRecord) × (normalize_map
            (upstream_authorization_state_from_disk parse_json stringify)
            (some (object states))
          ≡ ok ts)
  unfolding normalize_store row
  states_read codes tokens states sessions limits t read =
      let (cs, _, r1) =
        bind-eq-ok
          (normalize_map (authorization_code_from_disk parse_json stringify) (some (object codes)))
          _ read in
      let (ks, _, r2) =
        bind-eq-ok
          (normalize_map (refresh_token_from_disk parse_json stringify) (some (object tokens))) _
          r1 in
      let (ts, there, r3) =
        bind-eq-ok
          (normalize_map (upstream_authorization_state_from_disk parse_json stringify)
            (some (object states)))
          _ r2 in
      (ts, there)

  -- A file with an unreadable state is not read.
  store_unread :
      (s t : OAuthStoreState) (value : Json) (key : String) (r : UpstreamAuthorizationStateRecord)
      → lookup key s.upstream_authorization_states ≡ some r
      → IsUnreadable r.client_state r.code_challenge
      → serialize_store parse_json stringify s ≡ ok value
      → normalize_store parse_json stringify value ≢ ok t
  unfolding serialize_store
  store_unread s t value key r here unreadable wrote = λ read.
      let (codes, _, w1) =
        bind-eq-ok
          (serialize_map (authorization_code_to_disk parse_json stringify) s.authorization_codes) _
          wrote in
      let (tokens, _, w2) =
        bind-eq-ok (serialize_map (refresh_token_to_disk parse_json stringify) s.refresh_tokens) _
          w1 in
      let (states, wrote_states, w3) =
        bind-eq-ok
          (serialize_map (write_state parse_json stringify) s.upstream_authorization_states) _ w2 in
      let (sessions, _, w4) =
        bind-eq-ok (serialize_map (write_session parse_json stringify) s.mcp_sessions) _ w3 in
      let (limits, _, w5) =
        bind-eq-ok (serialize_map (write_limit parse_json stringify) s.rate_limits) _ w4 in
      let (ts, read_states) =
        states_read codes tokens states sessions limits t
          (subst (λ v. normalize_store parse_json stringify v ≡ ok t) (sym (ok_inj w5)) read) in
      let (g, u, written, found) =
        map_read (write_state parse_json stringify)
          (upstream_authorization_state_from_disk parse_json stringify)
          s.upstream_authorization_states states ts key r wrote_states read_states here in
      state_unread r u unreadable (
        subst (λ g. upstream_authorization_state_from_disk parse_json stringify (object g) ≡ ok u)
          (sym (ok_inj written)) found)

  module _ (sha : String → String) where
    -- The creation of a login whose client state is blank, or whose challenge is no SHA-256 digest in
    -- base64url, leaves a store that, once written, no operation can read again.
    pub create_upstream_authorization_state_unreadable :
        (input : UpstreamAuthorizationStateInput) (state : String) (now : ℕ) (s t : OAuthStoreState)
        (value : Json)
        → IsUnreadable input.client_state (truthy input.code_challenge)
        → serialize_store parse_json stringify
            (create_upstream_authorization_state sha input state now s).1
          ≡ ok value
        → normalize_store parse_json stringify value ≢ ok t
    unfolding create_upstream_authorization_state upstream_authorization_state_record
    create_upstream_authorization_state_unreadable input state now s t value unreadable wrote =
        store_unread (create_upstream_authorization_state sha input state now s).1 t value
          (sha state) (upstream_authorization_state_record sha input state now)
          (lookup-set_self (sha state) _ _) unreadable wrote
