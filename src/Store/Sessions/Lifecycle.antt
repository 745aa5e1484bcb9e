-- ===== src/Store/Sessions/Lifecycle.antt =====
-- MCP sessions over a history: initialization, termination and the request ids in use are final
-- (`touchMcpSession`, `reserveMcpRequestId` and `terminateMcpSession` of auth/storage/disk-store.ts).
use encore_mcp_base.Base.{
  ℕ, ◌<◌, String, Bool, true, false, ◌≡◌, ◌≢◌, Option, some, List, [], ◌∷◌, ◌++◌, ok, err, arith,
  eq_refl, ◌⊎◌, All, truthy_number, truthy_number-pos, is_some, contains,
}
use encore_mcp_base.Base.Dict.{lookup-set_self}
use encore_mcp_base.Store.Records.{McpSessionRecord, OAuthStoreState}
use encore_mcp_base.Store.Sessions.{
  session_not_found_error, open_session, touch_mcp_session, reserve_mcp_request_id,
  terminate_mcp_session, touched,
}
use encore_mcp_base.Store.Sessions.Lasting.{
  Holds, refuses, writes, IsKept, SparesSession, run-Holds, reserved, touch_mcp_session-Ending,
  terminate_mcp_session-Ending, reserve_mcp_request_id-Ending,
}
use encore_mcp_base.Store.History.{Call, run}

abbrev pub IsTerminated : McpSessionRecord → Type 0
IsTerminated r = truthy_number r.terminated_at ≡ true

abbrev pub IsInitialized : McpSessionRecord → Type 0
IsInitialized r = is_some r.initialized_at ≡ true

abbrev pub HasRequestId : String → McpSessionRecord → Type 0
HasRequestId id r = contains r.request_id_hashes id ≡ true

-- A terminated session is closed at every time, so no operation writes it.
IsTerminated-IsKept : IsKept IsTerminated
IsTerminated-IsKept = record {
  by_touch = λ mark now r opened v. absurd (ground arith);
  by_reserve = λ id now r opened v. absurd (ground arith);
  by_terminate = λ now r opened v. absurd (ground arith);
}

IsInitialized-IsKept : IsKept IsInitialized
IsInitialized-IsKept = record {
  by_touch = λ mark now r opened v. ground arith;
  by_reserve = λ id now r opened v. ground arith;
  by_terminate = λ now r opened v. v;
}

contains-concat :
    (xs : List String) (id x : String) → contains xs x ≡ true → contains (xs ++ id ∷ []) x ≡ true
contains-concat [] id x h = cc
contains-concat (y ∷ ys) id x h = ground (arith, contains-concat ys id x)

contains-concat_self : (xs : List String) (id : String) → contains (xs ++ id ∷ []) id ≡ true
contains-concat_self [] id = rw eq_refl
contains-concat_self (y ∷ ys) id = ground (arith, contains-concat_self ys id)

HasRequestId-IsKept : (id : String) → IsKept (HasRequestId id)
HasRequestId-IsKept id = record {
  by_touch = λ mark now r opened v. ground arith;
  by_reserve =
      λ other now r opened v. ground (arith, contains-concat r.request_id_hashes other id v);
  by_terminate = λ now r opened v. v;
}

terminated_refused :
    (hash : String) (s : OAuthStoreState) (now : ℕ)
    → Holds IsTerminated hash s.mcp_sessions
    → open_session hash now s ≡ err session_not_found_error
unfolding open_session
terminated_refused hash s now v = ground (arith, v.stored, v.holds)

terminate_mcp_session-Holds :
    (hash : String) (now : ℕ) (s t : OAuthStoreState)
    → 0 < now
    → terminate_mcp_session hash now s ≡ (ok tt, t)
    → Holds IsTerminated hash t.mcp_sessions
terminate_mcp_session-Holds hash now s t positive done =
    elim (terminate_mcp_session-Ending hash now s) [
      | refuses e same ↦ absurd (cc (same, done))
      | writes a found stored opened e ↦ record {
        found = record found { terminated_at = some now; last_seen_at = now };
        stored = ground (
          arith,
          e,
          done,
          lookup-set_self hash (record found { terminated_at = some now; last_seen_at = now })
              s.mcp_sessions,
        );
        holds = truthy_number-pos now positive;
      }
    ]

touched-IsInitialized : (now : ℕ) (r : McpSessionRecord) → IsInitialized (touched true now r)
touched-IsInitialized now r = ground arith

touch_mcp_session-Holds :
    (hash : String) (version : Option String) (now : ℕ) (s t : OAuthStoreState) (b : Bool)
    → touch_mcp_session hash version true now s ≡ (ok b, t)
    → Holds IsInitialized hash t.mcp_sessions
touch_mcp_session-Holds hash version now s t b done =
    elim (touch_mcp_session-Ending hash version true now s) [
      | refuses e same ↦ absurd (cc (same, done))
      | writes a found stored opened e ↦ record {
        found = touched true now found;
        stored =
            ground (arith, e, done, lookup-set_self hash (touched true now found) s.mcp_sessions);
        holds = touched-IsInitialized now found;
      }
    ]

reserve_mcp_request_id-Holds :
    (hash id : String) (now : ℕ) (s t : OAuthStoreState) (b : Bool)
    → reserve_mcp_request_id hash id now s ≡ (ok b, t)
    → Holds (HasRequestId id) hash t.mcp_sessions
reserve_mcp_request_id-Holds hash id now s t b done =
    elim (reserve_mcp_request_id-Ending hash id now s) [
      | refuses e same ↦ absurd (cc (same, done))
      | writes a found stored opened e ↦ record {
        found = reserved id now found;
        stored =
            ground (arith, e, done, lookup-set_self hash (reserved id now found) s.mcp_sessions);
        holds = ground (arith, contains-concat_self found.request_id_hashes id);
      }
    ]

module _ (sha : String → String) where
  -- Once a session has been terminated, at a time that is not 0, no later call touches it, reserves
  -- a request id in it or terminates it: each answers "mcp session not found" (404) and changes
  -- nothing, after any calls of the store that create no session with the same hash.
  pub terminated_stays :
      (hash : String) (now later : ℕ) (s t : OAuthStoreState) (cs : List (ℕ × Call))
      (version : Option String) (mark : Bool) (id : String)
      → 0 < now
      → terminate_mcp_session hash now s ≡ (ok tt, t)
      → All (SparesSession sha hash) cs
      → let u = run sha t cs in
        (touch_mcp_session hash version mark later u ≡ (err session_not_found_error, u))
        × (reserve_mcp_request_id hash id later u ≡ (err session_not_found_error, u))
        × (terminate_mcp_session hash later u ≡ (err session_not_found_error, u))
  unfolding touch_mcp_session reserve_mcp_request_id terminate_mcp_session
  terminated_stays hash now later s t cs version mark id positive done spares =
      let closed = terminated_refused hash (run sha t cs) later (
        run-Holds sha IsTerminated IsTerminated-IsKept hash t cs spares
          (terminate_mcp_session-Holds hash now s t positive done)) in
      (ground (arith, closed), ground (arith, closed), ground (arith, closed))

  -- A touch that marks a session as initialized answers true if it succeeds, and from then on no
  -- touch of the session answers false, whatever happens to the store in between, if no session
  -- with the same hash is created.
  pub initialized_stays :
      (hash : String) (version version' : Option String) (mark : Bool) (now later : ℕ)
      (s t : OAuthStoreState) (b : Bool) (cs : List (ℕ × Call))
      → touch_mcp_session hash version true now s ≡ (ok b, t)
      → All (SparesSession sha hash) cs
      → (b ≡ true) × ((touch_mcp_session hash version' mark later (run sha t cs)).0 ≢ ok false)
  unfolding touch_mcp_session open_session
  initialized_stays hash version version' mark now later s t b cs done spares =
      let v =
        run-Holds sha IsInitialized IsInitialized-IsKept hash t cs spares
          (touch_mcp_session-Holds hash version now s t b done) in
      (ground arith, ground (arith, v.stored, v.holds))

  -- A request id that has been reserved in a session is never reserved again: a later reservation
  -- answers false, or that there is no such session any more, after any calls of the store that
  -- create no session with the same hash.
  pub reserved_once :
      (hash id : String) (now later : ℕ) (s t : OAuthStoreState) (b : Bool) (cs : List (ℕ × Call))
      → reserve_mcp_request_id hash id now s ≡ (ok b, t)
      → All (SparesSession sha hash) cs
      → ((reserve_mcp_request_id hash id later (run sha t cs)).0 ≡ ok false)
        ⊎ ((reserve_mcp_request_id hash id later (run sha t cs)).0 ≡ err session_not_found_error)
  unfolding reserve_mcp_request_id open_session
  reserved_once hash id now later s t b cs done spares =
      let v =
        run-Holds sha (HasRequestId id) (HasRequestId-IsKept id) hash t cs spares
          (reserve_mcp_request_id-Holds hash id now s t b done) in
      ground (arith, v.stored, v.holds)
