-- ===== src/Store/Sessions/Lasting.antt =====
-- How the session operations of auth/storage/disk-store.ts end, and the rule by which a property of
-- a session's record lasts over a history.
use mathlib.Core.Path.{subst}
use encore_mcp_base.Base.{
  ℕ, String, Bool, true, false, ◌≡◌, ◌≢◌, refl, sym, Option, some, List, [], ◌∷◌, ◌++◌, Result, ok,
  err, arith, leb, ◌==◌, eq_iff, Bool-cases, Option-cases, inl, inr, ◌⊎◌, All, if◌then◌else◌,
  is_some, contains, length,
}
use encore_mcp_base.Base.Dict.{Dict, lookup, set, lookup-set}
use encore_mcp_base.Store.Records.{McpSessionRecord, OAuthStoreState}
use encore_mcp_base.Base.{Thrown}
use encore_mcp_base.Store.Sessions.{
  session_not_found_error, version_error, request_ids_error, max_mcp_request_ids, is_closed,
  other_version, open_session, put_session, save_mcp_session, touched, touch_mcp_session,
  reserve_mcp_request_id, terminate_mcp_session,
}
use encore_mcp_base.Mcp.SessionStore.{create_mcp_session}
use encore_mcp_base.Store.History.{
  Call, creates_session, touches_session, reserves_id, terminates_session, step, run,
}
use encore_mcp_base.Store.History.Frames.{step-sessions}

abbrev pub Sessions : Type 0
Sessions = Dict McpSessionRecord

-- The session is in the store, with a property of its record.
pub record Holds (P : McpSessionRecord → Type 0) (hash : String) (sessions : Sessions)
    : Type 0 where
  pub found : McpSessionRecord
  pub stored : lookup hash sessions ≡ some found
  pub holds : P found

pub set-Holds :
    (P : McpSessionRecord → Type 0) (hash key : String) (r : McpSessionRecord) (sessions : Sessions)
    → (key ≡ hash → P r)
    → Holds P hash sessions
    → Holds P hash (set key r sessions)
set-Holds P hash key r sessions keeps v = elim (Bool-cases (key == hash)) [
  | inl same ↦ record {
    found = r;
    stored = ground (arith, lookup-set key hash r sessions);
    holds = keeps ((eq_iff key hash).0 same);
  }
  | inr other ↦ record {
    found = v.found;
    stored = ground (arith, lookup-set key hash r sessions, v.stored);
    holds = v.holds;
  }
]

pub open_session_cases :
    (hash : String) (now : ℕ) (s : OAuthStoreState)
    → (open_session hash now s ≡ err session_not_found_error)
      ⊎ ((found : McpSessionRecord) × (lookup hash s.mcp_sessions ≡ some found)
          × (is_closed found now ≡ false)
          × (open_session hash now s ≡ ok found))
unfolding open_session
open_session_cases hash now s = elim (Option-cases (lookup hash s.mcp_sessions)) [
  | inl missing ↦ inl (ground arith)
  | inr (found, stored) ↦ elim (Bool-cases (is_closed found now)) [
    | inl closed ↦ inl (ground arith)
    | inr opened ↦ inr (found, stored, opened, ground arith)
  ]
]

-- How an operation on a session ends: with an error and the store as it was, or with an open
-- session's record written anew.
pub data Ending {A : Type 0} (hash : String) (now : ℕ) (s : OAuthStoreState)
    (next : McpSessionRecord → McpSessionRecord) (outcome : Result A × OAuthStoreState)
    : Type 0 where
  refuses : (e : Thrown) → outcome ≡ (err e, s) → Ending hash now s next outcome
  writes :
      (a : A) (found : McpSessionRecord)
      → lookup hash s.mcp_sessions ≡ some found
      → is_closed found now ≡ false
      → outcome ≡ (ok a, put_session hash (next found) s)
      → Ending hash now s next outcome

pub touch_mcp_session-Ending :
    (hash : String) (version : Option String) (mark : Bool) (now : ℕ) (s : OAuthStoreState)
    → Ending hash now s (touched mark now) (touch_mcp_session hash version mark now s)
unfolding touch_mcp_session
touch_mcp_session-Ending hash version mark now s = elim (open_session_cases hash now s) [
  | inl refused ↦ refuses session_not_found_error (ground (arith, refused))
  | inr (found, stored, opened, e) ↦ elim (Bool-cases (other_version version found)) [
    | inl other ↦ refuses version_error (ground (arith, e))
    | inr same ↦
        writes (is_some (touched mark now found).initialized_at) found stored opened
          (ground (arith, e))
  ]
]

pub terminate_mcp_session-Ending :
    (hash : String) (now : ℕ) (s : OAuthStoreState)
    → Ending hash now s
        (λ r. record r { terminated_at = some now; last_seen_at = now })
        (terminate_mcp_session hash now s)
unfolding terminate_mcp_session
terminate_mcp_session-Ending hash now s = elim (open_session_cases hash now s) [
  | inl refused ↦ refuses session_not_found_error (ground (arith, refused))
  | inr (found, stored, opened, e) ↦ writes tt found stored opened (ground (arith, e))
]

-- The record after a reservation of the request id.
abbrev pub reserved : String → ℕ → McpSessionRecord → McpSessionRecord
reserved id now r =
    if contains r.request_id_hashes id
    then record r { last_seen_at = now }
    else record r { last_seen_at = now; request_id_hashes = r.request_id_hashes ++ id ∷ [] }

pub reserve_mcp_request_id-Ending :
    (hash id : String) (now : ℕ) (s : OAuthStoreState)
    → Ending hash now s (reserved id now) (reserve_mcp_request_id hash id now s)
unfolding reserve_mcp_request_id
reserve_mcp_request_id-Ending hash id now s = elim (open_session_cases hash now s) [
  | inl refused ↦ refuses session_not_found_error (ground (arith, refused))
  | inr (found, stored, opened, e) ↦ elim (Bool-cases (contains found.request_id_hashes id)) [
    | inl old ↦ writes false found stored opened (ground (arith, e))
    | inr new ↦ elim (Bool-cases (leb max_mcp_request_ids (length found.request_id_hashes))) [
      | inl full ↦ refuses request_ids_error (ground (arith, e))
      | inr room ↦ writes true found stored opened (ground (arith, e))
    ]
  ]
]

-- The property survives each of the ways in which an open session's record is written.
pub record IsKept (P : McpSessionRecord → Type 0) : Type 0 where
  pub by_touch :
      (mark : Bool) (now : ℕ) (r : McpSessionRecord)
      → is_closed r now ≡ false
      → P r
      → P (touched mark now r)
  pub by_reserve :
      (id : String) (now : ℕ) (r : McpSessionRecord)
      → is_closed r now ≡ false
      → P r
      → P (reserved id now r)
  pub by_terminate :
      (now : ℕ) (r : McpSessionRecord)
      → is_closed r now ≡ false
      → P r
      → P (record r { terminated_at = some now; last_seen_at = now })

module _ (P : McpSessionRecord → Type 0) (kept : IsKept P) where
  update-Holds :
      (hash key : String) (now : ℕ) (s : OAuthStoreState) (found next : McpSessionRecord)
      → lookup key s.mcp_sessions ≡ some found
      → (P found → P next)
      → Holds P hash s.mcp_sessions
      → Holds P hash (set key next s.mcp_sessions)
  update-Holds hash key now s found next stored keeps v =
      set-Holds P hash key next s.mcp_sessions
        (λ same. let e : v.found ≡ found = cc (v.stored, same, stored) in keeps (subst P e v.holds))
        v

  Ending-Holds :
      {A : Type 0} (hash key : String) (now : ℕ) (s : OAuthStoreState)
      (next : McpSessionRecord → McpSessionRecord) (outcome : Result A × OAuthStoreState)
      → ((r : McpSessionRecord) → is_closed r now ≡ false → P r → P (next r))
      → Ending key now s next outcome
      → Holds P hash s.mcp_sessions
      → Holds P hash outcome.1.mcp_sessions
  Ending-Holds hash key now s next outcome keeps (refuses e same) v = rw same v
  Ending-Holds hash key now s next outcome keeps (writes a found stored opened e) v =
      rw e (update-Holds hash key now s found (next found) stored (keeps found opened) v)

-- The call creates no session with that hash.
abbrev pub SparesSession : (String → String) → String → ℕ × Call → Type 0
SparesSession sha hash (now, creates_session version client session_id) = sha session_id ≢ hash
SparesSession sha hash (now, _) = Unit {0}

module _ (sha : String → String) (P : McpSessionRecord → Type 0) (kept : IsKept P) where
  step-Holds :
      (hash : String) (s : OAuthStoreState) (c : ℕ × Call)
      → SparesSession sha hash c
      → Holds P hash s.mcp_sessions
      → Holds P hash (step sha s c).mcp_sessions
  unfolding step create_mcp_session save_mcp_session
  step-Holds hash s (now, creates_session version client session_id) spares v =
      set-Holds P hash (sha session_id) _ s.mcp_sessions (λ same. absurd (spares same)) v
  step-Holds hash s (now, touches_session key version mark) spares v =
      Ending-Holds P kept hash key now s _ _ (kept.by_touch mark now)
        (touch_mcp_session-Ending key version mark now s) v
  step-Holds hash s (now, reserves_id key id) spares v =
      Ending-Holds P kept hash key now s _ _ (kept.by_reserve id now)
        (reserve_mcp_request_id-Ending key id now s) v
  step-Holds hash s (now, terminates_session key) spares v =
      Ending-Holds P kept hash key now s _ _ (kept.by_terminate now)
        (terminate_mcp_session-Ending key now s) v
  step-Holds hash s (now, c) spares v =
      subst (Holds P hash) (sym (step-sessions sha s now c refl)) v

  pub run-Holds :
      (hash : String) (s : OAuthStoreState) (cs : List (ℕ × Call))
      → All (SparesSession sha hash) cs
      → Holds P hash s.mcp_sessions
      → Holds P hash (run sha s cs).mcp_sessions
  unfolding run
  run-Holds hash s [] spares v = v
  run-Holds hash s (c ∷ cs) spares v =
      run-Holds hash (step sha s c) cs spares.1 (step-Holds hash s c spares.0 v)
