-- ===== src/Store/History/WellFormed.antt =====
-- What holds of the store of auth/storage after any history.
use mathlib.Core.Path.{subst}
use encore_mcp_base.Base.{
  err, ℕ, String, Bool, ◌≡◌, refl, sym, some, List, [], ◌∷◌, Result, ok, arith, length-append, inl,
  inr,
}
use encore_mcp_base.Base.Dict.{
  Dict, set, lookup, HasUniqueKeys, set-HasUniqueKeys, keep_values-HasUniqueKeys,
}
use encore_mcp_base.Store.Records.{
  RateLimitRecord, McpSessionRecord, OAuthStoreState, empty_store_state,
}
use encore_mcp_base.Store.Sessions.Lasting.{Ending, refuses, writes}
use encore_mcp_base.Store.Sessions.{save_mcp_session}
use encore_mcp_base.Mcp.SessionStore.{create_mcp_session, mcp_session_record}
use encore_mcp_base.Base.{Result-cases}
use encore_mcp_base.Store.RateLimits.{
  RateLimitPolicy, next_rate_limit_record, hit, prune_expired_rate_limits,
}
use encore_mcp_base.Store.History.{
  Call, creates_session, touches_session, reserves_id, terminates_session, hits, step, run,
}
use encore_mcp_base.Store.History.Frames.{step-limits, step-sessions}
use encore_mcp_base.Store.History.Sound.{
  CodeFits, TokenFits, StateFits, SessionFits, IsSound, set-IsSound, step-codes-IsSound,
  step-tokens-IsSound, step-states-IsSound,
}
use encore_mcp_base.Store.Sessions.{put_session, open_session, touched, reserve_mcp_request_id}
use encore_mcp_base.Store.Sessions.Lasting.{
  reserved, reserve_mcp_request_id-Ending, touch_mcp_session-Ending, terminate_mcp_session-Ending,
}

pub record IsWellFormed (s : OAuthStoreState) : Type 0 where
  pub codes : IsSound CodeFits s.authorization_codes
  pub tokens : IsSound TokenFits s.refresh_tokens
  pub states : IsSound StateFits s.upstream_authorization_states
  pub sessions : IsSound SessionFits s.mcp_sessions
  pub limits : HasUniqueKeys s.rate_limits

Ending-IsSound :
    {A : Type 0} (key : String) (now : ℕ) (s : OAuthStoreState)
    (next : McpSessionRecord → McpSessionRecord) (outcome : Result A × OAuthStoreState)
    → ((r : McpSessionRecord) → SessionFits key r → SessionFits key (next r))
    → Ending key now s next outcome
    → IsSound SessionFits s.mcp_sessions
    → IsSound SessionFits outcome.1.mcp_sessions
Ending-IsSound key now s next outcome keeps (refuses e same) v = rw same v
Ending-IsSound key now s next outcome keeps (writes a found stored _ e) v = rw e (
    set-IsSound SessionFits key (next found) s.mcp_sessions
      (keeps found (v.fits.at_key key found stored)) v)

reserved-SessionFits :
    (key id : String) (now : ℕ) (s : OAuthStoreState) (found : McpSessionRecord) (b : Bool)
    → lookup key s.mcp_sessions ≡ some found
    → SessionFits key found
    → reserve_mcp_request_id key id now s ≡ (ok b, put_session key (reserved id now found) s)
    → SessionFits key (reserved id now found)
unfolding reserve_mcp_request_id open_session
reserved-SessionFits key id now s found b stored fits e =
    ground (arith, stored, length-append found.request_id_hashes (id ∷ []))

reserve-IsSound :
    (key id : String) (now : ℕ) (s : OAuthStoreState)
    → IsSound SessionFits s.mcp_sessions
    → IsSound SessionFits (reserve_mcp_request_id key id now s).1.mcp_sessions
reserve-IsSound key id now s v = elim (reserve_mcp_request_id-Ending key id now s) [
  | refuses e same ↦ rw same v
  | writes b found stored _ e ↦
      let fits = v.fits.at_key key found stored in
      rw e (
        set-IsSound SessionFits key (reserved id now found) s.mcp_sessions
          (reserved-SessionFits key id now s found b stored fits e) v)
]

touched-SessionFits :
    (key : String) (mark : Bool) (now : ℕ) (r : McpSessionRecord)
    → SessionFits key r
    → SessionFits key (touched mark now r)
touched-SessionFits key mark now r v = ground arith

prune-HasUniqueKeys :
    (limits : Dict RateLimitRecord) (now : ℕ)
    → HasUniqueKeys limits
    → HasUniqueKeys (prune_expired_rate_limits limits now)
unfolding prune_expired_rate_limits
prune-HasUniqueKeys limits now v = keep_values-HasUniqueKeys _ limits v

module _ (sha : String → String) where
  step-sessions-IsSound :
      (s : OAuthStoreState) (c : ℕ × Call)
      → IsSound SessionFits s.mcp_sessions
      → IsSound SessionFits (step sha s c).mcp_sessions
  unfolding step create_mcp_session save_mcp_session mcp_session_record
  step-sessions-IsSound s (now, creates_session version client session_id) v =
      set-IsSound SessionFits (sha session_id)
        (mcp_session_record sha version client session_id now) s.mcp_sessions (refl, omega arith) v
  step-sessions-IsSound s (now, touches_session key version mark) v =
      Ending-IsSound key now s (touched mark now) _ (touched-SessionFits key mark now)
        (touch_mcp_session-Ending key version mark now s) v
  step-sessions-IsSound s (now, reserves_id key id) v = reserve-IsSound key id now s v
  step-sessions-IsSound s (now, terminates_session key) v =
      Ending-IsSound key now s _ _ (λ r h. h) (terminate_mcp_session-Ending key now s) v
  step-sessions-IsSound s (now, c) v =
      subst (IsSound SessionFits) (sym (step-sessions sha s now c refl)) v

  hit-HasUniqueKeys :
      (key : String) (policy : RateLimitPolicy) (now : ℕ) (s : OAuthStoreState)
      → HasUniqueKeys s.rate_limits
      → HasUniqueKeys (hit sha key policy now s).1.rate_limits
  unfolding hit
  hit-HasUniqueKeys key policy now s v =
      let pruned = prune_expired_rate_limits s.rate_limits now in
      elim (Result-cases (next_rate_limit_record (lookup (sha key) pruned) policy now)) [
        | inl (r, e) ↦
            let done : hit sha key policy now s
                ≡ (ok tt, record s { rate_limits = set (sha key) r pruned }) =
              ground (arith, e) in
            rw done (set-HasUniqueKeys (sha key) r pruned (prune-HasUniqueKeys s.rate_limits now v))
        | inr (x, e) ↦
            let same : hit sha key policy now s ≡ (err x, s) = ground (arith, e) in rw same v
      ]

  step-limits-HasUniqueKeys :
      (s : OAuthStoreState) (c : ℕ × Call)
      → HasUniqueKeys s.rate_limits
      → HasUniqueKeys (step sha s c).rate_limits
  unfolding step
  step-limits-HasUniqueKeys s (now, hits key policy) v = hit-HasUniqueKeys key policy now s v
  step-limits-HasUniqueKeys s (now, c) v =
      subst HasUniqueKeys (sym (step-limits sha s now c refl)) v

  step-IsWellFormed :
      (s : OAuthStoreState) (c : ℕ × Call) → IsWellFormed s → IsWellFormed (step sha s c)
  step-IsWellFormed s c v = record {
    codes = step-codes-IsSound sha s c v.codes;
    tokens = step-tokens-IsSound sha s c v.tokens;
    states = step-states-IsSound sha s c v.states;
    sessions = step-sessions-IsSound s c v.sessions;
    limits = step-limits-HasUniqueKeys s c v.limits;
  }

  run_from-IsWellFormed :
      (s : OAuthStoreState) (cs : List (ℕ × Call)) → IsWellFormed s → IsWellFormed (run sha s cs)
  unfolding run
  run_from-IsWellFormed s [] v = v
  run_from-IsWellFormed s (c ∷ cs) v =
      run_from-IsWellFormed (step sha s c) cs (step-IsWellFormed s c v)

  -- After any calls at any times, from the empty store: no map holds a key twice, every record of a
  -- code, token, state or session stands under its own hash, and no session holds more than 4096
  -- request ids.
  pub run-IsWellFormed : (cs : List (ℕ × Call)) → IsWellFormed (run sha empty_store_state cs)
  unfolding lookup
  run-IsWellFormed cs = run_from-IsWellFormed empty_store_state cs (record {
    codes = record { unique = tt; fits = record { at_key = λ j v e. cc } };
    tokens = record { unique = tt; fits = record { at_key = λ j v e. cc } };
    states = record { unique = tt; fits = record { at_key = λ j v e. cc } };
    sessions = record { unique = tt; fits = record { at_key = λ j v e. absurd (cc) } };
    limits = tt;
  })
