-- ===== src/OAuth/ClientAssertion/Replay.antt =====
-- An assertion that has been accepted is not accepted again.
use encore_mcp_base.Base.{
  ℕ, ◌≤◌, ◌<◌, String, ◌≡◌, ◌≢◌, ◌⊎◌, inl, inr, arith, false, some, ok, Bool-cases, Option-cases, ℤ,
  pos, negsuc, eq_iff,
}
use encore_mcp_base.Base.Dict.{
  Dict, lookup, keep_values, lookup-set, lookup-set_self, lookup-keep_values-kept,
}
use encore_mcp_base.OAuth.Jwt.{falls_by}
use encore_mcp_base.OAuth.ClientAssertion.{forget_at, is_later, replay_key, reject_replay}

-- The cache refuses the key until `expiry`, which may have passed.
abbrev pub IsSpent : String → ℕ → ℕ → Dict ℕ → Type 0
IsSpent key expiry now cache = (lookup key cache ≡ some expiry) ⊎ (expiry ≤ now)

forget_at_iff : (exp : ℤ) (now : ℕ) → falls_by exp 60 now ≡ false → now < forget_at exp
forget_at_iff (pos n) now h = ground arith
forget_at_iff (negsuc n) now h = ground arith

pub reject_replay-IsSpent :
    (client_id jti : String) (exp : ℤ) (now before : ℕ) (key : String) (expiry : ℕ) (cache : Dict ℕ)
    → before ≤ now
    → IsSpent key expiry before cache
    → IsSpent key expiry now (reject_replay client_id jti exp now cache).1
unfolding reject_replay
reject_replay-IsSpent client_id jti exp now before key expiry cache le (inr passed) =
    inr (omega arith)
reject_replay-IsSpent client_id jti exp now before key expiry cache le (inl found) =
    elim (Bool-cases (is_later now expiry)) [
      | inr passed ↦ inr (ground arith)
      | inl later ↦
          let kept = lookup-keep_values-kept (is_later now) key cache expiry found later in
          elim (Option-cases
            (lookup (replay_key client_id jti) (keep_values (is_later now) cache))) [
              | inr (e, there) ↦ inl (rw there kept)
              | inl absent ↦ inl (
                  rw absent (
                    ground (
                      arith,
                      kept,
                      absent,
                      lookup-set (replay_key client_id jti) key (forget_at exp)
                          (keep_values (is_later now) cache),
                      eq_iff (replay_key client_id jti) key,
                    )))
            ]
    ]

-- What an accepted use leaves behind.
pub reject_replay-ok :
    (client_id jti : String) (exp : ℤ) (now : ℕ) (cache : Dict ℕ)
    → (reject_replay client_id jti exp now cache).0 ≡ ok tt
    → lookup (replay_key client_id jti) (reject_replay client_id jti exp now cache).1
      ≡ some (forget_at exp)
unfolding reject_replay
reject_replay-ok client_id jti exp now cache h =
    elim (Option-cases (lookup (replay_key client_id jti) (keep_values (is_later now) cache))) [
      | inr (e, there) ↦ absurd (ground (arith, there))
      | inl absent ↦ rw absent (lookup-set_self _ _ _)
    ]

-- A use while the cache refuses the key.
pub reject_replay-refuses :
    (client_id jti : String) (exp : ℤ) (now : ℕ) (cache : Dict ℕ)
    → falls_by exp 60 now ≡ false
    → IsSpent (replay_key client_id jti) (forget_at exp) now cache
    → (reject_replay client_id jti exp now cache).0 ≢ ok tt
unfolding reject_replay
reject_replay-refuses client_id jti exp now cache h (inr passed) accepted =
    absurd (omega (arith, forget_at_iff exp now h))
reject_replay-refuses client_id jti exp now cache h (inl found) accepted =
    let kept =
      lookup-keep_values-kept (is_later now) (replay_key client_id jti) cache (forget_at exp) found
        (ground (arith, forget_at_iff exp now h)) in
    absurd (ground (arith, kept))
