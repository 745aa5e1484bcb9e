-- ===== src/Mcp/SseConnections/Bounded.antt =====
-- The counter of mcp/sse-connection-limit.ts is the number of streams that are open, whatever the
-- order of the calls and however often a stream is released.
use encore_mcp_base.Base.{
  ℕ, zero, suc, ◌+◌, ◌≤◌, ◌≡◌, refl, Bool, true, false, List, [], ◌∷◌, ◌++◌, arith, All, Bool-cases,
  inl, inr,
}
use encore_mcp_base.Mcp.SseConnections.{
  Connections, acquire_sse_connection, is_released, set_released, release, Event, acquires,
  releases, step, run,
}

-- The connections that are open: acquired and not released.
abbrev pub open_count : List Bool → ℕ
open_count [] = 0
open_count (true ∷ bs) = open_count bs
open_count (false ∷ bs) = 1 + open_count bs

open_count-append : (bs : List Bool) → open_count (bs ++ false ∷ []) ≡ open_count bs + 1
open_count-append [] = refl
open_count-append (true ∷ bs) = open_count-append bs
open_count-append (false ∷ bs) = omega (arith, open_count-append bs)

open_count-set_released :
    (i : ℕ) (bs : List Bool)
    → is_released i bs ≡ false
    → open_count (set_released i bs) + 1 ≡ open_count bs
open_count-set_released i [] h = cc
open_count-set_released zero (true ∷ bs) h = cc
open_count-set_released zero (false ∷ bs) h = omega arith
open_count-set_released (suc i) (true ∷ bs) h = open_count-set_released i bs h
open_count-set_released (suc i) (false ∷ bs) h = omega (arith, open_count-set_released i bs h)

-- The counter counts the open connections, and the limit holds.
abbrev pub IsCounted : ℕ → Connections → Type 0
IsCounted limit c = (c.active_connections ≡ open_count c.released) × (c.active_connections ≤ limit)

-- The call asks for no more than the limit.
abbrev pub IsWithin : ℕ → Event → Type 0
IsWithin limit (acquires max_connections) = max_connections ≤ limit
IsWithin limit (releases i) = Unit {0}

step-IsCounted :
    (limit : ℕ) (c : Connections) (e : Event)
    → IsWithin limit e
    → IsCounted limit c
    → IsCounted limit (step c e)
unfolding step acquire_sse_connection release
step-IsCounted limit c (acquires max_connections) within counted =
    ground (arith, open_count-append c.released)
step-IsCounted limit c (releases i) within counted = elim (Bool-cases (is_released i c.released)) [
  | inl again ↦ rw again counted
  | inr first ↦
      let one_less = open_count-set_released i c.released first in
      rw first (omega (arith, one_less, counted.0), omega (arith, counted.1))
]

-- After any calls whose limits are at most a bound, in any order and with any repeated releases,
-- the counter is the number of connections that are acquired and not released, and at most the
-- bound.
pub run-IsCounted :
    (limit : ℕ) (c : Connections) (es : List Event)
    → All (IsWithin limit) es
    → IsCounted limit c
    → IsCounted limit (run c es)
unfolding run
run-IsCounted limit c [] within counted = counted
run-IsCounted limit c (e ∷ es) within counted =
    run-IsCounted limit (step c e) es within.1 (step-IsCounted limit c e within.0 counted)
