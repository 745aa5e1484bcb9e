-- ===== src/Mcp/SseConnections.antt =====
-- mcp/sse-connection-limit.ts: how many SSE streams are open. The module variable
-- `activeConnections` and the flags `released` of the closures that were returned are the state.
pub mod Bounded
use encore_mcp_base.Base.{
  ℕ, zero, suc, ◌+◌, ◌-◌, Bool, true, false, List, [], ◌∷◌, ◌++◌, Result, ok, err, Thrown,
  service_error, rate_limited, leb, length, if◌then◌else◌,
}

-- `released` has the flag of every connection that was acquired, in order.
pub record Connections : Type 0 where
  pub active_connections : ℕ
  pub released : List Bool

abbrev pub no_connections : Connections
no_connections = record { active_connections = 0; released = [] }

abbrev pub connection_limit_error : Thrown
connection_limit_error = service_error rate_limited "sse connection limit exceeded" 429

-- The result names the closure: the index of its flag.
unfoldable pub acquire_sse_connection : ℕ → Connections → Result ℕ × Connections
acquire_sse_connection max_connections c =
    if leb max_connections c.active_connections then (err connection_limit_error, c) else (
      ok (length c.released),
      record { active_connections = c.active_connections + 1; released = c.released ++ false ∷ [] },
    )

-- The flag of a closure, and the flags once it is set. A closure that was never returned cannot be
-- called; it counts as released.
abbrev pub is_released : ℕ → List Bool → Bool
is_released i [] = true
is_released zero (b ∷ bs) = b
is_released (suc i) (b ∷ bs) = is_released i bs

abbrev pub set_released : ℕ → List Bool → List Bool
set_released i [] = []
set_released zero (b ∷ bs) = true ∷ bs
set_released (suc i) (b ∷ bs) = b ∷ set_released i bs

-- A call of the closure that `acquire_sse_connection` returned.
unfoldable pub release : ℕ → Connections → Connections
release i c = if is_released i c.released then c else record {
  active_connections = c.active_connections - 1;
  released = set_released i c.released;
}

-- What the endpoints do with it.
pub data Event : Type 0 where
  acquires releases : ℕ → Event

unfoldable pub step : Connections → Event → Connections
step c (acquires max_connections) = (acquire_sse_connection max_connections c).1
step c (releases i) = release i c

unfoldable pub run : Connections → List Event → Connections
run c [] = c
run c (e ∷ es) = run (step c e) es
