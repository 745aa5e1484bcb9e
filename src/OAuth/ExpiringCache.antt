-- ===== src/OAuth/ExpiringCache.antt =====
-- auth/expiring-cache.ts: a `Map` in insertion order whose entries expire, with a bound on its size.
pub mod Laws
use encore_mcp_base.Base.{
  ℕ, zero, suc, ◌+◌, ◌*◌, String, Bool, true, false, not, Option, none, some, List, [], ◌∷◌, ◌++◌,
  leb, length, is_some, ◌==◌, if◌then◌else◌,
}
use encore_mcp_base.Base.Dict.{Dict, lookup, set, delete, keep_values, map_some}

pub record ExpiringCacheEntry {ℓ} (T : Type ℓ) : Type ℓ where
  pub value : T
  pub expires_at : ℕ

module _ {T : Type 0} where
  unfoldable pub prune_expired_cache_entries :
      Dict (ExpiringCacheEntry T) → ℕ → Dict (ExpiringCacheEntry T)
  prune_expired_cache_entries cache now = keep_values (λ e. not (leb e.expires_at now)) cache

  -- The value, and the cache that is left.
  unfoldable pub read_expiring_cache :
      Dict (ExpiringCacheEntry T) → String → ℕ → Option T × Dict (ExpiringCacheEntry T)
  read_expiring_cache cache key now =
      let pruned = prune_expired_cache_entries cache now in
      (map_some (λ e. e.value) (lookup key pruned), pruned)

  -- The loop that deletes the oldest entries: the key is not in the cache, and as many are deleted
  -- as are too many.
  unfoldable pub evict : ℕ → Dict (ExpiringCacheEntry T) → Dict (ExpiringCacheEntry T)
  evict max_entries [] = []
  evict max_entries (e ∷ cache) =
      let rest = evict max_entries cache in
      if leb max_entries (length (e ∷ cache)) then rest else e ∷ cache

  -- `cacheSeconds` that is not positive is 0 here.
  unfoldable pub write_expiring_cache :
      Dict (ExpiringCacheEntry T) → String → T → ℕ → ℕ → ℕ → Dict (ExpiringCacheEntry T)
  write_expiring_cache cache key value cache_seconds max_entries now =
      let pruned = prune_expired_cache_entries cache now in
      let entry : ExpiringCacheEntry T = record {
        value = value;
        expires_at = now + cache_seconds * 1000;
      } in
      if leb cache_seconds 0
      then delete key pruned
      else if is_some (lookup key pruned)
      then set key entry pruned
      else set key entry (evict max_entries pruned)
