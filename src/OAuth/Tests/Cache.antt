-- ===== src/OAuth/Tests/Cache.antt =====
-- auth/expiring-cache.ts at concrete inputs.
use encore_mcp_base.Base.{◌≤◌, String, ◌≡◌, refl, none, some, [], ◌∷◌, arith, length}
use encore_mcp_base.Base.Dict.{Dict, HasUniqueKeys}
use encore_mcp_base.OAuth.ExpiringCache.{
  ExpiringCacheEntry, prune_expired_cache_entries, read_expiring_cache, evict, write_expiring_cache,
}
use encore_mcp_base.OAuth.ExpiringCache.Laws.{
  write_expiring_cache-bounded, read-write_expiring_cache,
}
use encore_mcp_base.OAuth.Tests.{oauth}

cache_code : Unit {0}
unfolding oauth prune_expired_cache_entries read_expiring_cache evict write_expiring_cache
cache_code = tt

abbrev full : Dict (ExpiringCacheEntry String)
full =
    ("a", record { value = "1"; expires_at = 5000 })
    ∷ ("b", record { value = "2"; expires_at = 6000 })
    ∷ []

cache_tests :
    (write_expiring_cache full "c" "3" 1 2 1000
      ≡ ("b", record { value = "2"; expires_at = 6000 })
        ∷ ("c", record { value = "3"; expires_at = 2000 })
        ∷ [])
    × ((read_expiring_cache full "a" 5000).0 ≡ none)
    × HasUniqueKeys full
unfolding cache_code
cache_tests = (refl, refl, (refl, (refl, tt)))

write_expiring_cache-bounded_example : length (write_expiring_cache full "c" "3" 1 2 1000) ≤ 2
write_expiring_cache-bounded_example =
    write_expiring_cache-bounded full "c" "3" 1 2 1000 (omega arith) (omega arith)

read-write_expiring_cache_example :
    (read_expiring_cache (write_expiring_cache full "c" "3" 1 2 1000) "c" 1999).0 ≡ some "3"
read-write_expiring_cache_example =
    read-write_expiring_cache full "c" "3" 1 2 1000 1999 cache_tests.2 (omega arith) (omega arith)
