-- ===== src/OAuth/ExpiringCache/Laws.antt =====
-- The cache of auth/expiring-cache.ts is bounded, and gives back what was written until it expires.
use encore_mcp_base.Base.{
  ℕ, suc, ◌+◌, ◌*◌, ◌≤◌, ◌<◌, String, ◌≡◌, refl, Bool, true, false, not, none, some, [], ◌∷◌, arith,
  leb, length, is_some, if◌then◌else◌, Bool-cases, Option-cases, inl, inr,
}
use encore_mcp_base.Base.Dict.{
  Dict, lookup, set, delete, keep_values, HasUniqueKeys, lookup-set_self, lookup-keep_values,
  set-HasUniqueKeys, keep_values-HasUniqueKeys,
}
use encore_mcp_base.OAuth.ExpiringCache.{
  ExpiringCacheEntry, prune_expired_cache_entries, read_expiring_cache, evict, write_expiring_cache,
}

module _ {V : Type 0} where
  length-set :
      (k : String) (v : V) (m : Dict V)
      → length (set k v m) ≡ (if is_some (lookup k m) then length m else suc (length m))
  unfolding set lookup
  length-set k v [] = refl
  length-set k v ((j, w) ∷ m) = ground (arith, length-set k v m)

  length-delete : (k : String) (m : Dict V) → length (delete k m) ≤ length m
  unfolding delete
  length-delete k [] = omega arith
  length-delete k ((j, w) ∷ m) = ground (arith, length-delete k m)

  length-keep_values : (p : V → Bool) (m : Dict V) → length (keep_values p m) ≤ length m
  unfolding keep_values
  length-keep_values p [] = omega arith
  length-keep_values p ((j, w) ∷ m) = ground (arith, length-keep_values p m)

abbrev Cache : Type 0 → Type 0
Cache T = Dict (ExpiringCacheEntry T)

module _ {T : Type 0} where
  -- Where it matters, the loop leaves room for one entry.
  length-evict :
      (max_entries : ℕ) (cache : Cache T)
      → 0 < max_entries
      → length (evict max_entries cache) < max_entries
  unfolding evict
  length-evict max_entries [] positive = positive
  length-evict max_entries (e ∷ cache) positive =
      ground (arith, length-evict max_entries cache positive)

  lookup-evict-none :
      (max_entries : ℕ) (k : String) (cache : Cache T)
      → lookup k cache ≡ none
      → lookup k (evict max_entries cache) ≡ none
  unfolding evict lookup
  lookup-evict-none max_entries k [] h = refl
  lookup-evict-none max_entries k ((j, e) ∷ cache) h =
      ground (arith, lookup-evict-none max_entries k cache)

  evict-HasUniqueKeys :
      (max_entries : ℕ) (cache : Cache T)
      → HasUniqueKeys cache
      → HasUniqueKeys (evict max_entries cache)
  unfolding evict
  evict-HasUniqueKeys max_entries [] unique = tt
  evict-HasUniqueKeys max_entries ((j, e) ∷ cache) unique =
      ground (arith, evict-HasUniqueKeys max_entries cache unique.1)

  -- What is done with the pruned cache when the lifetime is positive.
  abbrev stored : Cache T → String → ExpiringCacheEntry T → ℕ → Cache T
  stored pruned key entry max_entries =
      if is_some (lookup key pruned)
      then set key entry pruned
      else set key entry (evict max_entries pruned)

  length-stored :
      (pruned : Cache T) (key : String) (entry : ExpiringCacheEntry T) (max_entries : ℕ)
      → 0 < max_entries
      → length pruned ≤ max_entries
      → length (stored pruned key entry max_entries) ≤ max_entries
  length-stored pruned key entry max_entries positive bounded =
      elim (Option-cases (lookup key pruned)) [
        | inl absent ↦ rw absent (
            rw
              (
                length-set key entry (evict max_entries pruned),
                lookup-evict-none max_entries key pruned absent,
              )
              (omega (arith, length-evict max_entries pruned positive)))
        | inr (e, present) ↦ rw present (rw (length-set key entry pruned, present) bounded)
      ]

  lookup-stored :
      (pruned : Cache T) (key : String) (entry : ExpiringCacheEntry T) (max_entries : ℕ)
      → lookup key (stored pruned key entry max_entries) ≡ some entry
  lookup-stored pruned key entry max_entries = elim (Bool-cases (is_some (lookup key pruned))) [
    | inl present ↦ rw present (lookup-set_self key entry pruned)
    | inr absent ↦ rw absent (lookup-set_self key entry (evict max_entries pruned))
  ]

  stored-HasUniqueKeys :
      (pruned : Cache T) (key : String) (entry : ExpiringCacheEntry T) (max_entries : ℕ)
      → HasUniqueKeys pruned
      → HasUniqueKeys (stored pruned key entry max_entries)
  stored-HasUniqueKeys pruned key entry max_entries unique =
      elim (Bool-cases (is_some (lookup key pruned))) [
        | inl present ↦ rw present (set-HasUniqueKeys key entry pruned unique)
        | inr absent ↦ rw absent (
            set-HasUniqueKeys key entry (evict max_entries pruned)
              (evict-HasUniqueKeys max_entries pruned unique))
      ]

  -- A cache that has no more entries than the bound, which is not 0, has no more after a write.
  pub write_expiring_cache-bounded :
      (cache : Cache T) (key : String) (value : T) (cache_seconds max_entries now : ℕ)
      → 0 < max_entries
      → length cache ≤ max_entries
      → length (write_expiring_cache cache key value cache_seconds max_entries now) ≤ max_entries
  unfolding write_expiring_cache prune_expired_cache_entries
  write_expiring_cache-bounded cache key value cache_seconds max_entries now positive bounded =
      let live = length-keep_values (λ e. not (leb e.expires_at now)) cache in
      elim (Bool-cases (leb cache_seconds 0)) [
        | inl dead ↦ rw dead (omega (arith, live, length-delete key _))
        | inr lasting ↦
            rw lasting (length-stored _ key _ max_entries positive (omega (arith, live)))
      ]

  -- What was written with a positive lifetime is read back until its lifetime is over.
  pub read-write_expiring_cache :
      (cache : Cache T) (key : String) (value : T) (cache_seconds max_entries now later : ℕ)
      → HasUniqueKeys cache
      → 0 < cache_seconds
      → later < now + cache_seconds * 1000
      → (read_expiring_cache
          (write_expiring_cache cache key value cache_seconds max_entries now)
          key
          later).0
        ≡ some value
  unfolding read_expiring_cache write_expiring_cache prune_expired_cache_entries
  read-write_expiring_cache cache key value cache_seconds max_entries now later unique positive
        alive =
      let pruned = keep_values (λ e. not (leb e.expires_at now)) cache in
      let entry : ExpiringCacheEntry T = record {
        value = value;
        expires_at = now + cache_seconds * 1000;
      } in
      let lasting : leb cache_seconds 0 ≡ false = ground arith in
      let kept : not (leb (now + cache_seconds * 1000) later) ≡ true = ground arith in
      rw lasting (
        rw
          (
            lookup-keep_values (λ e. not (leb e.expires_at later)) key
                (stored pruned key entry max_entries)
                (stored-HasUniqueKeys pruned key entry max_entries
                  (keep_values-HasUniqueKeys _ cache unique)),
            lookup-stored pruned key entry max_entries,
            kept,
          )
          refl)
