-- ===== src/Cache/Tests.antt =====
-- The theorems on the package cache, at a cache of three slots.
use oscortex.Base.{
  ℕ, zero, suc, ◌<◌, ◌≡◌, ◌⊎◌, refl, true, false, List, [], ◌∷◌, ◌++◌, length, set, arith,
}
use oscortex.Cache.{CacheEntry, CacheState, insert, fetched, entry_at, is_pinned, is_active}
use oscortex.Cache.Evict.{insert-full}
use oscortex.Cache.History.{Call, inserts, removes, looks_up, touches, run, held, run-keeps_pinned}
use oscortex.Cache.Victim.{Oldest}

abbrev entries : List CacheEntry
entries = fetched 1 (1 ∷ []) true 5 ∷ fetched 2 (2 ∷ []) false 9 ∷ fetched 3 (3 ∷ []) false 7 ∷ []

abbrev cache : CacheState
cache = record { entries = entries; uninstalled = [] }

entries-IsFull : (j : ℕ) → j < length entries → is_active (entry_at entries j) ≡ true
entries-IsFull zero h = refl
entries-IsFull (suc zero) h = refl
entries-IsFull (suc (suc zero)) h = refl
entries-IsFull (suc (suc (suc j))) h = absurd (omega arith)

insert-full_example :
    ((insert 4 (4 ∷ []) false 10 cache ≡ (cache, false))
      × ((j : ℕ) → j < length cache.entries → is_pinned (entry_at cache.entries j) ≡ true))
    ⊎ ((j : ℕ) × Oldest cache.entries j
        × (insert 4 (4 ∷ []) false 10 cache ≡ (
          record {
            entries = set cache.entries j (fetched 4 (4 ∷ []) false 10);
            uninstalled = cache.uninstalled ++ ((entry_at cache.entries j).app_id ∷ []);
          },
          true,
        )))
insert-full_example = insert-full 4 (4 ∷ []) false 10 cache entries-IsFull

abbrev calls : List Call
calls = inserts 4 (4 ∷ []) false 10 ∷ removes 1 ∷ looks_up (1 ∷ []) 11 ∷ touches 1 12 ∷ []

run-keeps_pinned_example :
    held (entry_at (run calls cache).entries 0) ≡ held (entry_at cache.entries 0)
run-keeps_pinned_example = run-keeps_pinned calls cache 0 refl
