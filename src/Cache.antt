-- ===== src/Cache.antt =====
-- kernel/src/pkg/cache.rs: the cache of packages fetched on demand, its least recently used entry
-- evicted when it is full. The frame counter is an argument; `app_registry::uninstall` is recorded.
pub mod Victim
pub mod Evict
mod History
mod Tests
use oscortex.Pkg.Sha256.{hash_eq}
use oscortex.Base.{
  ℕ, ◌+◌, Bool, true, false, not, ◌&&◌, Option, none, some, List, [], ◌∷◌, ◌++◌, replicate, set,
  get_or, count_if, if◌then◌else◌, ◌==◌, leb, bit_xor, bit_or,
}

abbrev pub max_cached : ℕ
max_cached = 16

pub record CacheEntry : Type 0 where
  pub active : Bool
  pub app_id : ℕ
  pub hash : List ℕ
  pub last_used : ℕ
  pub pinned : Bool

abbrev pub empty : CacheEntry
empty = record { active = false; app_id = 0; hash = replicate 32 0; last_used = 0; pinned = false }

-- The entries and the applications that the cache had the registry uninstall.
pub record CacheState : Type 0 where
  pub entries : List CacheEntry
  pub uninstalled : List ℕ

abbrev pub new : CacheState
new = record { entries = replicate max_cached empty; uninstalled = [] }

abbrev pub holds_hash : List ℕ → CacheEntry → Bool
holds_hash h e = e.active && hash_eq e.hash h

abbrev pub holds_app : ℕ → CacheEntry → Bool
holds_app id e = e.active && e.app_id == id

abbrev pub used_at : ℕ → CacheEntry → CacheEntry
used_at now e = record e { last_used = now }

-- The first entry that passes a test: its index, counted from `i`.
unfoldable pub position : (CacheEntry → Bool) → List CacheEntry → ℕ → Option ℕ
position p [] i = none
position p (e ∷ es) i = let rest = position p es (i + 1) in if p e then some i else rest

abbrev pub entry_at : List CacheEntry → ℕ → CacheEntry
entry_at es i = get_or es i empty

abbrev pub lookup : List ℕ → ℕ → CacheState → CacheState × Option ℕ
lookup hash now c = elim (position (holds_hash hash) c.entries 0) [
  | none ↦ (c, none)
  | some i ↦ (
    record c { entries = set c.entries i (used_at now (entry_at c.entries i)) },
    some (entry_at c.entries i).app_id,
  )
]

pub lookup_by_id : ℕ → CacheState → Bool
lookup_by_id id c = elim (position (holds_app id) c.entries 0) [ none ↦ false | some i ↦ true ]

abbrev pub is_free : CacheEntry → Bool
is_free e = not e.active

abbrev pub evictable : CacheEntry → Bool
evictable e = e.active && not e.pinned

-- The index and the time of the first of the entries that can be evicted and were used the longest
-- ago.
unfoldable pub victim : List CacheEntry → ℕ → Option (ℕ × ℕ)
victim [] i = none
victim (e ∷ es) i =
    let rest = victim es (i + 1) in
    if evictable e
    then elim rest [
      | none ↦ some (i, e.last_used)
      | some (j, t) ↦ if leb e.last_used t then some (i, e.last_used) else some (j, t)
    ]
    else rest

abbrev pub fetched : ℕ → List ℕ → Bool → ℕ → CacheEntry
fetched app_id hash pinned now = record {
  active = true;
  app_id = app_id;
  hash = hash;
  last_used = now;
  pinned = pinned;
}

pub insert : ℕ → List ℕ → Bool → ℕ → CacheState → CacheState × Bool
insert app_id hash pinned now c = elim (position is_free c.entries 0) [
  | some i ↦ (record c { entries = set c.entries i (fetched app_id hash pinned now) }, true)
  | none ↦ elim (victim c.entries 0) [
    | none ↦ (c, false)
    | some (i, t) ↦ (
      record {
        entries = set c.entries i (fetched app_id hash pinned now);
        uninstalled = c.uninstalled ++ ((entry_at c.entries i).app_id ∷ []);
      },
      true,
    )
  ]
]

pub remove : ℕ → CacheState → CacheState × Bool
remove app_id c = elim (position (holds_app app_id) c.entries 0) [
  | none ↦ (c, false)
  | some i ↦
      (if (entry_at c.entries i).pinned then (c, false) else (
        record {
          entries = set c.entries i (record (entry_at c.entries i) { active = false });
          uninstalled = c.uninstalled ++ (app_id ∷ []);
        },
        true,
      ))
]

abbrev pub touch : ℕ → ℕ → CacheState → CacheState
touch app_id now c = elim (position (holds_app app_id) c.entries 0) [
  | none ↦ c
  | some i ↦ record c { entries = set c.entries i (used_at now (entry_at c.entries i)) }
]

abbrev pub is_active : CacheEntry → Bool
is_active e = e.active

abbrev pub is_pinned : CacheEntry → Bool
is_pinned e = e.active && e.pinned

abbrev pub count : CacheState → ℕ × ℕ
count c = (count_if is_active c.entries, count_if is_pinned c.entries)
