-- ===== src/Engine/Reads.antt =====
-- What a read of the engine (src/engine.rs) answers, by the places it looks in.
use uldb.Prelude.{◌≡◌, List, [], ◌∷◌, Option, some, none, if◌then◌else◌, ◌==◌, arith, refl, sym}
use uldb.Bytes.{Bytes, bytes_eq}
use uldb.Maps.{lookup, lookup-remove}
use uldb.Storage.Memtable
use uldb.Storage.Memtable.{Memtable, MemEntry}
use uldb.Storage.Compaction
use uldb.Storage.Compaction.{CompactionManager, rev}
use uldb.Storage.Cache
use uldb.Storage.Cache.{LruCache}
use uldb.Storage.Cache.Laws.{view, get_lem}
use uldb.Engine.{Engine, invalidate_cache}
use uldb.Engine.Lookup.{get, get_cold, find_frozen}

abbrev pub reads : Bytes → Engine → Option Bytes
reads j e = (get j e).0

-- The first of the memtable, the frozen ones, the cache and the levels that knows the key.
abbrev pub first_known :
    Option MemEntry → Option MemEntry → Option Bytes → Option Bytes → Option Bytes
first_known (some entry) frozen cached level = entry.value
first_known none (some entry) cached level = entry.value
first_known none none (some v) level = some v
first_known none none none level = level

get_cold-first :
    (j : Bytes) (c : LruCache) (cm : CompactionManager)
    → (get_cold j c cm).0 ≡ first_known none none (view j c) (Compaction.get j cm)
unfolding get_cold
get_cold-first j c cm = ground (arith, (get_lem j c).0)

pub reads_first :
    (j : Bytes) (e : Engine)
    → reads j e
      ≡ first_known
          (Memtable.get_entry j e.memtable)
          (find_frozen j (rev e.frozen))
          (view j e.cache)
          (Compaction.get j e.levels)
unfolding get
reads_first j e = ground (arith, get_cold-first j e.cache e.levels)

pub view-invalidate_cache :
    (k j : Bytes) (c : LruCache)
    → view j (invalidate_cache k c) ≡ (if k == j then none else view j c)
unfolding invalidate_cache Cache.is_empty Cache.invalidate view
view-invalidate_cache k j c = at c.entries refl
  where
    at :
        (m : List (Bytes × Cache.CacheEntry))
        → m ≡ c.entries
        → view j (invalidate_cache k c) ≡ (if k == j then none else view j c)
    at [] e = ground (arith, sym e, lookup_nil j)
      where
        lookup_nil : (j : Bytes) → ◌≡◌ {A = Option Cache.CacheEntry} (lookup j []) none
        lookup_nil j = unfold lookup in refl
    at (p ∷ m) e = ground (arith, sym e, lookup-remove k j c.entries)
