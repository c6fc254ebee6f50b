-- ===== src/Engine/Lookup.antt =====
-- Reads and scans of the engine (src/engine.rs).
use uldb.Prelude.{
  ◌+◌, List, [], ◌∷◌, ◌++◌, Option, some, none, Bool, true, false, eqb, if◌then◌else◌, ◌&&◌,
}
use uldb.Bytes.{Bytes, bytes_eq}
use uldb.Maps.{remove}
use uldb.Maps.Sorted.{tree_insert}
use uldb.Storage.Memtable
use uldb.Storage.Memtable.{Memtable, MemEntry}
use uldb.Storage.Compaction
use uldb.Storage.Compaction.{CompactionManager, rev, add_l0_page}
use uldb.Storage.Cache
use uldb.Storage.Cache.{LruCache}
use uldb.Engine.{Engine}

-- The newest frozen memtable that has the key.
unfoldable pub find_frozen : Bytes → List Memtable → Option MemEntry
unfolding Memtable.get_entry
find_frozen key [] = none
find_frozen key (m ∷ ms) = elim (Memtable.get_entry key m) [
  | none ↦ find_frozen key ms
  | some e ↦ some e
]

-- The cache, and then the levels with a new cache entry on a hit.
unfoldable pub get_cold : Bytes → LruCache → CompactionManager → Option Bytes × LruCache
unfolding Cache.get Cache.put Compaction.get
get_cold key c cm =
    let hit = Cache.get key c in
    elim hit.0 [
      | some v ↦ (some v, hit.1)
      | none ↦ elim (Compaction.get key cm) [
        | some v ↦ (some v, Cache.put key v hit.1)
        | none ↦ (none, hit.1)
      ]
    ]

unfoldable pub get : Bytes → Engine → Option Bytes × Engine
unfolding find_frozen get_cold rev
get key e =
    let e' = record e { total_gets = e.total_gets + 1 } in
    elim (Memtable.get_entry key e.memtable) [
      | some entry ↦ (entry.value, e')
      | none ↦ elim (find_frozen key (rev e.frozen)) [
        | some entry ↦ (entry.value, e')
        | none ↦ let cold = get_cold key e.cache e.levels in (cold.0, record e' { cache = cold.1 })
      ]
    ]

-- One entry of a range laid over the results so far.
abbrev pub lay : Bytes → Option Bytes → List (Bytes × Bytes) → List (Bytes × Bytes)
lay k none results = remove k results
lay k (some v) results = tree_insert k v results

unfoldable pub overlay : List (Bytes × MemEntry) → List (Bytes × Bytes) → List (Bytes × Bytes)
overlay [] results = results
overlay ((k, e) ∷ es) results = overlay es (lay k e.value results)

unfoldable pub overlay_all :
    Bytes → Bytes → List Memtable → List (Bytes × Bytes) → Option (List (Bytes × Bytes))
unfolding overlay
overlay_all start end [] results = some results
overlay_all start end (m ∷ ms) results = elim (Memtable.scan start end m) [
  | none ↦ none
  | some es ↦ overlay_all start end ms (overlay es results)
]

-- The live entries of a range, in order.
unfoldable pub live_entries : List (Bytes × MemEntry) → List (Bytes × Bytes)
live_entries [] = []
live_entries ((k, e) ∷ es) =
    let rest = live_entries es in elim e.value [ none ↦ rest | some v ↦ (k, v) ∷ rest ]

abbrev pub no_memtables : List Memtable → Bool
no_memtables [] = true
no_memtables (m ∷ ms) = false

-- `none` is the panic of a range that runs backwards.
unfoldable pub scan : Bytes → Bytes → Engine → Option (List (Bytes × Bytes))
unfolding overlay_all live_entries
scan start end e =
    if no_memtables e.frozen && eqb e.flush_count 0
    then elim (Memtable.scan start end e.memtable) [
      | none ↦ none
      | some es ↦ some (live_entries es)
    ]
    else overlay_all start end (e.frozen ++ e.memtable ∷ []) (Compaction.scan start end e.levels)
