-- ===== src/Engine/Scans.antt =====
-- `Engine::scan` (src/engine.rs) against single reads.
use uldb.Prelude.{
  ◌≡◌, ◌<◌, List, [], ◌∷◌, ◌++◌, Option, some, none, false, if◌then◌else◌, ◌==◌, ◌&&◌, eqb, arith,
  refl, ap, ◌∙◌, ◌⊎◌,
}
use uldb.Bytes.{Bytes, bytes_eq, blt}
use uldb.Maps.{lookup, lookup-remove}
use uldb.Maps.Sorted
use uldb.Maps.Sorted.{
  Above, Above-lookup, tree_insert, lookup-tree_insert, tree_insert-IsSorted, remove-IsSorted,
  range, between,
}
use uldb.Storage.Memtable
use uldb.Storage.Memtable.{Memtable, MemEntry}
use uldb.Storage.Memtable.Laws
use uldb.Storage.Memtable.Laws.{scan_lem}
use uldb.Storage.Compaction
use uldb.Storage.Compaction.{rev}
use uldb.Storage.Compaction.Reads
use uldb.Storage.Compaction.Scan.{scan-get, in_range}
use uldb.Storage.Cache.Laws.{view}
use uldb.Engine.{Engine}
use uldb.Engine.Lookup.{scan, lay, overlay, overlay_all, no_memtables}
use uldb.Engine.Reads.{reads, reads_first}
use uldb.Engine.Flushes.{AllDrained, AllDrained-rev, find_drained}

abbrev over : Option MemEntry → Option Bytes → Option Bytes
over none below = below
over (some e) below = e.value

lay_lem :
    (k : Bytes) (v : Option Bytes) (results : List (Bytes × Bytes))
    → Sorted.IsSorted results
    → Sorted.IsSorted (lay k v results)
      × ((j : Bytes) → lookup j (lay k v results) ≡ (if k == j then v else lookup j results))
lay_lem k none results r = (remove-IsSorted k results r, λ j. lookup-remove k j results)
lay_lem k (some v) results r =
    (tree_insert-IsSorted k v results r, λ j. lookup-tree_insert k j v results)

overlay_lem :
    (es : List (Bytes × MemEntry)) (results : List (Bytes × Bytes))
    → Sorted.IsSorted es
    → Sorted.IsSorted results
    → Sorted.IsSorted (overlay es results)
      × ((j : Bytes) → lookup j (overlay es results) ≡ over (lookup j es) (lookup j results))
unfolding overlay lookup
overlay_lem [] results s r = (r, λ j. refl)
overlay_lem ((k, e) ∷ es) results s r =
    let (r', one) = lay_lem k e.value results r in
    let (r'', law) = overlay_lem es (lay k e.value results) s.1 r' in
    (r'', λ j. law j ∙ ground (arith, one j, bytes_eq.beq_iff k j, Above-lookup k es s.0))

overlay_all-some :
    (start end : Bytes) (m : Memtable) (ms : List Memtable) (es : List (Bytes × MemEntry))
    (results : List (Bytes × Bytes))
    → Memtable.scan start end m ≡ some es
    → overlay_all start end (m ∷ ms) results ≡ overlay_all start end ms (overlay es results)
unfolding overlay_all
overlay_all-some start end m ms es results h = rw (h, overlay_all)

-- Drained memtables add nothing to a scan.
overlay_drained :
    (start end : Bytes) (ms : List Memtable) (m : Memtable) (results : List (Bytes × Bytes))
    → AllDrained ms
    → blt end start ≡ false
    → overlay_all start end (ms ++ m ∷ []) results ≡ overlay_all start end (m ∷ []) results
overlay_drained start end [] m results a h = refl
overlay_drained start end (d ∷ ms) m results a h =
    let nothing : Memtable.scan start end d ≡ some [] =
      unfold Memtable.scan range between in rw (a.0, h) in
    let same : overlay [] results ≡ results = unfold overlay in refl in
    overlay_all-some start end d (ms ++ m ∷ []) [] results nothing
    ∙ ap (overlay_all start end (ms ++ m ∷ [])) same
    ∙ overlay_drained start end ms m results a.1 h

-- After a flush, a scan of a range that does not run backwards returns, and gives, in key order, for
-- every key of the range what a read of that key gives, and nothing outside the range, if the
-- memtable and the levels are well-formed, the frozen memtables empty, and the cache has no value
-- that the levels do not have.
pub scan-reads :
    (start end : Bytes) (e : Engine)
    → Laws.IsValid e.memtable
    → AllDrained e.frozen
    → Reads.IsValid e.levels
    → ((j : Bytes) → (view j e.cache ≡ none) ⊎ (view j e.cache ≡ Compaction.get j e.levels))
    → 0 < e.flush_count
    → blt end start ≡ false
    → (out : List (Bytes × Bytes)) × (scan start end e ≡ some out)
      × Sorted.IsSorted out
      × ((j : Bytes) → lookup j out ≡ (if in_range start end j then reads j e else none))
scan-reads start end e valid drained levels coherent flushed forward =
    let (sorted, below) = scan-get start end e.levels levels in
    let (es, scanned, es_sorted, _) = scan_lem start end e.memtable start valid forward in
    let (out_sorted, law) = overlay_lem es (Compaction.scan start end e.levels) es_sorted sorted in
    let full : (no_memtables e.frozen && eqb e.flush_count 0) ≡ false = ground (arith, flushed) in
    let steps : overlay_all start end (e.memtable ∷ []) (Compaction.scan start end e.levels)
        ≡ some (overlay es (Compaction.scan start end e.levels)) =
      overlay_all-some start end e.memtable [] es (Compaction.scan start end e.levels) scanned
      ∙ unfold overlay_all in refl in
    (
      overlay es (Compaction.scan start end e.levels),
      unfold scan in
          rw full (overlay_drained start end e.frozen e.memtable _ drained forward ∙ steps),
      out_sorted,
      λ j.
          let found : lookup j es
              ≡ (if in_range start end j then Memtable.get_entry j e.memtable else none) =
            entries j es scanned in
          law j
          ∙ ground (
            arith,
            below j,
            found,
            reads_first j e,
            coherent j,
            find_drained j (rev e.frozen) (AllDrained-rev e.frozen drained),
          ),
    )
  where
    entries :
        (j : Bytes) (es : List (Bytes × MemEntry))
        → Memtable.scan start end e.memtable ≡ some es
        → lookup j es ≡ (if in_range start end j then Memtable.get_entry j e.memtable else none)
    entries j es h =
        let (es', h', _, l) = scan_lem start end e.memtable j valid forward in
        let same : es ≡ es' = ground (arith, h, h') in rw same l
