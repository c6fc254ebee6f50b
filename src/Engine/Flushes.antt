-- ===== src/Engine/Flushes.antt =====
-- A flush (src/engine.rs) and the worker's step after it (src/storage/bg_compaction.rs).
use uldb.Prelude.{
  ℕ, ◌+◌, ◌-◌, ◌≡◌, ◌≤◌, List, [], ◌∷◌, ◌++◌, some, none, true, arith, refl, ap, ◌∙◌, All,
  All-append, length, drop, ◌⊎◌, suc, zero,
}
use uldb.Bytes.{Bytes, bytes_eq}
use uldb.Maps.{lookup}
use uldb.Storage.Memtable
use uldb.Storage.Memtable.{Memtable, MemEntry}
use uldb.Storage.Memtable.Laws
use uldb.Storage.Page.{Page}
use uldb.Storage.Page.Lookup
use uldb.Storage.Page.Lookup.{find_record}
use uldb.Storage.Compaction
use uldb.Storage.Compaction.{CompactionManager, rev, add_l0_page}
use uldb.Storage.Compaction.Reads
use uldb.Storage.Compaction.Reads.{newest_first, get-newest}
use uldb.Storage.Compaction.Levels.{IsShaped}
use uldb.Storage.Compaction.Promotion.{holders, get-add_l0_page}
use uldb.Storage.Cache.Laws.{view}
use uldb.Engine.{Engine, ok, keep_two, flush_memtable, frozen_to_page, worker_step}
use uldb.Engine.Lookup.{find_frozen}
use uldb.Engine.Pages.{frozen_to_page_lem, entry_record}
use uldb.Engine.Reads.{reads, reads_first, first_known}

-- The frozen memtables hold nothing: a flush drains them before it keeps them.
abbrev pub AllDrained : List Memtable → Type 0
AllDrained = All (λ m. m.entries ≡ [])

AllDrained-drop : (n : ℕ) (ms : List Memtable) → AllDrained ms → AllDrained (drop n ms)
AllDrained-drop zero ms a = a
AllDrained-drop (suc n) [] a = tt
AllDrained-drop (suc n) (m ∷ ms) a = AllDrained-drop n ms a.1

pub AllDrained-rev : (ms : List Memtable) → AllDrained ms → AllDrained (rev ms)
unfolding rev
AllDrained-rev [] a = tt
AllDrained-rev (m ∷ ms) a =
    All-append (λ m. m.entries ≡ []) (rev ms) (m ∷ []) (AllDrained-rev ms a.1) (a.0, tt)

pub find_drained : (j : Bytes) (ms : List Memtable) → AllDrained ms → find_frozen j ms ≡ none
unfolding find_frozen Memtable.get_entry lookup
find_drained j [] a = refl
find_drained j (m ∷ ms) a = rw (a.0, find_frozen) (find_drained j ms a.1)

worker_step-queue :
    (deflate : Bytes → Bytes) (e : Engine) (page : Page) (later : List Page)
    → e.queue ≡ page ∷ later
    → worker_step deflate e ≡ record e { queue = later; levels = add_l0_page deflate page e.levels }
unfolding worker_step
worker_step-queue deflate e page later h = rw (h, worker_step)

module _ (ideal_bits : ℕ → ℕ) (ideal_hashes : ℕ → ℕ → ℕ) (e : Engine)
    (valid : Laws.IsValid e.memtable) (alive : e.worker_alive ≡ true)
    (drained : AllDrained e.frozen) where
  -- A flush returns with an empty memtable and one page more for the worker. Until the worker takes
  -- that page, a read gives what the cache and the levels hold, whatever the memtable held: a write
  -- that was just flushed cannot be read.
  pub flush_memtable_lem :
      (e' : Engine) × (page : Page) × (frozen_to_page ideal_bits ideal_hashes e.memtable.entries
        ≡ some page)
      × (flush_memtable ideal_bits ideal_hashes e ≡ ok e')
      × (e'.queue ≡ e.queue ++ page ∷ [])
      × Lookup.IsSorted page.records
      × ((j : Bytes)
          → find_record j page.records ≡ entry_record j (Memtable.get_entry j e.memtable))
      × (e'.levels ≡ e.levels)
      × (e'.cache ≡ e.cache)
      × AllDrained e'.frozen
      × (e'.memtable ≡ Memtable.new e.flush_threshold)
      × ((j : Bytes)
          → reads j e' ≡ first_known none none (view j e.cache) (Compaction.get j e.levels))
  unfolding flush_memtable Memtable.drain Memtable.get_entry keep_two Memtable.new lookup
  flush_memtable_lem =
      let (page, made, sorted, found) =
        frozen_to_page_lem ideal_bits ideal_hashes e.memtable.entries valid.sorted in
      let kept : AllDrained (keep_two (e.frozen ++ (Memtable.drain e.memtable).1 ∷ [])) =
        AllDrained-drop (length (e.frozen ++ (Memtable.drain e.memtable).1 ∷ []) - 2) _ (
          All-append (λ m. m.entries ≡ []) e.frozen ((Memtable.drain e.memtable).1 ∷ []) drained
            (refl, tt)) in
      (
        record e {
          memtable = Memtable.new e.flush_threshold;
          queue = e.queue ++ page ∷ [];
          frozen = keep_two (e.frozen ++ (Memtable.drain e.memtable).1 ∷ []);
          flush_count = e.flush_count + 1;
        },
        page,
        made,
        rw (made, alive, flush_memtable),
        refl,
        sorted,
        found,
        refl,
        refl,
        kept,
        refl,
        λ j.
            reads_first j _
            ∙ ground (
              arith,
              find_drained j (rev (keep_two (e.frozen ++ (Memtable.drain e.memtable).1 ∷ [])))
                  (AllDrained-rev _ kept),
            ),
      )

  -- Once the worker has taken the page, every read gives what it gave before the flush, if no page
  -- waited before, the key is in one page of the first level at most, and the cache either agrees
  -- with the levels on a key that the memtable does not know, or does not know it.
  pub worker_step-flush_memtable :
      (deflate : Bytes → Bytes) (j : Bytes) (page : Page)
      → e.queue ≡ []
      → Reads.IsValid e.levels
      → IsShaped e.levels
      → frozen_to_page ideal_bits ideal_hashes e.memtable.entries ≡ some page
      → holders j (e.levels.l0 ++ page ∷ []) ≤ 1
      → (view j e.cache ≡ none)
        ⊎ ((view j e.cache ≡ Compaction.get j e.levels) × (Memtable.get_entry j e.memtable ≡ none))
      → (e' : Engine) × (flush_memtable ideal_bits ideal_hashes e ≡ ok e')
        × (reads j (worker_step deflate e') ≡ reads j e)
  unfolding Memtable.new Memtable.get_entry lookup
  worker_step-flush_memtable deflate j page empty ok_levels shape is_page once coherent =
      let (e', page', made, done, queue, sorted, found, levels, cache, kept, fresh, gap) =
        flush_memtable_lem in
      let own : page ≡ page' = ground (arith, is_page, made) in
      let added = get-add_l0_page deflate j page e.levels (rw own sorted) ok_levels shape once in
      let one : e'.queue ≡ page ∷ [] = ground (arith, queue, own, empty) in
      (
        e',
        done,
        ap (reads j) (worker_step-queue deflate e' page [] one)
            ∙ (reads_first j (record e' { queue = []; levels = add_l0_page deflate page e'.levels })
                ∙ ground (
                  arith,
                  reads_first j e,
                  added,
                  get-newest j e.levels ok_levels,
                  found j,
                  own,
                  levels,
                  cache,
                  fresh,
                  find_drained j (rev e.frozen) (AllDrained-rev e.frozen drained),
                  find_drained j (rev e'.frozen) (AllDrained-rev e'.frozen kept),
                  coherent,
                )),
      )
